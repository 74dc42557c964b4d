-- ===== src/Orchestrator/Known.antt =====
-- What `MetadataOrchestrator::Store` does to the links of an object that exists.
use symbios.Base.{
  ℕ, ◌≡◌, ◌⊎◌, inl, inr, refl, Bool, true, false, none, some, List, [], ◌∷◌, ◌++◌, Option, ==-true,
  if◌then◌else◌,
}
use symbios.Base.Int.{ℤ, pos, negsuc, eqb_ℤ}
use symbios.Objects.{Data, DataDistribution}
use symbios.Orchestrator.{
  find_link, add_unless, insert_link, segment_of, name_segment, drop_buffer, more_by, store_more,
}

eqb_ℤ_self : (z : ℤ) → eqb_ℤ z z ≡ true
unfolding eqb_ℤ
eqb_ℤ_self (pos n) = ==-true n n refl
eqb_ℤ_self (negsuc n) = ==-true n n refl

find-append :
    (links rest : List (ℤ × Data)) (k : ℤ) (d : Data)
    → find_link k links ≡ some d
    → find_link k (links ++ rest) ≡ some d
unfolding find_link
find-append [] rest k d found = cc
find-append ((j, c) ∷ links) rest k d found = by (eqb_ℤ j k) found (find-append links rest k d)
  where
    by :
        (b : Bool)
        → (if b then some c else find_link k links) ≡ some d
        → (find_link k links ≡ some d → find_link k (links ++ rest) ≡ some d)
        → (if b then some c else find_link k (links ++ rest)) ≡ some d
    by true found later = found
    by false found later = later found

find-last :
    (links : List (ℤ × Data)) (k : ℤ) (d : Data)
    → find_link k links ≡ none
    → find_link k (links ++ (k, d) ∷ []) ≡ some d
unfolding find_link
find-last [] k d absent = rw (eqb_ℤ_self k)
find-last ((j, c) ∷ links) k d absent = by (eqb_ℤ j k) absent (find-last links k d)
  where
    by :
        (b : Bool)
        → (if b then some c else find_link k links) ≡ none
        → (find_link k links ≡ none → find_link k (links ++ (k, d) ∷ []) ≡ some d)
        → (if b then some c else find_link k (links ++ (k, d) ∷ [])) ≡ some d
    by true absent later = cc
    by false absent later = later absent

-- A link that is there stays, and the one that is inserted is there, or another under its key.
find-insert :
    (links : List (ℤ × Data)) (j : ℤ) (c : Data) (k : ℤ) (d : Data)
    → find_link k links ≡ some d
    → find_link k (insert_link j c links) ≡ some d
unfolding insert_link
find-insert links j c k d found = by (find_link j links)
  where
    by : (o : Option Data) → find_link k (add_unless o j c links) ≡ some d
    by none = unfold add_unless in find-append links ((j, c) ∷ []) k d found
    by (some _) = unfold add_unless in found

insert_there :
    (links : List (ℤ × Data)) (k : ℤ) (c : Data)
    → find_link k links ≡ none
    → find_link k (insert_link k c links) ≡ some c
unfolding insert_link add_unless
insert_there links k c absent = rw (absent) (find-last links k c absent)

module _ (max : ℕ) where
  -- Every segment of the distributions has a link.
  abbrev pub Covered : List DataDistribution → List (ℤ × Data) → Type 0
  Covered [] links = Unit
  Covered (d ∷ ds) links =
      ((link : Data) × (find_link (pos (segment_of max d)) links ≡ some link)) × Covered ds links

  -- What holds of the links of both outcomes holds of those of the one that is taken.
  more_by-links {ℓ} :
      (P : List (ℤ × Data) → Type ℓ) (d : DataDistribution) (o : Option Data)
      (added kept : List DataDistribution × List (ℤ × Data) × Bool)
      → (o ≡ none → P added.1)
      → ((link : Data) → o ≡ some link → P kept.1)
      → P (more_by max d o added kept).1
  unfolding more_by
  more_by-links P d none added kept ha hk = ha refl
  more_by-links P d (some link) added kept ha hk = hk link refl

  store_more-find :
      (ds : List DataDistribution) (links : List (ℤ × Data)) (updated : Bool) (k : ℤ) (link : Data)
      → find_link k links ≡ some link
      → find_link k (store_more max ds links updated).1 ≡ some link
  unfolding store_more
  store_more-find [] links updated k link found = found
  store_more-find (d ∷ ds) links updated k link found =
      let key = pos (segment_of max d) in
      let named = (drop_buffer (name_segment max d)).destination_data in
      more_by-links (λ l. find_link k l ≡ some link) d (find_link key links)
        (store_more max ds (insert_link key named links) true) (store_more max ds links updated)
        (λ e.
          store_more-find ds (insert_link key named links) true k link
            (find-insert links key named k link found))
        (λ old e. store_more-find ds links updated k link found)

  store_more-Covered :
      (ds : List DataDistribution) (links : List (ℤ × Data)) (updated : Bool)
      → Covered ds (store_more max ds links updated).1
  unfolding store_more
  store_more-Covered [] links updated = tt
  store_more-Covered (d ∷ ds) links updated =
      let key = pos (segment_of max d) in
      let named = (drop_buffer (name_segment max d)).destination_data in
      let inserted = insert_link key named links in
      more_by-links (Covered (d ∷ ds)) d (find_link key links) (store_more max ds inserted true)
        (store_more max ds links updated)
        (λ e. (
          (named, store_more-find ds inserted true key named (insert_there links key named e)),
          store_more-Covered ds inserted true,
        ))
        (λ old e.
          ((old, store_more-find ds links updated key old e), store_more-Covered ds links updated))

  -- A link that was added is not forgotten.
  store_more-true :
      (ds : List DataDistribution) (links : List (ℤ × Data))
      → (store_more max ds links true).2 ≡ true
  unfolding store_more
  store_more-true [] links = refl
  store_more-true (d ∷ ds) links =
      let key = pos (segment_of max d) in
      let named = (drop_buffer (name_segment max d)).destination_data in
      more_by-flag d (find_link key links) (store_more max ds (insert_link key named links) true)
        (store_more max ds links true) (store_more-true ds (insert_link key named links))
        (store_more-true ds links)
    where
      more_by-flag :
          (d : DataDistribution) (o : Option Data)
          (added kept : List DataDistribution × List (ℤ × Data) × Bool)
          → added.2 ≡ true
          → kept.2 ≡ true
          → (more_by max d o added kept).2 ≡ true
      more_by-flag d none added kept ha hk = unfold more_by in ha
      more_by-flag d (some link) added kept ha hk = unfold more_by in hk

  store_more-same :
      (ds : List DataDistribution) (links : List (ℤ × Data)) (updated : Bool)
      → ((store_more max ds links updated).2 ≡ true) ⊎ ((store_more max ds links updated).1 ≡ links)
  unfolding store_more
  store_more-same [] links updated = inr refl
  store_more-same (d ∷ ds) links updated =
      let key = pos (segment_of max d) in
      let named = (drop_buffer (name_segment max d)).destination_data in
      by (find_link key links) (store_more max ds (insert_link key named links) true)
        (store_more max ds links updated) (store_more-true ds (insert_link key named links))
        (store_more-same ds links updated)
    where
      by :
          (o : Option Data) (added kept : List DataDistribution × List (ℤ × Data) × Bool)
          → added.2 ≡ true
          → (kept.2 ≡ true) ⊎ (kept.1 ≡ links)
          → ((more_by max d o added kept).2 ≡ true) ⊎ ((more_by max d o added kept).1 ≡ links)
      by none added kept ha hk = unfold more_by in inl ha
      by (some link) added kept ha hk = unfold more_by in hk

  -- The links after a store to an object that exists: a link that was there is found unchanged, every
  -- segment of the distributions has a link, and if the flag does not say that a link was added, the
  -- links are those of before, so that the metadata need not be written.
  pub store_more-links :
      (ds : List DataDistribution) (links : List (ℤ × Data)) (k : ℤ) (link : Data)
      → find_link k links ≡ some link
      → (find_link k (store_more max ds links false).1 ≡ some link)
        × Covered ds (store_more max ds links false).1
        × (((store_more max ds links false).2 ≡ true) ⊎ ((store_more max ds links false).1 ≡ links))
  store_more-links ds links k link found = (
    store_more-find ds links false k link found,
    store_more-Covered ds links false,
    store_more-same ds links false,
  )
