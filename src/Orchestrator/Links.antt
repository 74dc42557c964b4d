-- ===== src/Orchestrator/Links.antt =====
-- The loop of `MetadataOrchestrator::Store` that writes the links to the other storages.
use mathlib.Core.Path.{subst}
use symbios.Base.{
  ℕ, ◌≡◌, ◌≢◌, ◌⊎◌, inl, inr, ◌∙◌, refl, sym, some, List, [], ◌∷◌, length, ℕ_discrete, ==-true,
  ==-false,
}
use symbios.Base.Result.{ok}
use symbios.Base.Text.{Bytes}
use symbios.Objects.{Data, Io, MsgPack}
use symbios.Orchestrator.{put_data, put_links}
use symbios.Orchestrator.Contract.{Absent, Holds, IsIo, Among, Distinct}

module _ (io : Io) (laws : IsIo io) (codec : MsgPack) (max : ℕ) (solutions : List ℕ) where
  -- What `put_links` leaves, for the storages of `rest`.
  pub record Linked (id b : Bytes) (primary : ℕ) (rest : List ℕ) (s s' : io.State) : Type 0 where
    pub there : (j : ℕ) → Among j rest → j ≢ primary → Holds io s' j id b
    pub kept :
        (j : ℕ) (q d : Data)
        → (¬ Among j rest) ⊎ (j ≡ primary) ⊎ (q.id ≢ id)
        → io.read j s' q d ≡ io.read j s q d

  module _ (link : Data) (b : Bytes) (primary : ℕ) (hb : link.buffer ≡ some b)
      (hp : link.position ≡ 0) (hs : link.data_size ≡ length b) where
    abbrev at : ℕ → Data
    at i = record link { storage_index = i }

    abbrev pub Runs : List ℕ → io.State → Type 0
    Runs rest s =
        (s' : io.State) × (put_links io codec max solutions link primary rest s ≡ ok s')
        × Linked link.id b primary rest s s'

    skip-primary :
        (i : ℕ) (rest : List ℕ) (s : io.State) → i ≡ primary → Runs rest s → Runs (i ∷ rest) s
    unfolding put_links
    skip-primary i rest s e (s', runs, l) = (
      s',
      rw (==-true i primary e) runs,
      record {
        there = λ j m ne. elim m [ inl p ↦ absurd (ne (p ∙ e)) | inr m' ↦ l.there j m' ne ];
        kept = λ j q d h. l.kept j q d (elim h [ inl n ↦ inl (λ m. n (inr m)) | inr p ↦ inr p ]);
      },
    )

    put-one :
        (i : ℕ) (rest : List ℕ) (s : io.State)
        → i ≢ primary
        → ¬ Among i rest
        → Absent io s i link.id
        → Runs rest (laws.after s i link.id b)
        → Runs (i ∷ rest) s
    unfolding put_links put_data
    put-one i rest s ne new absent (s', runs, l) = (
      s',
      rw (==-false i primary ne, laws.writes s i (at i) (at i) b hb hp hs hp absent) runs,
      record {
        there = λ j m ne'. elim m [
          | inl p ↦ subst (λ k. Holds io s' k link.id b) (sym p) (here)
          | inr m' ↦ l.there j m' ne'
        ];
        kept = λ j q d h.
            l.kept j q d (elim h [ inl n ↦ inl (λ m. n (inr m)) | inr p ↦ inr p ])
            ∙ laws.others s i j link.id b q d (elim h [
              | inl n ↦ inl (λ p. n (inl p))
              | inr (inl p') ↦ inl (λ p. ne (sym p ∙ p'))
              | inr (inr other) ↦ inr other
            ]);
      },
    )
      where
        here : Holds io s' i link.id b
        here q d e p z t = l.kept i q d (inl new) ∙ laws.holds s i link.id b absent q d e p z t

    -- Every storage but the primary one gets the link, and nothing else changes.
    pub put_links-Linked :
        (rest : List ℕ) (s : io.State)
        → Distinct rest
        → ((j : ℕ) → Among j rest → j ≢ primary → Absent io s j link.id)
        → Runs rest s
    put_links-Linked [] s dist absent =
        (s, unfold put_links in refl, record { there = λ j m ne. absurd m; kept = λ j q d h. refl })
    put_links-Linked (i ∷ rest) s dist absent = elim (ℕ_discrete i primary) [
      | yes e ↦
          skip-primary i rest s e (put_links-Linked rest s dist.1 (λ j m ne. absent j (inr m) ne))
      | no ne ↦ put-one i rest s ne dist.0 (absent i (inl refl) ne) (
          put_links-Linked rest (laws.after s i link.id b) dist.1 (λ j m ne' q d e.
            let (c, h) = absent j (inr m) ne' q d e in
            (
              c,
              laws.others s i j link.id b q d (inl (λ p. dist.0 (subst (λ k. Among k rest) p m)))
                  ∙ h,
            )))
    ]
