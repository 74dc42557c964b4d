-- ===== src/Storage/Family.antt =====
-- Storages of one kind, one for each index.
use symbios.Base.{
  ℕ, ◌≡◌, ◌≢◌, inl, inr, ◌∙◌, sym, refl, ap, ◌==◌, if◌then◌else◌, ==-true, ==-false, ℕ_discrete,
}
use symbios.Base.Result.{ok, ◌>>=◌}
use symbios.Objects.{Io}
use symbios.Storage.{Storage, IsStorage}
use symbios.Orchestrator.Contract.{IsIo}

unfoldable pub update {ℓ} : {A : Type ℓ} → (ℕ → A) → ℕ → A → ℕ → A
update f i a j = if j == i then a else f j

module _ {ℓ} {A : Type ℓ} where
  pub update_self : (f : ℕ → A) (i : ℕ) (a : A) → update f i a i ≡ a
  unfolding update
  update_self f i a = rw (==-true i i refl)

  pub update_ne : (f : ℕ → A) (i j : ℕ) (a : A) → j ≢ i → update f i a j ≡ f j
  unfolding update
  update_ne f i j a ne = rw (==-false j i ne)

abbrev pub family_io : Storage → Io
family_io st = record {
  State = ℕ → st.State;
  read = λ i s source destination. st.read (s i) source destination;
  write = λ i s source destination. st.write (s i) source destination >>= λ t. ok (update s i t);
  remove = λ i s source. st.remove (s i) source >>= λ p. ok (p.0, update s i p.1);
  size = λ i s source. st.size (s i) source;
}

-- Storages that keep the contract of one keep that of all.
pub family_io-IsIo : (st : Storage) → IsStorage st → IsIo (family_io st)
family_io-IsIo st law = record {
  after = λ s i id b. update s i (law.after (s i) id b);
  writes = λ s i source d b hb hp hs hd absent.
      ap (λ x. x >>= λ t. ok (update s i t)) (law.writes (s i) source d b hb hp hs hd absent);
  holds = λ s i id b absent q d same start size to_start.
      ap (λ t. st.read t q d) (update_self s i (law.after (s i) id b))
      ∙ law.holds (s i) id b absent q d same start size to_start;
  others = λ s i j id b q d h. elim (ℕ_discrete j i) [
    | yes e ↦
        ap (λ k. st.read (update s i (law.after (s i) id b) k) q d) e
        ∙ ap (λ t. st.read t q d) (update_self s i (law.after (s i) id b))
        ∙ law.others (s i) id b q d (elim h [ inl ne ↦ absurd (ne e) | inr other ↦ other ])
        ∙ ap (λ k. st.read (s k) q d) (sym e)
    | no ne ↦ ap (λ t. st.read t q d) (update_ne s i j (law.after (s i) id b) ne)
  ];
}
