-- ===== src/DoubleBuffer/Contents.antt =====
-- What is in a double buffer, in any order, after a sequence of calls.
use mathlib.Core.List.Perm
use mathlib.Core.List.{Perm, perm_middle, perm_append_singleton}
use mathlib.Core.Path.{subst, ap₂}
use symbios.Base.{
  ◌≡◌, ◌⊎◌, inl, inr, refl, sym, Bool, true, false, not, Option, none, some, List, [], ◌∷◌, ◌++◌,
  append_assoc,
}
use symbios.DoubleBuffer.{DoubleBuffer, put, push, take_first, take_second, or_else, pop, pop_sync}

module _ {ℓ} (T : Type ℓ) where
  abbrev pub contents : DoubleBuffer T → List T
  contents d = d.first ++ d.second

  put-contents :
      (tid : Bool) (obj : T) (d : DoubleBuffer T)
      → Perm (contents (put T tid obj d)) (obj ∷ contents d)
  unfolding put
  put-contents false obj d =
      subst (λ l. Perm l (obj ∷ contents d)) (sym (append_assoc d.first (obj ∷ []) d.second))
        (perm_middle d.first d.second)
  put-contents true obj d =
      subst (λ l. Perm l (obj ∷ contents d)) (append_assoc d.first d.second (obj ∷ []))
        (perm_append_singleton obj (contents d))

  -- Whichever locks are free, a push adds its object to the contents, and nothing else changes.
  pub push-contents :
      (tid first_free second_free : Bool) (obj : T) (d : DoubleBuffer T)
      → Perm (contents (push T tid first_free second_free obj d)) (obj ∷ contents d)
  unfolding push
  push-contents tid true second_free obj d = put-contents tid obj d
  push-contents tid false true obj d = put-contents (not tid) obj d
  push-contents tid false false obj d = put-contents tid obj d

  -- What a call with the answer `o` does to the contents of `d`.
  abbrev Takes : DoubleBuffer T → Option (T × DoubleBuffer T) → Type ℓ
  Takes d o =
      ((o ≡ none) × (contents d ≡ []))
      ⊎ ((obj : T) × (e : DoubleBuffer T) × (o ≡ some (obj, e))
          × Perm (contents d) (obj ∷ contents e))

  from_first :
      (x : T) (r : List T) (d : DoubleBuffer T)
      → d.first ≡ x ∷ r
      → Perm (contents d) (x ∷ (r ++ d.second))
  from_first x r d e =
      subst (λ (l : List T). Perm (l ++ d.second) (x ∷ (r ++ d.second))) (sym e)
        (Perm.refl (x ∷ (r ++ d.second)))

  from_second :
      (x : T) (r : List T) (d : DoubleBuffer T)
      → d.second ≡ x ∷ r
      → Perm (contents d) (x ∷ (d.first ++ r))
  from_second x r d e =
      subst (λ (l : List T). Perm (d.first ++ l) (x ∷ (d.first ++ r))) (sym e)
        (perm_middle d.first r)

  halves :
      (first second : List T) (d : DoubleBuffer T)
      → d.first ≡ first
      → d.second ≡ second
      → Takes d (or_else T (take_first T first d) (take_second T second d))
        × Takes d (or_else T (take_second T second d) (take_first T first d))
  unfolding take_first take_second or_else
  halves (x ∷ r) [] d e₁ e₂ = (
    inr (x, record d { first = r }, refl, from_first x r d e₁),
    inr (x, record d { first = r }, refl, from_first x r d e₁),
  )
  halves (x ∷ r) (y ∷ t) d e₁ e₂ = (
    inr (x, record d { first = r }, refl, from_first x r d e₁),
    inr (y, record d { second = t }, refl, from_second y t d e₂),
  )
  halves [] (y ∷ t) d e₁ e₂ = (
    inr (y, record d { second = t }, refl, from_second y t d e₂),
    inr (y, record d { second = t }, refl, from_second y t d e₂),
  )
  halves [] [] d e₁ e₂ = (
    inl (refl, ap₂ (λ (l t : List T). l ++ t) e₁ e₂),
    inl (refl, ap₂ (λ (l t : List T). l ++ t) e₁ e₂),
  )

  -- A pop answers `false` only on an empty buffer; otherwise it removes one object from the contents.
  pub pop-contents : (tid : Bool) (d : DoubleBuffer T) → Takes d (pop T tid d)
  unfolding pop
  pop-contents false d = (halves d.first d.second d refl refl).0
  pop-contents true d = (halves d.first d.second d refl refl).1

  -- One call of a sequence.
  pub data Call : Type ℓ where
    push_call : Bool → Bool → Bool → T → Call
    pop_call : Bool → Call
    pop_sync_call : Call

  abbrev pushed : List Call → List T
  pushed [] = []
  pushed (push_call tid a b obj ∷ cs) = obj ∷ pushed cs
  pushed (pop_call tid ∷ cs) = pushed cs
  pushed (pop_sync_call ∷ cs) = pushed cs

  -- A call that may have taken an object, and the rest of the sequence.
  then_run :
      Option (T × DoubleBuffer T)
      → List T × DoubleBuffer T
      → (DoubleBuffer T → List T × DoubleBuffer T)
      → List T × DoubleBuffer T
  then_run none same next = same
  then_run (some (obj, e)) same next = (obj ∷ (next e).0, (next e).1)

  -- The objects that a sequence of calls takes, in turn, and the buffer behind it.
  pub run : List Call → DoubleBuffer T → List T × DoubleBuffer T
  unfolding then_run
  run [] d = ([], d)
  run (push_call tid a b obj ∷ cs) d = run cs (push T tid a b obj d)
  run (pop_call tid ∷ cs) d = then_run (pop T tid d) (run cs d) (run cs)
  run (pop_sync_call ∷ cs) d = then_run (pop_sync T d) (run cs d) (run cs)

  Balanced : List T → DoubleBuffer T → List T × DoubleBuffer T → Type ℓ
  Balanced given d result = Perm (result.0 ++ contents result.1) (given ++ contents d)

  taken :
      (given : List T) (d : DoubleBuffer T) (o : Option (T × DoubleBuffer T))
      (next : DoubleBuffer T → List T × DoubleBuffer T)
      → Takes d o
      → ((e : DoubleBuffer T) → Balanced given e (next e))
      → Balanced given d (then_run o (next d) next)
  unfolding then_run Balanced
  taken given d o next (inl (e, _)) h = rw e (h d)
  taken given d o next (inr (obj, e, same, moved)) h = rw same (
      Perm.trans (Perm.cons obj (h e)) (
        Perm.trans (Perm.symm (perm_middle given (contents e)))
          (Perm.append_left given (Perm.symm moved))))

  -- After any sequence of calls, whichever locks they find free, the objects that were taken and those
  -- that are left are, in some order, the objects that were pushed and those that were there before.
  pub run-contents :
      (cs : List Call) (d : DoubleBuffer T)
      → Perm ((run cs d).0 ++ contents (run cs d).1) (pushed cs ++ contents d)
  unfolding run Balanced pop_sync pop
  run-contents [] d = Perm.refl (contents d)
  run-contents (push_call tid a b obj ∷ cs) d =
      Perm.trans (run-contents cs (push T tid a b obj d)) (
        Perm.trans (Perm.append_left (pushed cs) (push-contents tid a b obj d))
          (perm_middle (pushed cs) (contents d)))
  run-contents (pop_call tid ∷ cs) d =
      taken (pushed cs) d (pop T tid d) (run cs) (pop-contents tid d) (run-contents cs)
  run-contents (pop_sync_call ∷ cs) d =
      taken (pushed cs) d (pop_sync T d) (run cs) (pop-contents false d) (run-contents cs)
