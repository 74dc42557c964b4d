-- ===== src/Arguments/Given.antt =====
-- What is left of the words of a command line.
use symbios.Base.{
  ◌≡◌, ◌≢◌, ◌∙◌, refl, sym, ap, Bool, true, false, Bool-cases, inl, inr, Option, some, List, [],
  ◌∷◌, ◌++◌, append_assoc,
}
use mathlib.Core.Path.{subst}
use symbios.Base.Result.{Result, ok}
use symbios.Base.Text.{Bytes}
use symbios.Collection.{bytes_eq, bytes_eq_sound, bytes_eq-ne}
use symbios.Arguments.Numbers.{or_throw}
use symbios.Arguments.{
  Arg, string_values, find_arg, put_arg, option_of, arg_iter, add, add_value, drop_default,
  strings_of, get_opts,
}

-- The words that give an option each of the values in turn.
abbrev pub words_of : Bytes → List Bytes → List Bytes
words_of opt [] = []
words_of opt (v ∷ vs) = opt ∷ v ∷ words_of opt vs

-- The values that are kept when another one is added: a default is dropped.
abbrev pub kept : Bool → List Bytes → List Bytes
kept true l = []
kept false l = l

-- The default is the only value.
abbrev pub IsDefault : Bool → List Bytes → Type 0
IsDefault true [] = ⊥
IsDefault true (d ∷ l) = l ≡ []
IsDefault false l = Unit

drop_default-kept : (b : Bool) (l : List Bytes) → IsDefault b l → drop_default b l ≡ ok (kept b l)
unfolding drop_default
drop_default-kept false l h = refl
drop_default-kept true [] h = absurd h
drop_default-kept true (d ∷ l) h = ap ok h

module _ (Float : Type 0) (stof : Bytes → Option Float) where
  find_arg-put_arg :
      (args : List (Bytes × Arg Float stof)) (opt : Bytes) (a b : Arg Float stof)
      → find_arg Float stof args opt ≡ some a
      → find_arg Float stof (put_arg Float stof args opt b) opt ≡ some b
  unfolding find_arg put_arg
  find_arg-put_arg [] opt a b h = cc
  find_arg-put_arg ((k, x) ∷ args) opt a b h = elim (Bool-cases (bytes_eq k opt)) [
    | inl e ↦ rw e (rw e refl)
    | inr e ↦ rw e (rw e (find_arg-put_arg args opt a b (rw e at h)))
  ]

  find_arg-put_arg_ne :
      (args : List (Bytes × Arg Float stof)) (opt other : Bytes) (b : Arg Float stof)
      → other ≢ opt
      → find_arg Float stof (put_arg Float stof args opt b) other ≡ find_arg Float stof args other
  unfolding find_arg put_arg
  find_arg-put_arg_ne [] opt other b ne = refl
  find_arg-put_arg_ne ((k, x) ∷ args) opt other b ne = elim (Bool-cases (bytes_eq k opt)) [
    | inl e ↦
        let far : bytes_eq k other ≡ false =
          bytes_eq-ne k other (λ p. ne (sym p ∙ bytes_eq_sound k opt e)) in
        rw (e, far) refl
    | inr e ↦ rw (e, find_arg-put_arg_ne args opt other b ne) refl
  ]

  add-string :
      (a : Arg Float stof) (l : List Bytes) (v : Bytes)
      → a.args ≡ string_values l
      → IsDefault a.use_default l
      → add Float stof a v
        ≡ ok (record a {
          is_set = true;
          use_default = false;
          args = string_values (kept a.use_default l ++ (v ∷ []));
        })
  unfolding add add_value
  add-string a l v e h = rw (e, drop_default-kept a.use_default l h) refl

  -- An option whose values are texts.
  abbrev pub Stores : List (Bytes × Arg Float stof) → Bytes → Bool → List Bytes → Type 0
  Stores args opt b l =
      (a : Arg Float stof) × (find_arg Float stof args opt ≡ some a)
      × (a.use_default ≡ b)
      × (a.args ≡ string_values l)
      × (get_opts Float stof (strings_of Float stof) a ≡ ok l)

  abbrev pub Iterated :
      List (Bytes × Arg Float stof)
      → Bytes
      → List Bytes
      → Result (List (Bytes × Arg Float stof))
      → Type 0
  Iterated args opt l r =
      (args' : List (Bytes × Arg Float stof)) × (r ≡ ok args')
      × Stores args' opt false l
      × ((other : Bytes)
          → other ≢ opt
          → find_arg Float stof args' other ≡ find_arg Float stof args other)

  one_word :
      (args : List (Bytes × Arg Float stof)) (name v : Bytes) (rest : List Bytes)
      (a b : Arg Float stof) (l : List Bytes)
      → find_arg Float stof args (b'-' ∷ name) ≡ some (record a { args = string_values l })
      → add Float stof (record a { args = string_values l }) v ≡ ok b
      → arg_iter Float stof args ((b'-' ∷ name) ∷ v ∷ rest)
        ≡ arg_iter Float stof (put_arg Float stof args (b'-' ∷ name) b) rest
  unfolding arg_iter or_throw option_of
  one_word args name v rest a b l found added = rw (found, added) refl

  -- The option behind one value more.
  abbrev one_more : Arg Float stof → List Bytes → Bytes → Arg Float stof
  one_more a l v = record a {
    is_set = true;
    use_default = false;
    args = string_values (kept a.use_default l ++ (v ∷ []));
  }

  one_given :
      (vs : List Bytes) (args : List (Bytes × Arg Float stof)) (name v : Bytes) (a : Arg Float stof)
      (l : List Bytes)
      → find_arg Float stof args (b'-' ∷ name) ≡ some a
      → a.args ≡ string_values l
      → IsDefault a.use_default l
      → arg_iter Float stof args (words_of (b'-' ∷ name) (v ∷ vs))
        ≡ arg_iter Float stof
            (put_arg Float stof args (b'-' ∷ name) (one_more a l v))
            (words_of (b'-' ∷ name) vs)
  one_given vs args name v a l found texts whole =
      one_word args name v (words_of (b'-' ∷ name) vs) a (one_more a l v) l (found ∙ ap some same)
        (ap (λ x. add Float stof x v) (sym same) ∙ add-string a l v texts whole)
    where
      same : a ≡ record a { args = string_values l }
      same = ap (λ x. record a { args = x }) texts

  -- If an option of texts has only its default, or no default, then words that give it one value
  -- after the other leave it with the values that it had, less the default, and these behind them,
  -- which is what it then answers; every other option is left as it was.
  pub arg_iter-words_of :
      (vs : List Bytes) (args : List (Bytes × Arg Float stof)) (name v : Bytes) (a : Arg Float stof)
      (l : List Bytes)
      → find_arg Float stof args (b'-' ∷ name) ≡ some a
      → a.args ≡ string_values l
      → IsDefault a.use_default l
      → Iterated args
          (b'-' ∷ name)
          (kept a.use_default l ++ (v ∷ vs))
          (arg_iter Float stof args (words_of (b'-' ∷ name) (v ∷ vs)))
  unfolding get_opts strings_of arg_iter
  arg_iter-words_of [] args name v a l found texts whole =
      subst (λ r. Iterated args (b'-' ∷ name) (kept a.use_default l ++ (v ∷ [])) r)
        (sym (one_given [] args name v a l found texts whole))
        (
          put_arg Float stof args (b'-' ∷ name) (one_more a l v),
          refl,
          (
            one_more a l v,
            find_arg-put_arg args (b'-' ∷ name) a (one_more a l v) found,
            refl,
            refl,
            refl,
          ),
          λ other ne. find_arg-put_arg_ne args (b'-' ∷ name) other (one_more a l v) ne,
        )
  arg_iter-words_of (w ∷ vs) args name v a l found texts whole =
      let (args', e, stores, others) =
        arg_iter-words_of vs (put_arg Float stof args (b'-' ∷ name) (one_more a l v)) name w
          (one_more a l v) (kept a.use_default l ++ (v ∷ []))
          (find_arg-put_arg args (b'-' ∷ name) a (one_more a l v) found) refl tt in
      (
        args',
        one_given (w ∷ vs) args name v a l found texts whole ∙ e,
        subst (λ (vals : List Bytes). Stores args' (b'-' ∷ name) false vals)
            (append_assoc (kept a.use_default l) (v ∷ []) (w ∷ vs)) stores,
        λ other ne.
            others other ne ∙ find_arg-put_arg_ne args (b'-' ∷ name) other (one_more a l v) ne,
      )
