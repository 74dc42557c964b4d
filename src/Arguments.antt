-- ===== src/Arguments.antt =====
-- src/common/include/common/arguments.h: the options of a command line, each with the values that it
-- was given. Floating-point numbers and `std::stof` are a parameter.
pub mod Numbers
pub mod Given
pub mod Sizes
use symbios.Base.{
  ℕ, zero, suc, ◌+◌, Bool, true, false, Option, none, some, List, [], ◌∷◌, ◌++◌, ◌==◌,
  if◌then◌else◌,
}
use symbios.Base.Int.{ℤ}
use symbios.Base.Result.{Result, ok, err, foreign, uninitialised, out_of_bounds, ◌>>=◌}
use symbios.Base.Text.{Bytes}
use symbios.Collection.{bytes_eq}
use Numbers.{or_throw, stoi, to_size}

-- `ArgType`
pub data ArgType : Type 0 where
  none_type string_type string_map_type int_type float_type size_type : ArgType

-- `std::list::back`, of a list that may not be empty.
unfoldable pub back {ℓ} : {A : Type ℓ} → List A → Result A
back [] = err out_of_bounds
back (x ∷ []) = ok x
back (x ∷ y ∷ l) = back (y ∷ l)

-- `pop_front`, of a list that may not be empty, if the default is still in it.
unfoldable pub drop_default {ℓ} : {A : Type ℓ} → Bool → List A → Result (List A)
drop_default false l = ok l
drop_default true [] = err out_of_bounds
drop_default true (x ∷ l) = ok l

-- `arg_map_.find`
unfoldable pub find_id : List (Bytes × ℤ) → Bytes → Option ℤ
find_id [] arg = none
find_id ((val, id) ∷ m) arg = let rest = find_id m arg in if bytes_eq val arg then some id else rest

-- The option that a word names: a word without a dash stands for the option with no name.
unfoldable pub option_of : Bytes → Bytes
option_of [] = []
option_of (c ∷ word) = if c == b'-' then c ∷ word else []

module _ (Float : Type 0) (stof : Bytes → Option Float) where
  -- The values of an `Arg`, by its class.
  pub data Values : Type 0 where
    none_values : Values
    string_values : List Bytes → Values
    string_map_values : List (Bytes × ℤ) → List ℤ → Values
    int_values : List ℤ → Values
    float_values : List Float → Values
    size_values : List ℕ → Values

  pub record Arg : Type 0 where
    pub opt_name : Bytes
    pub is_set : Bool
    pub use_default : Bool
    pub args : Values

  -- `GetType`
  abbrev pub type_of : Values → ArgType
  type_of none_values = none_type
  type_of (string_values l) = string_type
  type_of (string_map_values m l) = string_map_type
  type_of (int_values l) = int_type
  type_of (float_values l) = float_type
  type_of (size_values l) = size_type

  -- `Add(arg)` of each class, behind the default: `throw 1`, and the exceptions of the conversions,
  -- are caught nowhere.
  unfoldable pub add_value : Bool → Values → Bytes → Result Values
  unfolding drop_default find_id
  add_value use_default none_values arg = err foreign
  add_value use_default (string_values l) arg =
      drop_default use_default l >>= λ l. ok (string_values (l ++ (arg ∷ [])))
  add_value use_default (string_map_values m l) arg = drop_default use_default l >>= λ l.
      or_throw (find_id m arg) >>= λ id. ok (string_map_values m (l ++ (id ∷ [])))
  add_value use_default (int_values l) arg =
      drop_default use_default l >>= λ l. stoi arg >>= λ n. ok (int_values (l ++ (n ∷ [])))
  add_value use_default (float_values l) arg = drop_default use_default l >>= λ l.
      or_throw (stof arg) >>= λ x. ok (float_values (l ++ (x ∷ [])))
  add_value use_default (size_values l) arg =
      drop_default use_default l >>= λ l. to_size arg >>= λ n. ok (size_values (l ++ (n ∷ [])))

  unfoldable pub add : Arg → Bytes → Result Arg
  unfolding add_value
  add a arg = add_value a.use_default a.args arg >>= λ v.
      ok (record a { is_set = true; use_default = false; args = v })

  -- `Add()`, of an option without a value.
  unfoldable pub add_none : Arg → Result Arg
  add_none a = elim a.args [ none_values ↦ ok (record a { is_set = true }) | _ ↦ err foreign ]

  -- `GetStringOpt`, `GetIntOpt`, `GetFloatOpt` and `GetSizeOpt`, and the lists of all values.
  unfoldable pub strings_of : Values → Result (List Bytes)
  strings_of (string_values l) = ok l
  strings_of v = err foreign

  unfoldable pub ints_of : Values → Result (List ℤ)
  ints_of (string_map_values m l) = ok l
  ints_of (int_values l) = ok l
  ints_of v = err foreign

  unfoldable pub floats_of : Values → Result (List Float)
  floats_of (float_values l) = ok l
  floats_of v = err foreign

  unfoldable pub sizes_of : Values → Result (List ℕ)
  sizes_of (size_values l) = ok l
  sizes_of v = err foreign

  unfoldable pub get_opts {ℓ} : {A : Type ℓ} → (Values → Result (List A)) → Arg → Result (List A)
  get_opts values a = values a.args >>= λ l. if a.is_set then ok l else err foreign

  unfoldable pub get_opt {ℓ} : {A : Type ℓ} → (Values → Result (List A)) → Arg → Result A
  unfolding get_opts back
  get_opt values a = get_opts values a >>= back

  -- `ArgFactory::Get` without a default.
  abbrev pub empty_values : ArgType → Values
  empty_values none_type = none_values
  empty_values string_type = string_values []
  empty_values string_map_type = string_map_values [] []
  empty_values int_type = int_values []
  empty_values float_type = float_values []
  empty_values size_type = size_values []

  abbrev pub new_arg : Bytes → ArgType → Arg
  new_arg opt_name type = record {
    opt_name = opt_name;
    is_set = false;
    use_default = false;
    args = empty_values type;
  }

  abbrev pub with_default : Bytes → Values → Arg
  with_default opt_name v = record {
    opt_name = opt_name;
    is_set = true;
    use_default = true;
    args = v;
  }

  -- `ArgFactory::Get` with a default; for the other types the function ends without a return.
  unfoldable pub new_string_arg : Bytes → ArgType → Bytes → Result Arg
  new_string_arg opt_name string_type dval = ok (with_default opt_name (string_values (dval ∷ [])))
  new_string_arg opt_name type dval = err uninitialised

  unfoldable pub new_int_arg : Bytes → ArgType → ℤ → Result Arg
  new_int_arg opt_name string_map_type dval =
      ok (with_default opt_name (string_map_values [] (dval ∷ [])))
  new_int_arg opt_name int_type dval = ok (with_default opt_name (int_values (dval ∷ [])))
  new_int_arg opt_name type dval = err uninitialised

  unfoldable pub new_float_arg : Bytes → ArgType → Float → Result Arg
  new_float_arg opt_name float_type dval = ok (with_default opt_name (float_values (dval ∷ [])))
  new_float_arg opt_name type dval = err uninitialised

  unfoldable pub new_size_arg : Bytes → ArgType → ℕ → Result Arg
  new_size_arg opt_name size_type dval = ok (with_default opt_name (size_values (dval ∷ [])))
  new_size_arg opt_name type dval = err uninitialised

  -- `args_.find`
  unfoldable pub find_arg : List (Bytes × Arg) → Bytes → Option Arg
  find_arg [] opt = none
  find_arg ((k, a) ∷ args) opt =
      let rest = find_arg args opt in if bytes_eq k opt then some a else rest

  unfoldable pub put_arg : List (Bytes × Arg) → Bytes → Arg → List (Bytes × Arg)
  put_arg [] opt a = []
  put_arg ((k, b) ∷ args) opt a =
      let rest = put_arg args opt a in if bytes_eq k opt then (k, a) ∷ args else (k, b) ∷ rest

  -- `AddOpt`, which leaves an option that is there.
  unfoldable pub add_opt : List (Bytes × Arg) → Bytes → Arg → List (Bytes × Arg)
  unfolding find_arg
  add_opt args opt a = elim (find_arg args opt) [ none ↦ (opt, a) ∷ args | some b ↦ args ]

  -- `arg_map_[val] = id` of an option.
  unfoldable pub add_id : Bytes → ℤ → Arg → Result Arg
  add_id val id a = elim a.args [
    | string_map_values m l ↦ ok (record a { args = string_map_values ((val, id) ∷ m) l })
    | _ ↦ err foreign
  ]

  unfoldable pub add_string_map_val :
      List (Bytes × Arg) → Bytes → Bytes → ℤ → Result (List (Bytes × Arg))
  unfolding find_arg add_id put_arg
  add_string_map_val args opt val id =
      or_throw (find_arg args opt) >>= λ a. add_id val id a >>= λ b. ok (put_arg args opt b)

  abbrev pub takes_none : Values → Bool
  takes_none none_values = true
  takes_none v = false

  -- `ArgIter` over the words behind the name of the program.
  unfoldable pub arg_iter : List (Bytes × Arg) → List Bytes → Result (List (Bytes × Arg))
  unfolding find_arg put_arg add add_none option_of
  arg_iter args [] = ok args
  arg_iter args (word ∷ []) = or_throw (find_arg args (option_of word)) >>= λ a.
      if takes_none a.args
      then (add_none a >>= λ b. ok (put_arg args (option_of word) b))
      else err foreign
  arg_iter args (word ∷ next ∷ rest) = or_throw (find_arg args (option_of word)) >>= λ a.
      elim (takes_none a.args) [
        | true ↦ add_none a >>= λ b. arg_iter (put_arg args (option_of word) b) (next ∷ rest)
        | false ↦ add a next >>= λ b. arg_iter (put_arg args (option_of word) b) rest
      ]

  -- `OptIsSet`, and the two assertions on it.
  unfoldable pub opt_is_set : List (Bytes × Arg) → Bytes → Bool
  unfolding find_arg
  opt_is_set args opt = elim (find_arg args opt) [ none ↦ false | some a ↦ a.is_set ]

  unfoldable pub assert_opt_is_set : List (Bytes × Arg) → Bytes → Result Bool
  unfolding opt_is_set
  assert_opt_is_set args opt = if opt_is_set args opt then ok true else err foreign

  unfoldable pub assert_opt_is_not_set : List (Bytes × Arg) → Bytes → Result Bool
  unfolding opt_is_set
  assert_opt_is_not_set args opt = if opt_is_set args opt then err foreign else ok true

  -- `ArgMap::GetStringOpt` and so on.
  unfoldable pub get_map_opt {ℓ} :
      {A : Type ℓ} → (Values → Result (List A)) → List (Bytes × Arg) → Bytes → Result A
  unfolding assert_opt_is_set find_arg get_opt
  get_map_opt values args opt =
      assert_opt_is_set args opt >>= λ set. or_throw (find_arg args opt) >>= get_opt values
