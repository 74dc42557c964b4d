-- ===== src/Base/Result.antt =====
-- How a call ends: a value, an exception with its code (include/symbios/common/error_codes.h), an
-- abort of the program, or a point where the C or C++ standard leaves the behaviour undefined.
use symbios.Base.{ℕ, ◌≡◌, refl}

pub data ErrorCode : Type 0 where
  open_file_failed seek_file_failed read_data_from_file_failed write_data_to_file_failed : ErrorCode
  redis_server_side_failed read_redis_position_or_size_failed read_redis_data_failed : ErrorCode
  write_redis_data_failed read_mongodb_data_failed write_mongodb_data_failed : ErrorCode
  read_mongo_position_or_size_failed mongodb_server_side_failed : ErrorCode
  connect_redis_server_error connect_mongo_server_error create_mongo_client_error : ErrorCode
  connect_mongo_database_error connect_mongo_collection_error : ErrorCode
  file_path_non_existance invalid_storage_index undefined_env_variable : ErrorCode

-- `foreign` is an exception of a library, which no handler of the program's own exceptions catches;
-- `aborted` is `exit` or `MPI_Abort` with a code; the next five are undefined behaviour, and the
-- last says that a loop of the model had too little fuel, which the theorems on it rule out.
pub data Failure : Type 0 where
  thrown : ErrorCode → Failure
  foreign : Failure
  aborted : ℕ → Failure
  null_pointer out_of_bounds uninitialised division_by_zero overflow out_of_fuel : Failure

pub data Result {ℓ} (A : Type ℓ) : Type ℓ where
  ok : A → Result A
  err : Failure → Result A

-- A failure ends the rest of the call.
infixl 5 ◌>>=◌
abbrev pub ◌>>=◌ {κ μ} : {X : Type κ} {Y : Type μ} → Result X → (X → Result Y) → Result Y
err failure >>= next = err failure
ok x >>= next = next x

-- Two calls in turn are equal if what follows the first is equal on each of its values.
pub >>=_ext {κ μ} :
    {X : Type κ} {Y : Type μ} (m : Result X) (f g : X → Result Y)
    → ((x : X) → f x ≡ g x)
    → (m >>= f) ≡ (m >>= g)
>>=_ext (ok x) f g h = h x
>>=_ext (err e) f g h = refl

pub >>=_assoc {κ μ ν} :
    {X : Type κ} {Y : Type μ} {Z : Type ν} (m : Result X) (f : X → Result Y) (g : Y → Result Z)
    → ((m >>= f) >>= g) ≡ (m >>= λ x. f x >>= g)
>>=_assoc (ok x) f g = refl
>>=_assoc (err e) f g = refl

-- A call that ends well has a first part that ends well.
pub >>=_inv {κ μ} :
    {X : Type κ} {Y : Type μ} (first : Result X) (next : X → Result Y) (y : Y)
    → (first >>= next) ≡ ok y
    → (x : X) × (first ≡ ok x) × (next x ≡ ok y)
>>=_inv (err failure) next y ends = cc
>>=_inv (ok x) next y ends = (x, refl, ends)
