-- ===== src/Base/Text/Buffer.antt =====
-- A chain of `strcat` into one buffer is one `strcat` of everything.
use symbios.Base.{ℕ, ◌≡◌, [], ◌++◌, append_assoc, arith, ltb, if◌then◌else◌, length, length-append}
use symbios.Base.Result.{ok, err, out_of_bounds, ◌>>=◌}
use symbios.Base.Text.Defs.{Bytes, strcat}

module _ (cap : ℕ) where
  pub strcat-strcat :
      (s t u : Bytes) → (strcat cap s t >>= λ x. strcat cap x u) ≡ strcat cap s (t ++ u)
  unfolding strcat
  strcat-strcat s t u = ground (arith, append_assoc s t u, length-append s t, length-append t u)

  pub strcat-nil :
      (t : Bytes) → strcat cap [] t ≡ (if ltb (length t) cap then ok t else err out_of_bounds)
  unfolding strcat
  strcat-nil t = ground arith
