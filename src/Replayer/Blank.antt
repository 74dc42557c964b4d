-- ===== src/Replayer/Blank.antt =====
-- A short line in a trace: `replay_trace` ends there, and the other two calls fail.
use symbios.Base.{
  ℕ, ◌<◌, ◌≡◌, ◌∙◌, refl, sym, ap, lt→ltb, List, [], ◌∷◌, ◌++◌, ltb, arith, length, if◌then◌else◌,
}
use symbios.Base.Int.{ℤ}
use symbios.Base.Result.{Result, ok, err, null_pointer, ◌>>=◌, >>=_ext, >>=_assoc}
use symbios.Base.Text.{Bytes, strtok}
use symbios.Base.Memory.{c_string}
use symbios.Objects.{Io}
use symbios.Client.{Rpc}
use symbios.ShadowLink.Serde.{atoi_token}
use symbios.Iris.Handler.{LibHandler}
use symbios.Replayer.{CLibrary, Replay, split_line, operation_token, replay_line, replay_lines}
use symbios.Replayer.Files.{prepare_line, prepare_lines, clean_line, clean_lines}

-- Only a newline.
abbrev blank : Bytes
blank = b'\n' ∷ []

split_line-blank : split_line blank ≡ err null_pointer
unfolding split_line operation_token strtok c_string atoi_token
split_line-blank = refl

module _ {ℓ} {Client : Type ℓ} (io : Io) (get_io_client : ℕ → Result Client) (rpc : Rpc)
    (num_servers : ℕ) (c : CLibrary) (h : LibHandler) where
  replay_lines-blank :
      (filename : Bytes) (rank : ℤ) (front : List Bytes) (line : Bytes) (rest : List Bytes)
      (r : Replay io get_io_client rpc num_servers c)
      → length line < 4
      → replay_lines io get_io_client rpc num_servers c h filename rank (front ++ (line ∷ rest)) r
        ≡ replay_lines io get_io_client rpc num_servers c h filename rank front r
  unfolding replay_lines
  replay_lines-blank filename rank [] line rest r short = rw (lt→ltb (length line) 4 short) refl
  replay_lines-blank filename rank (l ∷ front) line rest r short =
      ap (λ x. if ltb (length l) 4 then ok r else x)
        (>>=_ext (split_line l) _ _ (λ v.
          >>=_ext (replay_line io get_io_client rpc num_servers c h filename rank v r) _ _
            (λ r'. replay_lines-blank filename rank front line rest r' short)))

  prepare_lines-blank :
      (front rest : List Bytes) (max_offset : ℤ) (r : Replay io get_io_client rpc num_servers c)
      → prepare_lines io get_io_client rpc num_servers c h (front ++ (blank ∷ rest)) max_offset r
        ≡ (prepare_lines io get_io_client rpc num_servers c h front max_offset r >>= λ p.
            err null_pointer)
  unfolding prepare_lines
  prepare_lines-blank [] rest max_offset r = rw split_line-blank refl
  prepare_lines-blank (l ∷ front) rest max_offset r =
      >>=_ext (split_line l) _ _ (λ v.
        >>=_ext (prepare_line io get_io_client rpc num_servers c h v max_offset r) _ _
          (λ p. prepare_lines-blank front rest p.0 p.1)
        ∙ sym (>>=_assoc (prepare_line io get_io_client rpc num_servers c h v max_offset r) _ _))
      ∙ sym (>>=_assoc (split_line l) _ _)

  clean_lines-blank :
      (front rest : List Bytes) (r : Replay io get_io_client rpc num_servers c)
      → clean_lines io get_io_client rpc num_servers c h (front ++ (blank ∷ rest)) r
        ≡ (clean_lines io get_io_client rpc num_servers c h front r >>= λ p. err null_pointer)
  unfolding clean_lines
  clean_lines-blank [] rest r = rw split_line-blank refl
  clean_lines-blank (l ∷ front) rest r =
      >>=_ext (split_line l) _ _ (λ v.
        >>=_ext (clean_line io get_io_client rpc num_servers c h v r) _ _
          (λ p. clean_lines-blank front rest p)
        ∙ sym (>>=_assoc (clean_line io get_io_client rpc num_servers c h v r) _ _))
      ∙ sym (>>=_assoc (split_line l) _ _)

  -- At a blank line the replay of a trace ends as if the trace ended there, where the preparing and
  -- the cleaning of the files follow a NULL pointer, once the lines in front of it have been done.
  pub blank_line :
      (filename : Bytes) (rank : ℤ) (front rest : List Bytes) (max_offset : ℤ)
      (r : Replay io get_io_client rpc num_servers c)
      → (replay_lines io get_io_client rpc num_servers c h filename rank (front ++ (blank ∷ rest)) r
          ≡ replay_lines io get_io_client rpc num_servers c h filename rank front r)
        × (prepare_lines io get_io_client rpc num_servers c h (front ++ (blank ∷ rest)) max_offset r
            ≡ (prepare_lines io get_io_client rpc num_servers c h front max_offset r >>= λ p.
                err null_pointer))
        × (clean_lines io get_io_client rpc num_servers c h (front ++ (blank ∷ rest)) r
            ≡ (clean_lines io get_io_client rpc num_servers c h front r >>= λ p. err null_pointer))
  blank_line filename rank front rest max_offset r = (
    replay_lines-blank filename rank front blank rest r (omega arith),
    prepare_lines-blank front rest max_offset r,
    clean_lines-blank front rest r,
  )
