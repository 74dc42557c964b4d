-- ===== src/Engine/Setup/Opened.antt =====
-- What is open after `init`.
use symbios.Base.{
  ℕ, zero, suc, ◌+◌, ◌≤◌, ◌≡◌, ◌∙◌, refl, ap, inl, inr, Option-cases, true, Option, none, some,
  arith,
}
use symbios.Base.Result.{Result, ok, err, ◌>>=◌}
use symbios.Base.Int.{pos}
use symbios.Base.Text.{Bytes, codes}
use symbios.Collection.{Collection}
use symbios.RedisClient.{Redis}
use symbios.Engine.Replay.{Stream, Globals}
use symbios.Engine.Setup.{
  Outside, selected, open_dest, opened, seek_start, init_pfs, genstring, init_store, init, or_again,
}

module _ (stream : Stream) (redis : Redis) (mongo : Collection) where
  -- The loop over `fopen` finds a file if an attempt among the retries that are left does.
  open_dest-first :
      (opens : ℕ → Option stream.State) (left i k : ℕ) (s : stream.State)
      → k ≤ left
      → opens (i + k) ≡ some s
      → (t : stream.State) × (open_dest stream redis mongo opens left i ≡ some t)
  unfolding open_dest
  open_dest-first opens zero i k s h e = (s, ap opens (omega arith) ∙ e)
  open_dest-first opens (suc left) i zero s h e =
      let here : opens i ≡ some s = ap opens (omega arith) ∙ e in
      (
        s,
        ap (λ o. or_again stream redis mongo o (open_dest stream redis mongo opens left (i + 1)))
            here,
      )
  open_dest-first opens (suc left) i (suc k) s h e =
      let (t, found) =
        open_dest-first opens left (i + 1) k s (omega arith) (ap opens (omega arith) ∙ e) in
      either (opens i) t found
    where
      either :
          (o : Option stream.State) (t : stream.State)
          → open_dest stream redis mongo opens left (i + 1) ≡ some t
          → (u : stream.State) × (or_again stream redis mongo o
                (open_dest stream redis mongo opens left (i + 1))
              ≡ some u)
      either none t found = (t, found)
      either (some u) t found = (u, refl)

  opened-open :
      (o : Option stream.State) (status : ℕ) (fp : Option stream.State)
      → opened stream redis mongo o status ≡ ok fp
      → (s : stream.State) × (fp ≡ some s)
  unfolding opened seek_start
  opened-open none status fp h = cc
  opened-open (some s) status fp h = elim (Option-cases (stream.fseek s (pos 0))) [
    | inl e ↦ absurd (cc (rw e at h))
    | inr (t, e) ↦ (t, cc (rw e at h))
  ]

  -- The four parts of `init`, in turn.
  all_parts :
      (r₁ r₂ : Result (Option stream.State)) (r₃ : Result redis.State) (r₄ : Result mongo.State)
      (buf : Bytes) (g : Globals stream redis mongo)
      → (r₁ >>= λ fp1. r₂ >>= λ fp2. r₃ >>= λ rc. r₄ >>= λ mc. ok (record {
        dest_fp1 = fp1;
        dest_fp2 = fp2;
        cluster = rc;
        collection = mc;
        buf = buf;
        total_size = 0;
      }))
        ≡ ok g
      → (r₁ ≡ ok g.dest_fp1) × (r₂ ≡ ok g.dest_fp2)
  all_parts (err e) r₂ r₃ r₄ buf g h = cc
  all_parts (ok a) (err e) r₃ r₄ buf g h = cc
  all_parts (ok a) (ok b) (err e) r₄ buf g h = cc
  all_parts (ok a) (ok b) (ok c) (err e) buf g h = cc
  all_parts (ok a) (ok b) (ok c) (ok d) buf g h = (ap (λ x. same x 0) h, ap (λ x. same x 1) h)
    where
      same : Result (Globals stream redis mongo) → ℕ → Result (Option stream.State)
      same (ok x) zero = ok x.dest_fp1
      same (ok x) (suc _) = ok x.dest_fp2
      same (err e) _ = err e

  -- If `init` ends well, the destination file of each file system that the target selects is open.
  pub init-dest_fp :
      (target : Bytes) (o : Outside stream redis mongo) (cluster : redis.State)
      (collection : mongo.State) (max : ℕ) (g : Globals stream redis mongo)
      → init stream redis mongo target o cluster collection max ≡ ok g
      → (selected target (codes "PFS1") ≡ true → (s : stream.State) × (g.dest_fp1 ≡ some s))
        × (selected target (codes "PFS2") ≡ true → (s : stream.State) × (g.dest_fp2 ≡ some s))
  unfolding init init_pfs
  init-dest_fp target o cluster collection max g h =
      let (first, second) =
        all_parts (init_pfs stream redis mongo (selected target (codes "PFS1")) o.pfs1_opens 201)
          (init_pfs stream redis mongo (selected target (codes "PFS2")) o.pfs2_opens 202)
          (init_store stream redis mongo (selected target (codes "REDIS")) o.redis_connects cluster
            203)
          (init_store stream redis mongo (selected target (codes "MONGO")) o.mongo_connects
            collection 204)
          (genstring max) g h in
      (
        λ e. opened-open _ 201 g.dest_fp1 (rw e at first),
        λ e. opened-open _ 202 g.dest_fp2 (rw e at second),
      )
