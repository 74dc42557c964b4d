-- ===== src/Posix/Handles.antt =====
-- What is found among the handles of a program after one is added or removed.
use symbios.Base.{
  ℕ, ◌≡◌, ◌≢◌, refl, sym, true, Option, none, some, [], ◌∷◌, ==-true, ==-false, arith,
}
use symbios.Posix.{
  PosixStat, Handles, find_handle, erase, assign_by, insert_or_assign, is_file_descriptor_tracked,
  get_stat,
}

pub find-erase : (table : Handles) (fh : ℕ) → find_handle (erase table fh) fh ≡ none
unfolding find_handle erase
find-erase [] fh = refl
find-erase ((h, stat) ∷ table) fh = ground (arith, find-erase table fh)

pub find-erase_ne :
    (table : Handles) (fh other : ℕ)
    → other ≢ fh
    → find_handle (erase table fh) other ≡ find_handle table other
unfolding find_handle erase
find-erase_ne [] fh other ne = refl
find-erase_ne ((h, stat) ∷ table) fh other ne = ground (arith, find-erase_ne table fh other ne)

pub find-assign :
    (table : Handles) (fh : ℕ) (stat : PosixStat)
    → find_handle (insert_or_assign table fh stat).1 fh ≡ some stat
unfolding find_handle insert_or_assign assign_by
find-assign table fh stat = by (find_handle table fh)
  where
    by : (o : Option PosixStat) → find_handle (assign_by o table fh stat).1 fh ≡ some stat
    by none = rw (==-true fh fh refl)
    by (some old) = rw (==-true fh fh refl)

pub find-assign_ne :
    (table : Handles) (fh : ℕ) (stat : PosixStat) (other : ℕ)
    → other ≢ fh
    → find_handle (insert_or_assign table fh stat).1 other ≡ find_handle table other
unfolding find_handle insert_or_assign assign_by
find-assign_ne table fh stat other ne = by (find_handle table fh)
  where
    by :
        (o : Option PosixStat)
        → find_handle (assign_by o table fh stat).1 other ≡ find_handle table other
    by none = rw (==-false fh other (λ e. ne (sym e)))
    by (some old) = rw (==-false fh other (λ e. ne (sym e))) (find-erase_ne table fh other ne)

pub tracked_found :
    (table : Handles) (fh : ℕ) (stat : PosixStat)
    → find_handle table fh ≡ some stat
    → (is_file_descriptor_tracked table fh ≡ true) × (get_stat table fh ≡ (true, stat))
unfolding is_file_descriptor_tracked get_stat
tracked_found table fh stat found = (rw (is_file_descriptor_tracked, found), rw (get_stat, found))
