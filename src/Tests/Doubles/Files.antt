-- ===== src/Tests/Doubles/Files.antt =====
-- A file system and a MongoDB collection of the storage clients, as association lists.
use symbios.Base.{
  ℕ, ◌+◌, ◌≡◌, ◌≢◌, ◌∙◌, refl, sym, ap, Bool, true, false, Option, none, some, List, [], ◌∷◌, ◌++◌,
  append-nil, if◌then◌else◌, length, replicate, length-replicate, drop-all, arith,
}
use symbios.Base.Text.{Bytes}
use symbios.Base.Memory.{patch}
use symbios.Collection.{bytes_eq, bytes_eq_self, bytes_eq_sound, bytes_eq-ne}
use symbios.FileClient.{FileSystem, IsFileSystem}
use symbios.MongoClient.{MongoStore, IsMongoStore}
use symbios.Tests.Doubles.{find_value, remove_key}

unfoldable pub create_by : Option Bytes → List (Bytes × Bytes) → Bytes → List (Bytes × Bytes)
create_by none s name = (name, []) ∷ s
create_by (some content) s name = s

unfoldable pub content_or_empty : Option Bytes → Bytes
content_or_empty none = []
content_or_empty (some b) = b

abbrev pub list_files : FileSystem
list_files = record {
  State = List (Bytes × Bytes);
  contents = find_value;
  create = λ s name. some (create_by (find_value s name) s name);
  seeks = λ s name position. true;
  write = λ s name position b.
      (some (length b), (name, patch (content_or_empty (find_value s name)) position b) ∷ s);
  remove = remove_key;
  malloc = λ n. replicate n 0;
}

created_empty :
    (o : Option Bytes) (s : List (Bytes × Bytes)) (name : Bytes)
    → o ≡ none
    → find_value (create_by o s name) name ≡ some []
unfolding find_value create_by
created_empty none s name h = rw (bytes_eq_self name)
created_empty (some b) s name h = cc

created_keeps :
    (o : Option Bytes) (s : List (Bytes × Bytes)) (name other : Bytes)
    → other ≢ name
    → find_value (create_by o s name) other ≡ find_value s other
unfolding find_value create_by
created_keeps none s name other ne = rw (bytes_eq-ne name other (λ e. ne (sym e)))
created_keeps (some b) s name other ne = refl

patch-empty : (b : Bytes) → patch [] 0 b ≡ b
patch-empty b = ap (λ s. b ++ s) (drop-all {A = ℕ} (0 + length b) [] (omega arith)) ∙ append-nil b

pub list_files-IsFileSystem : IsFileSystem list_files
unfolding find_value content_or_empty
list_files-IsFileSystem = record {
  created = λ s name. create_by (find_value s name) s name;
  creates = λ s name. (refl, λ h. created_empty (find_value s name) s name h);
  reaches = λ s name position. refl;
  written = λ s name b. (name, patch (content_or_empty (find_value s name)) 0 b) ∷ s;
  writes = λ s name b h. (refl, rw (bytes_eq_self name, h) (ap some (patch-empty b)));
  keeps = λ s name b other ne. (
    created_keeps (find_value s name) s name other ne,
    rw (bytes_eq-ne name other (λ e. ne (sym e))),
  );
  blocks = λ n. length-replicate n 0;
}

abbrev pub list_mongo : MongoStore
list_mongo = record {
  State = List (Bytes × Bytes);
  find_one = λ s k. some (find_value s k);
  delete_many = λ s k. some (remove_key s k);
  insert_one = λ s k v. some (true, (k, v) ∷ s);
  malloc = λ n. replicate n 0;
}

removed_gone : (s : List (Bytes × Bytes)) (k : Bytes) → find_value (remove_key s k) k ≡ none
unfolding find_value remove_key
removed_gone [] k = refl
removed_gone ((j, v) ∷ s) k = ground (arith, removed_gone s k)

removed_keeps :
    (s : List (Bytes × Bytes)) (k j : Bytes)
    → j ≢ k
    → find_value (remove_key s k) j ≡ find_value s j
unfolding find_value remove_key
removed_keeps [] k j ne = refl
removed_keeps ((i, v) ∷ s) k j ne = by (bytes_eq i k) refl (removed_keeps s k j ne)
  where
    by :
        (b : Bool)
        → bytes_eq i k ≡ b
        → find_value (remove_key s k) j ≡ find_value s j
        → find_value (if b then remove_key s k else (i, v) ∷ remove_key s k) j
          ≡ find_value ((i, v) ∷ s) j
    by true e rest = rw (bytes_eq-ne i j (λ p. ne (sym p ∙ bytes_eq_sound i k e))) rest
    by false e rest = rw rest

pub list_mongo-IsMongoStore : IsMongoStore list_mongo
unfolding find_value
list_mongo-IsMongoStore = record {
  blocks = λ n. length-replicate n 0;
  answers = λ s k. (find_value s k, refl);
  inserted = λ s k v. (k, v) ∷ s;
  inserts = λ s k v. (refl, λ h. rw (bytes_eq_self k));
  deleted = remove_key;
  deletes = λ s k. (refl, ap some (removed_gone s k));
  keeps = λ s k v j ne. (rw (bytes_eq-ne k j (λ e. ne (sym e))), ap some (removed_keeps s k j ne));
}
