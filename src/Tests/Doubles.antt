-- ===== src/Tests/Doubles.antt =====
-- Small implementations of the outside interfaces: a MongoDB collection and a Redis cluster as
-- association lists, and MessagePack as a list of numbers.
pub mod Codec
pub mod Files
pub mod Programs
use symbios.Base.{
  ℕ, ◌≡◌, ◌≢◌, ◌∙◌, refl, sym, ap, Bool, true, false, Option, none, some, List, [], ◌∷◌,
  if◌then◌else◌,
}
use symbios.Base.Text.{Bytes}
use symbios.Collection.{Document, Collection, IsCollection, bytes_eq, bytes_eq_self, bytes_eq-ne}
use symbios.RedisClient.{Redis, IsRedis}

unfoldable pub find_document : List Document → Bytes → List Document
find_document [] k = []
find_document (d ∷ ds) k =
    let rest = find_document ds k in if bytes_eq d.id k then d ∷ rest else rest

unfoldable pub insert_unless : List Document → List Document → Document → Bool × List Document
insert_unless [] s d = (true, d ∷ s)
insert_unless (_ ∷ _) s d = (false, s)

-- `_id` is unique: a second document under it is refused.
abbrev pub list_collection : Collection
list_collection = record {
  State = List Document;
  insert_one = λ s d. insert_unless (find_document s d.id) s d;
  find_by_id = find_document;
}

pub list_collection-IsCollection : IsCollection list_collection
unfolding find_document insert_unless
list_collection-IsCollection = record {
  accepts = λ s d h. rw h;
  finds = λ s d h. rw (h, bytes_eq_self d.id, h);
  keeps = λ s d k ne. kept (find_document s d.id) s d k ne;
}
  where
    kept :
        (there s : List Document) (d : Document) (k : Bytes)
        → k ≢ d.id
        → find_document (insert_unless there s d).1 k ≡ find_document s k
    kept [] s d k ne = rw (bytes_eq-ne d.id k (λ e. ne (sym e)))
    kept (_ ∷ _) s d k ne = refl

unfoldable pub find_value : List (Bytes × Bytes) → Bytes → Option Bytes
find_value [] k = none
find_value ((j, v) ∷ s) k = if bytes_eq j k then some v else find_value s k

unfoldable pub remove_key : List (Bytes × Bytes) → Bytes → List (Bytes × Bytes)
remove_key [] k = []
remove_key ((j, v) ∷ s) k =
    let rest = remove_key s k in if bytes_eq j k then rest else (j, v) ∷ rest

abbrev pub list_redis : Redis
list_redis = record {
  State = List (Bytes × Bytes);
  get = λ s k. some (find_value s k);
  set = λ s k v. some (true, (k, v) ∷ s);
  del = remove_key;
}

pub list_redis-IsRedis : IsRedis list_redis
unfolding find_value
list_redis-IsRedis = record {
  answers = λ s k. (find_value s k, refl);
  after = λ s k v. (k, v) ∷ s;
  accepts = λ s k v. refl;
  returns = λ s k v. rw (bytes_eq_self k);
  keeps = λ s k v j ne. rw (bytes_eq-ne k j (λ e. ne (sym e)));
}
