-- ===== src/Orchestrator/Buffers.antt =====
-- The links that `MetadataOrchestrator::Store` makes for a new object have no buffers.
use symbios.Base.{ℕ, ◌≡◌, refl, some, none, List, [], ◌∷◌, ◌++◌, Option}
use symbios.Base.Int.{ℤ}
use symbios.Objects.{Data, DataDistribution}
use symbios.Orchestrator.{store_new, add_unless, insert_link}
use symbios.Orchestrator.Contract.{NoBuffers}

NoBuffers-append :
    (links : List (ℤ × Data)) (k : ℤ) (d : Data)
    → NoBuffers links
    → d.buffer ≡ none
    → NoBuffers (links ++ (k, d) ∷ [])
NoBuffers-append [] k d h e = (e, tt)
NoBuffers-append ((j, c) ∷ links) k d h e = (h.0, NoBuffers-append links k d h.1 e)

add_unless-NoBuffers :
    (o : Option Data) (k : ℤ) (d : Data) (links : List (ℤ × Data))
    → NoBuffers links
    → d.buffer ≡ none
    → NoBuffers (add_unless o k d links)
unfolding add_unless
add_unless-NoBuffers (some _) k d links h e = h
add_unless-NoBuffers none k d links h e = NoBuffers-append links k d h e

pub store_new-NoBuffers :
    (max : ℕ) (ds : List DataDistribution) (links : List (ℤ × Data))
    → NoBuffers links
    → NoBuffers (store_new max ds links).1
unfolding store_new insert_link
store_new-NoBuffers max [] links h = h
store_new-NoBuffers max (d ∷ ds) links h =
    store_new-NoBuffers max ds _ (add_unless-NoBuffers _ _ _ links h refl)
