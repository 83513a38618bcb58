-- ===== src/Tests/L2.antt =====
-- Two chunks stored in an empty folder.
use mini_llmcache.Base.{◌≡◌, [], ◌∷◌, arith}
use mini_llmcache.L2.{Adapter, fs, lookup, store}
use mini_llmcache.L2.Found.{lookup-store}
use mini_llmcache.Tests.Data.{key_a, key_b, obj_a, obj_b, pool}

abbrev folder : Adapter
folder = fs (record { files = []; tmp = [] })

lookup-store_example :
    lookup (key_a ∷ key_b ∷ []) (store (key_a ∷ key_b ∷ []) (obj_a ∷ obj_b ∷ []) pool folder) ≡ 2
lookup-store_example =
    lookup-store (key_a ∷ key_b ∷ []) (obj_a ∷ obj_b ∷ []) pool folder (omega arith)
