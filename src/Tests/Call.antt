-- ===== src/Tests/Call.antt =====
-- Calls on the small cache, and from a new manager.
use mini_llmcache.Base.{◌≡◌, [], ◌∷◌, false, none, arith}
use mini_llmcache.L1.Memory
use mini_llmcache.L1.Manager.{L1Manager, init}
use mini_llmcache.L1.Manager.Valid.{IsValid}
use mini_llmcache.L1.Manager.Call.{finishes_write, reserves_write, reads, call}
use mini_llmcache.L1.Manager.Call.Reach.{Reach, Reach-IsValid}
use mini_llmcache.L1.Manager.Call.Spec.{Spec, IsLegal}
use mini_llmcache.L1.Manager.Call.Exclusive.{IsExclusive}
use mini_llmcache.L1.Manager.Call.View.{view}
use mini_llmcache.L1.Manager.Call.Refines.{LegalReach, call-Refines, LegalReach-IsExclusive}
use mini_llmcache.L1.Manager.Call.Refines
use mini_llmcache.Tests.Data.{key_a, key_b, cache, cache-IsValid, one-Distinct}

abbrev new : L1Manager
new = init (Memory.init 12 (λ x. x))

-- A reservation, and a read of another key, which raises.
Reach-IsValid_example :
    IsValid (call (reads (key_b ∷ [])) (call (reserves_write (key_a ∷ []) 4 false) new).1).1
Reach-IsValid_example = Reach-IsValid (
    Reach.later (Reach.later Reach.start (reserves_write (key_a ∷ []) 4 false) one-Distinct)
      (reads (key_b ∷ [])) tt)

a_is_written : IsLegal (finishes_write (key_a ∷ [])) (view cache)
a_is_written = (one-Distinct, (ground arith, tt))

call-Refines_example :
    ((call (finishes_write (key_a ∷ [])) cache).0 ≡ none)
    × IsValid (call (finishes_write (key_a ∷ [])) cache).1
    × Spec
        (finishes_write (key_a ∷ []))
        (view cache)
        (view (call (finishes_write (key_a ∷ [])) cache).1)
call-Refines_example = call-Refines (finishes_write (key_a ∷ [])) cache cache-IsValid a_is_written

LegalReach-IsExclusive_example :
    IsExclusive (view (call (reserves_write (key_a ∷ []) 4 false) new).1)
LegalReach-IsExclusive_example =
    LegalReach-IsExclusive
      (Refines.later Refines.start (reserves_write (key_a ∷ []) 4 false) one-Distinct)
