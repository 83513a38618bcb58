-- ===== src/Base/Dict.antt =====
-- A Python dict in insertion order: an association list whose keys are distinct.
use mathlib.Core.Path.{◌≡◌, refl}
use mathlib.Core.Logic.{◌≢◌, ite}
use mathlib.Core.Bool.{Bool, true, false}
use mathlib.Core.Option.{Option, none, some}
use mathlib.Core.List.{List, [], ◌∷◌}
use native.Mathlib.Omega.{arith}
use mini_llmcache.Base.Tests.{is_some}
use mini_llmcache.Base.Lists.{elem, Distinct}

abbrev pub Dict : Type 0 → Type 0 → Type 0
Dict K V = List (K × V)

abbrev pub keys : {K V : Type 0} → Dict K V → List K
keys [] = []
keys (e ∷ d) = e.0 ∷ keys d

module _ {K V : Type 0} (dec : Discrete K) where
  -- `d.get(k)`
  abbrev pub lookup : K → Dict K V → Option V
  lookup k [] = none
  lookup k (e ∷ d) = ite (dec k e.0) (some e.1) (lookup k d)

  -- `k in d`
  abbrev pub contains : K → Dict K V → Bool
  contains k d = is_some (lookup k d)

  -- `d[k] = v`
  abbrev pub insert : K → V → Dict K V → Dict K V
  insert k v [] = (k, v) ∷ []
  insert k v (e ∷ d) = ite (dec k e.0) ((k, v) ∷ d) (e ∷ insert k v d)

  -- `d.pop(k, None)`, and `del d[k]` of a key that is present
  abbrev pub erase : K → Dict K V → Dict K V
  erase k [] = []
  erase k (e ∷ d) = ite (dec k e.0) d (e ∷ erase k d)

  -- The representation: no key stands twice.
  abbrev pub IsDict : Dict K V → Type 0
  IsDict d = Distinct dec (keys d)

  pub lookup-insert :
      (j k : K) (v : V) (d : Dict K V)
      → lookup j (insert k v d) ≡ ite (dec j k) (some v) (lookup j d)
  lookup-insert j k v [] = refl
  lookup-insert j k v (e ∷ d) = ground (arith, lookup-insert j k v d)

  pub lookup-erase_ne : (j k : K) (d : Dict K V) → j ≢ k → lookup j (erase k d) ≡ lookup j d
  lookup-erase_ne j k [] h = refl
  lookup-erase_ne j k (e ∷ d) h = ground (arith, lookup-erase_ne j k d h)

  pub contains-elem : (k : K) (d : Dict K V) → contains k d ≡ elem dec k (keys d)
  contains-elem k [] = refl
  contains-elem k (e ∷ d) = ground (arith, contains-elem k d)

  pub lookup-erase_self : (k : K) (d : Dict K V) → IsDict d → lookup k (erase k d) ≡ none
  lookup-erase_self k [] h = refl
  lookup-erase_self k (e ∷ d) h = ground (arith, contains-elem k d, lookup-erase_self k d h.1)

  pub elem-insert :
      (j k : K) (v : V) (d : Dict K V)
      → elem dec j (keys (insert k v d)) ≡ ite (dec j k) true (elem dec j (keys d))
  elem-insert j k v [] = refl
  elem-insert j k v (e ∷ d) = ground (arith, elem-insert j k v d)

  pub elem-erase :
      (j k : K) (d : Dict K V) → elem dec j (keys d) ≡ false → elem dec j (keys (erase k d)) ≡ false
  elem-erase j k [] h = refl
  elem-erase j k (e ∷ d) h = ground (arith, elem-erase j k d)

  pub insert-IsDict : (k : K) (v : V) (d : Dict K V) → IsDict d → IsDict (insert k v d)
  insert-IsDict k v [] h = (refl, tt)
  insert-IsDict k v (e ∷ d) h = ground (arith, elem-insert e.0 k v d, insert-IsDict k v d h.1)

  pub erase-IsDict : (k : K) (d : Dict K V) → IsDict d → IsDict (erase k d)
  erase-IsDict k [] h = tt
  erase-IsDict k (e ∷ d) h = ground (arith, elem-erase e.0 k d, erase-IsDict k d h.1)
