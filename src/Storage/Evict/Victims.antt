-- ===== src/Storage/Evict/Victims.antt =====
-- What a round of eviction in mini_llmcache/l1/eviction.py may take away.
use mini_llmcache.Base.{
  ℕ, zero, suc, ◌+◌, ◌*◌, ◌/◌, ◌≡◌, refl, sym, ◌∙◌, max, List, [], ◌∷◌, ◌++◌, Bool, true, false,
  arith, if◌then◌else◌, leb, length, length-append, elem, Distinct, Bool-cases, inl, inr,
}
use mathlib.Core.List.{append-nil, append_assoc}
use mini_llmcache.Protocol.{ChunkKey, key_dec}
use mini_llmcache.L1.Listener.{collect, get_victims}

-- The first `n` eligible keys of an order.
abbrev pub first_eligible : ℕ → (ChunkKey → Bool) → List ChunkKey → List ChunkKey
first_eligible zero eligible order = []
first_eligible (suc n) eligible [] = []
first_eligible (suc n) eligible (k ∷ order) =
    if eligible k
    then k ∷ first_eligible n eligible order
    else first_eligible (suc n) eligible order

-- The loop, which still wants `n` keys.
collect_lem :
    (n target : ℕ) (eligible : ChunkKey → Bool) (order victims : List ChunkKey)
    → length victims + n ≡ target
    → collect target eligible order victims ≡ victims ++ first_eligible n eligible order
unfolding collect
collect_lem zero target eligible [] victims h = sym (append-nil victims)
collect_lem (suc n) target eligible [] victims h = sym (append-nil victims)
collect_lem zero target eligible (k ∷ order) victims h =
    let enough : leb target (length victims) ≡ true = ground (arith, h) in
    rw (enough, collect) (sym (append-nil victims))
collect_lem (suc n) target eligible (k ∷ order) victims h =
    let more : leb target (length victims) ≡ false = ground (arith, h) in
    elim (Bool-cases (eligible k)) [
      | inl takes ↦
          rw (more, takes, collect)
            (collect_lem n target eligible order (victims ++ (k ∷ []))
                (omega (arith, h, length-append victims (k ∷ [])))
              ∙ append_assoc victims (k ∷ []) (first_eligible n eligible order))
      | inr leaves ↦
          rw (more, leaves, collect) (collect_lem (suc n) target eligible order victims h)
    ]

-- `get_victims` gives the first eligible keys of the order, the least recent ones, as many as the
-- ratio asks for and at least one, or all of them if they are fewer.
pub get_victims_lem :
    (num den : ℕ) (eligible : ChunkKey → Bool) (order : List ChunkKey)
    → get_victims num den eligible order
      ≡ first_eligible (max 1 (length order * num / den)) eligible order
unfolding get_victims
get_victims_lem num den eligible order =
    collect_lem (max 1 (length order * num / den)) _ eligible order [] (omega arith)

elem-first_eligible :
    (j : ChunkKey) (n : ℕ) (eligible : ChunkKey → Bool) (order : List ChunkKey)
    → elem key_dec j order ≡ false
    → elem key_dec j (first_eligible n eligible order) ≡ false
elem-first_eligible j zero eligible order h = refl
elem-first_eligible j (suc n) eligible [] h = refl
elem-first_eligible j (suc n) eligible (k ∷ order) h =
    ground
      (arith, elem-first_eligible j n eligible order, elem-first_eligible j (suc n) eligible order)

pub first_eligible-Distinct :
    (n : ℕ) (eligible : ChunkKey → Bool) (order : List ChunkKey)
    → Distinct key_dec order
    → Distinct key_dec (first_eligible n eligible order)
first_eligible-Distinct zero eligible order h = tt
first_eligible-Distinct (suc n) eligible [] h = tt
first_eligible-Distinct (suc n) eligible (k ∷ order) h = ground (
  arith,
  elem-first_eligible k n eligible order,
  first_eligible-Distinct n eligible order h.1,
  first_eligible-Distinct (suc n) eligible order h.1,
)
