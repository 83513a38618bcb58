-- ===== src/Integration/Connector/Blocks.antt =====
-- Which block ids the operations of mini_llmcache/integration/vllm_connector.py name.
use mini_llmcache.Base.{
  ℕ, zero, suc, ◌+◌, ◌-◌, ◌*◌, ◌/◌, ◌≤◌, ◌<◌, ◌≡◌, refl, ap, ◌∙◌, List, [], ◌∷◌, arith, take, drop,
  slice, get_elem?,
}
use native.Mathlib.Nat.{mul-div_cancel, div-lt_iff_lt-mul, add-mul-div_right}
use mini_llmcache.Protocol.{LoadStoreOp}

-- Each token of the operation lies in the block that holds it among `ids`: token `x` of the request
-- is in its block number `x / block`.
abbrev pub IsInBlocks : ℕ → List ℕ → LoadStoreOp → Type 0
IsInBlocks block ids op =
    (x : ℕ)
    → op.start ≤ x
    → x < op.end
    → get_elem? op.block_ids ((x - op.start) / block) ≡ get_elem? ids (x / block)

get_elem?-take : (n i : ℕ) (xs : List ℕ) → i < n → get_elem? (take n xs) i ≡ get_elem? xs i
get_elem?-take zero i xs h = absurd (omega arith)
get_elem?-take (suc n) i [] h = refl
get_elem?-take (suc n) zero (x ∷ xs) h = refl
get_elem?-take (suc n) (suc i) (x ∷ xs) h = get_elem?-take n i xs (omega arith)

get_elem?-drop : (n i : ℕ) (xs : List ℕ) → get_elem? (drop n xs) i ≡ get_elem? xs (i + n)
get_elem?-drop zero i xs = ap (get_elem? xs) (omega arith)
get_elem?-drop (suc n) i [] = refl
get_elem?-drop (suc n) i (x ∷ xs) =
    let e : i + suc n ≡ suc (i + n) = omega arith in rw e (get_elem?-drop n i xs)

-- A slice from block `first` to block `last` names the blocks of the tokens between.
pub slice-IsInBlocks :
    (block first last start end : ℕ) (ids : List ℕ)
    → 0 < block
    → start ≡ first * block
    → end ≡ last * block
    → (x : ℕ) → start ≤ x
    → x < end
    → get_elem? (slice (start / block) (end / block) ids) ((x - start) / block)
      ≡ get_elem? ids (x / block)
slice-IsInBlocks block first last start end ids pos at_first at_last x from to =
    let one : start / block ≡ first = rw at_first (mul-div_cancel first pos) in
    let two : end / block ≡ last = rw at_last (mul-div_cancel last pos) in
    let moved : x ≡ x - start + first * block = omega (arith, at_first, from) in
    let whole : x / block ≡ (x - start) / block + first =
      ap (λ (y : ℕ). y / block) moved ∙ add-mul-div_right (x - start) first pos in
    let inside : x / block < last = (div-lt_iff_lt-mul pos).1 (omega (arith, at_last, to)) in
    rw (one, two, whole)
      (get_elem?-take (last - first) ((x - start) / block) (drop first ids) (omega arith)
        ∙ get_elem?-drop first ((x - start) / block) ids)
