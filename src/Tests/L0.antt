-- ===== src/Tests/L0.antt =====
-- Shapes and small tensors: a tensor is its shape, a layer gives a fixed byte.
use mini_llmcache.Base.{
  Distinct, elem, ite, ℕ_discrete, ap₂, ◌∙◌, false, map, ℕ, ◌*◌, ◌≡◌, ◌≢◌, ◌↔◌, refl, List, [], ◌∷◌,
  some, arith, All, get_elem?, length, ok,
}
use mini_llmcache.Protocol.{Bytes}
use mini_llmcache.L0.Format.{
  detect, HasLayout, detect_exact, fa_kv_first, normalize, normalize_front, block_dim,
}
use mini_llmcache.L0.Transfer.{KvTransfer, to_host, from_host, gather, chunk_nbytes, to_host_sized}
use mini_llmcache.L0.Transfer.Restores.{AreApart}
use mini_llmcache.L0.Transfer.RoundTrip.{to_host-from_host}

not_two : ◌≢◌ {A = ℕ} 10 2
not_two h = omega arith

detect_exact_example :
    (detect (2 ∷ 12 ∷ 16 ∷ 8 ∷ 4 ∷ []) (some 10) ≡ some fa_kv_first)
    ↔ HasLayout 10 fa_kv_first (2 ∷ 12 ∷ 16 ∷ 8 ∷ 4 ∷ [])
detect_exact_example = detect_exact 10 (2 ∷ 12 ∷ 16 ∷ 8 ∷ 4 ∷ []) fa_kv_first not_two

-- `movedim(1, 0)` on a shape.
abbrev swap : List ℕ → List ℕ
swap [] = []
swap (a ∷ []) = []
swap (a ∷ b ∷ s) = b ∷ a ∷ s

swap_moves : (s : List ℕ) → get_elem? (swap s) 0 ≡ get_elem? s 1
swap_moves [] = refl
swap_moves (a ∷ []) = refl
swap_moves (a ∷ b ∷ s) = refl

kv_first : detect (2 ∷ 12 ∷ 16 ∷ 8 ∷ 4 ∷ []) (some 10) ≡ some fa_kv_first
unfolding detect
kv_first = refl

normalize_front_example :
    (out : List (List ℕ)) × (normalize
        (List ℕ)
        (λ s. s)
        swap
        ((2 ∷ 12 ∷ 16 ∷ 8 ∷ 4 ∷ []) ∷ [])
        (some 10)
      ≡ some out)
    × (map (λ u. get_elem? u 0) out
        ≡ map (λ u. get_elem? u (block_dim fa_kv_first)) ((2 ∷ 12 ∷ 16 ∷ 8 ∷ 4 ∷ []) ∷ []))
normalize_front_example =
    normalize_front (List ℕ) (λ s. s) swap (2 ∷ 12 ∷ 16 ∷ 8 ∷ 4 ∷ []) [] (some 10) fa_kv_first
      swap_moves kv_first

-- A layer is the byte that its blocks are filled with; a block has one byte.
abbrev bytes_of : ℕ → List ℕ → Bytes
bytes_of kv [] = []
bytes_of kv (id ∷ ids) = kv ∷ bytes_of kv ids

abbrev fill : List ℕ → Bytes → ℕ → ℕ
fill ids [] kv = kv
fill ids (b ∷ bytes) kv = b

abbrev engine : KvTransfer ℕ bytes_of fill
engine = record { kv_caches = 3 ∷ 4 ∷ []; blocks_per_chunk = 2; block_nbytes = 1 }

length-bytes_of : (kv : ℕ) (ids : List ℕ) → length (bytes_of kv ids) ≡ length ids * 1
length-bytes_of kv [] = refl
length-bytes_of kv (id ∷ ids) = omega (arith, length-bytes_of kv ids)

to_host_sized_example :
    (chunks : List Bytes) × (to_host ℕ bytes_of fill (5 ∷ 6 ∷ 7 ∷ 8 ∷ []) engine ≡ ok chunks)
    × (length chunks ≡ 2)
    × All (λ c. length c ≡ chunk_nbytes ℕ bytes_of fill engine) chunks
to_host_sized_example =
    to_host_sized ℕ bytes_of fill engine length-bytes_of (5 ∷ 6 ∷ 7 ∷ 8 ∷ []) (omega arith) refl

-- A layer whose blocks have one byte each.
abbrev Blocks : Type 0
Blocks = ℕ → ℕ

abbrev selected : Blocks → List ℕ → Bytes
selected kv ids = map kv ids

abbrev copied : List ℕ → Bytes → Blocks → Blocks
copied [] bs kv = kv
copied (id ∷ ids) [] kv = kv
copied (id ∷ ids) (b ∷ bs) kv = λ j. ite (ℕ_discrete j id) b (copied ids bs kv j)

unread :
    (id b : ℕ) (kv : Blocks) (js : List ℕ)
    → elem ℕ_discrete id js ≡ false
    → map (λ j. ite (ℕ_discrete j id) b (kv j)) js ≡ map kv js
unread id b kv [] h = refl
unread id b kv (j ∷ js) h =
    ap₂ (λ (x : ℕ) (xs : List ℕ). x ∷ xs) (ground (arith, h))
      (unread id b kv js (ground (arith, h)))

selected-copied :
    (ids : List ℕ) (bs : Bytes) (kv : Blocks)
    → Distinct ℕ_discrete ids
    → length bs ≡ length ids * 1
    → selected (copied ids bs kv) ids ≡ bs
selected-copied [] [] kv distinct h = refl
selected-copied [] (b ∷ bs) kv distinct h = absurd (omega (arith, h))
selected-copied (id ∷ ids) [] kv distinct h = absurd (omega (arith, h))
selected-copied (id ∷ ids) (b ∷ bs) kv distinct h =
    ap₂ (λ (x : ℕ) (xs : List ℕ). x ∷ xs) (ground arith)
      (unread id b (copied ids bs kv) ids distinct.0
        ∙ selected-copied ids bs kv distinct.1 (omega (arith, h)))

selected-copied_apart :
    (ids js : List ℕ) (bs : Bytes) (kv : Blocks)
    → AreApart ids js
    → selected (copied ids bs kv) js ≡ selected kv js
selected-copied_apart [] js bs kv apart = refl
selected-copied_apart (id ∷ ids) js [] kv apart = refl
selected-copied_apart (id ∷ ids) js (b ∷ bs) kv apart =
    unread id b (copied ids bs kv) js (apart id (ground arith))
    ∙ selected-copied_apart ids js bs kv (λ k at. apart k (ground (arith, at)))

-- Two layers, and chunks of two blocks.
abbrev two_layers : KvTransfer Blocks selected copied
two_layers = record { kv_caches = (λ j. j) ∷ (λ j. 0) ∷ []; blocks_per_chunk = 2; block_nbytes = 1 }

blocks-Distinct : Distinct ℕ_discrete (7 ∷ 5 ∷ [])
blocks-Distinct = ground arith

to_host-from_host_example :
    (kvs : List Blocks) × (from_host Blocks selected copied
        ((1 ∷ 2 ∷ 3 ∷ 4 ∷ []) ∷ [])
        (7 ∷ 5 ∷ [])
        0
        two_layers
      ≡ (ok tt, record two_layers { kv_caches = kvs }))
    × (to_host Blocks selected copied (7 ∷ 5 ∷ []) (record two_layers { kv_caches = kvs })
        ≡ ok ((1 ∷ 2 ∷ 3 ∷ 4 ∷ []) ∷ []))
    × ((js : List ℕ)
        → AreApart (7 ∷ 5 ∷ []) js
        → gather Blocks selected copied js kvs
          ≡ gather Blocks selected copied js two_layers.kv_caches)
unfolding chunk_nbytes
to_host-from_host_example =
    to_host-from_host Blocks selected copied 1 selected-copied selected-copied_apart
      ((1 ∷ 2 ∷ 3 ∷ 4 ∷ []) ∷ []) (7 ∷ 5 ∷ []) two_layers (omega arith) refl blocks-Distinct
      (refl, tt) refl
