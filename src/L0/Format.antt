-- ===== src/L0/Format.antt =====
-- mini_llmcache/l0/kv_format.py. A tensor of torch and its `movedim` are parameters; `none` is the
-- exception: a ValueError for a shape that is not known, an IndexError for no tensors.
use mini_llmcache.Base.{
  ℕ, ◌≡◌, ◌≢◌, ◌↔◌, refl, ap, ap₂, map, List, [], ◌∷◌, Option, none, some, Bool, true, ◌&&◌,
  if◌then◌else◌, ◌==◌, arith, get_elem?, length,
}

pub data GpuKvFormat : Type 0 where
  fa_block_first fa_kv_first fa_split mla : GpuKvFormat

-- `num_blocks is None or shape[0] == num_blocks`
unfoldable pub is_block_dim : ℕ → Option ℕ → Bool
is_block_dim n none = true
is_block_dim n (some num_blocks) = n == num_blocks

unfoldable pub detect : List ℕ → Option ℕ → Option GpuKvFormat
unfolding is_block_dim
detect [] num_blocks = none
detect (a ∷ []) num_blocks = none
detect (a ∷ b ∷ []) num_blocks = none
detect (a ∷ b ∷ c ∷ []) num_blocks = if is_block_dim a num_blocks then some mla else none
detect (a ∷ b ∷ c ∷ d ∷ []) num_blocks = some fa_split
detect (a ∷ b ∷ c ∷ d ∷ e ∷ []) num_blocks =
    if (b == 2) && is_block_dim a num_blocks
    then some fa_block_first
    else if a == 2
    then some fa_kv_first
    else none
detect (a ∷ b ∷ c ∷ d ∷ e ∷ f ∷ shape) num_blocks = none

-- Where a layout has the blocks.
abbrev pub block_dim : GpuKvFormat → ℕ
block_dim fa_kv_first = 1
block_dim fa_block_first = 0
block_dim fa_split = 0
block_dim mla = 0

module _ (Tensor : Type 0) (shape : Tensor → List ℕ) (movedim : Tensor → Tensor) where
  unfoldable pub rearrange : GpuKvFormat → List Tensor → List Tensor
  rearrange fa_kv_first tensors = map movedim tensors
  rearrange fa_block_first tensors = tensors
  rearrange fa_split tensors = tensors
  rearrange mla tensors = tensors

  unfoldable pub normalize : List Tensor → Option ℕ → Option (List Tensor)
  unfolding rearrange
  normalize [] num_blocks = none
  normalize (t ∷ tensors) num_blocks = elim (detect (shape t) num_blocks) [
    | none ↦ none
    | some fmt ↦ some (rearrange fmt (t ∷ tensors))
  ]

  -- What `t.movedim(1, 0)` does to the shape.
  abbrev pub Moves : Type 0
  Moves = (t : Tensor) → get_elem? (shape (movedim t)) 0 ≡ get_elem? (shape t) 1

  rearrange_front :
      (fmt : GpuKvFormat) (tensors : List Tensor)
      → Moves
      → map (λ t. get_elem? (shape t) 0) (rearrange fmt tensors)
        ≡ map (λ t. get_elem? (shape t) (block_dim fmt)) tensors
  unfolding rearrange
  rearrange_front fa_kv_first tensors moves = moved tensors
    where
      moved :
          (ts : List Tensor)
          → map (λ t. get_elem? (shape t) 0) (map movedim ts) ≡ map (λ t. get_elem? (shape t) 1) ts
      moved [] = refl
      moved (t ∷ ts) = rw (moves t, moved ts) refl
  rearrange_front fa_block_first tensors moves = refl
  rearrange_front fa_split tensors moves = refl
  rearrange_front mla tensors moves = refl

  -- If the first tensor has a known layout, and `movedim` brings dimension 1 to the front,
  -- `normalize` returns as many tensors, the first dimension of each being the one that has the
  -- blocks in that layout.
  pub normalize_front :
      (t : Tensor) (tensors : List Tensor) (num_blocks : Option ℕ) (fmt : GpuKvFormat)
      → Moves
      → detect (shape t) num_blocks ≡ some fmt
      → (out : List Tensor) × (normalize (t ∷ tensors) num_blocks ≡ some out)
        × (map (λ u. get_elem? (shape u) 0) out
            ≡ map (λ u. get_elem? (shape u) (block_dim fmt)) (t ∷ tensors))
  unfolding normalize
  normalize_front t tensors num_blocks fmt moves known = (
    rearrange fmt (t ∷ tensors),
    rw (known, normalize) refl,
    rearrange_front fmt (t ∷ tensors) moves,
  )

-- The layout that a shape has, when the number of blocks `n` is given and is not 2.
abbrev pub HasLayout : ℕ → GpuKvFormat → List ℕ → Type 0
HasLayout n fa_block_first s = (x : ℕ) × (y : ℕ) × (z : ℕ) × (s ≡ n ∷ 2 ∷ x ∷ y ∷ z ∷ [])
HasLayout n fa_kv_first s = (b : ℕ) × (x : ℕ) × (y : ℕ) × (z : ℕ) × (s ≡ 2 ∷ b ∷ x ∷ y ∷ z ∷ [])
HasLayout n fa_split s = length s ≡ 4
HasLayout n mla s = (x : ℕ) × (y : ℕ) × (s ≡ n ∷ x ∷ y ∷ [])

kv_or_block :
    (n a b x y z : ℕ) (fmt : GpuKvFormat)
    → detect (a ∷ b ∷ x ∷ y ∷ z ∷ []) (some n) ≡ some fmt
    → HasLayout n fmt (a ∷ b ∷ x ∷ y ∷ z ∷ [])
unfolding detect is_block_dim
kv_or_block n a b x y z fa_block_first h =
    (x, y, z, ap₂ (λ u v. u ∷ v ∷ x ∷ y ∷ z ∷ []) (ground arith) (ground arith))
kv_or_block n a b x y z fa_kv_first h =
    (b, x, y, z, ap (λ u. u ∷ b ∷ x ∷ y ∷ z ∷ []) (ground arith))
kv_or_block n a b x y z fa_split h = absurd (ground arith)
kv_or_block n a b x y z mla h = absurd (ground arith)

detect_sound :
    (n : ℕ) (s : List ℕ) (fmt : GpuKvFormat) → detect s (some n) ≡ some fmt → HasLayout n fmt s
unfolding detect is_block_dim
detect_sound n [] fmt h = absurd (cc)
detect_sound n (a ∷ []) fmt h = absurd (cc)
detect_sound n (a ∷ b ∷ []) fmt h = absurd (cc)
detect_sound n (a ∷ b ∷ c ∷ []) fmt h = three fmt h
  where
    three :
        (f : GpuKvFormat)
        → detect (a ∷ b ∷ c ∷ []) (some n) ≡ some f
        → HasLayout n f (a ∷ b ∷ c ∷ [])
    three fa_block_first h = absurd (ground arith)
    three fa_kv_first h = absurd (ground arith)
    three fa_split h = absurd (ground arith)
    three mla h = (b, c, ap (λ u. u ∷ b ∷ c ∷ []) (ground arith))
detect_sound n (a ∷ b ∷ c ∷ d ∷ []) fmt h = four fmt h
  where
    four : (f : GpuKvFormat) → some fa_split ≡ some f → HasLayout n f (a ∷ b ∷ c ∷ d ∷ [])
    four fa_block_first h = absurd (cc)
    four fa_kv_first h = absurd (cc)
    four fa_split h = refl
    four mla h = absurd (cc)
detect_sound n (a ∷ b ∷ c ∷ d ∷ e ∷ []) fmt h = kv_or_block n a b c d e fmt h
detect_sound n (a ∷ b ∷ c ∷ d ∷ e ∷ f ∷ s) fmt h = absurd (cc)

detect_complete :
    (n : ℕ) (s : List ℕ) (fmt : GpuKvFormat)
    → n ≢ 2
    → HasLayout n fmt s
    → detect s (some n) ≡ some fmt
unfolding detect is_block_dim
detect_complete n s fa_block_first ne (x, y, z, e) = rw e (ground arith)
detect_complete n s fa_kv_first ne (b, x, y, z, e) = rw e (ground arith)
detect_complete n s mla ne (x, y, e) = rw e (ground arith)
detect_complete n s fa_split ne h = split s h
  where
    split : (s : List ℕ) → length s ≡ 4 → detect s (some n) ≡ some fa_split
    split [] h = absurd (omega arith)
    split (a ∷ []) h = absurd (omega arith)
    split (a ∷ b ∷ []) h = absurd (omega arith)
    split (a ∷ b ∷ c ∷ []) h = absurd (omega arith)
    split (a ∷ b ∷ c ∷ d ∷ []) h = refl
    split (a ∷ b ∷ c ∷ d ∷ e ∷ s) h = absurd (omega arith)

-- With a known number of blocks that is not 2, `detect` finds a layout exactly where the shape has
-- it, and refuses every shape that has none.
pub detect_exact :
    (n : ℕ) (s : List ℕ) (fmt : GpuKvFormat)
    → n ≢ 2
    → (detect s (some n) ≡ some fmt) ↔ HasLayout n fmt s
detect_exact n s fmt ne = (detect_sound n s fmt, detect_complete n s fmt ne)
