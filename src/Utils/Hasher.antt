-- ===== src/Utils/Hasher.antt =====
-- mini_llmcache/utils/hasher.py: prefix-chained hashing of token chunks. The digest function of the
-- package blake3 is a parameter. `none` is an exception: `struct.pack` refuses a token that does
-- not fit 32 bits, and `%` a chunk size of 0.
pub mod Prefix
pub mod Chain
use mathlib.Core.Path.{◌≡◌, refl}
use mini_llmcache.Base.{
  ℕ, zero, suc, ◌+◌, ◌-◌, ◌*◌, ◌/◌, ◌%◌, ◌^◌, List, [], ◌∷◌, ◌++◌, Option, none, some, ltb, ◌==◌,
  length, slice, if◌then◌else◌,
}
use mini_llmcache.Protocol.{Bytes}

infixl 5 ◌>>=◌
abbrev pub ◌>>=◌ : {A B : Type 0} → Option A → (A → Option B) → Option B
◌>>=◌ none f = none
◌>>=◌ (some a) f = f a

-- One value of the format `>I`: four bytes, the highest first.
unfoldable pub be_bytes : ℕ → Bytes
be_bytes t = t / 2 ^ 24 % 256 ∷ t / 2 ^ 16 % 256 ∷ t / 2 ^ 8 % 256 ∷ t % 256 ∷ []

-- `struct.pack(f">{len(tokens)}I", *tokens)`
unfoldable pub pack : List ℕ → Option Bytes
pack [] = some []
pack (t ∷ tokens) = do
  rest ← pack tokens
  if ltb t (2 ^ 32) then some (be_bytes t ++ rest) else none

module _ (blake3 : Bytes → Bytes) where
  -- `update` after the constructor hashes the two byte strings as one.
  unfoldable pub hash_one : Bytes → List ℕ → Option Bytes
  hash_one prefix_hash tokens = do packed ← pack tokens; some (blake3 (prefix_hash ++ packed))

  -- `hash_one((0).to_bytes(8, ...), (0,))`
  unfoldable pub none_hash : Bytes
  none_hash = blake3 ((0 ∷ 0 ∷ 0 ∷ 0 ∷ 0 ∷ 0 ∷ 0 ∷ 0 ∷ []) ++ (0 ∷ 0 ∷ 0 ∷ 0 ∷ []))

  -- The loop of `chunk_hashes` from index `i` on, with `rounds` rounds left.
  unfoldable pub hash_loop : List ℕ → ℕ → ℕ → ℕ → Bytes → Option (List Bytes)
  hash_loop token_ids chunk_size zero i prefix_hash = some []
  hash_loop token_ids chunk_size (suc rounds) i prefix_hash = do
    h ← hash_one prefix_hash (slice i (i + chunk_size) token_ids)
    hashes ← hash_loop token_ids chunk_size rounds (i + chunk_size) h
    some (h ∷ hashes)

  -- `range(0, stop, chunk_size)` has `stop / chunk_size` rounds here, as `stop` is a multiple.
  unfoldable pub chunk_hashes : List ℕ → ℕ → Option (List Bytes)
  unfolding hash_loop
  chunk_hashes token_ids chunk_size =
      if chunk_size == 0
      then none
      else hash_loop token_ids chunk_size
          ((length token_ids - length token_ids % chunk_size) / chunk_size) 0 none_hash

  none_hash_lem : hash_one (0 ∷ 0 ∷ 0 ∷ 0 ∷ 0 ∷ 0 ∷ 0 ∷ 0 ∷ []) (0 ∷ []) ≡ some none_hash
  unfolding hash_one none_hash pack be_bytes
  none_hash_lem = refl
