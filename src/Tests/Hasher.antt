-- ===== src/Tests/Hasher.antt =====
-- The hash chain of mini_llmcache/utils/hasher.py, with a digest that keeps the last 32 bytes.
use mini_llmcache.Base.{
  ℕ, ◌≡◌, refl, List, [], ◌∷◌, ◌++◌, some, arith, length, drop, take, ◌⊎◌, length-drop,
  length-append, All,
}
use mini_llmcache.Protocol.{Bytes}
use mini_llmcache.Utils.Hasher.{chunk_hashes, hash_loop, hash_one, none_hash, pack, be_bytes}
use mini_llmcache.Utils.Hasher.Prefix.{IsToken, chunk_hashes_total, chunk_hashes_shared}
use mini_llmcache.Utils.Hasher.Chain.{Collision, chunk_hashes_identify}

abbrev zeros : Bytes
zeros =
    0 ∷ 0 ∷ 0 ∷ 0 ∷ 0 ∷ 0 ∷ 0 ∷ 0 ∷ 0 ∷ 0 ∷ 0 ∷ 0 ∷ 0 ∷ 0 ∷ 0 ∷ 0 ∷ 0 ∷ 0 ∷ 0 ∷ 0 ∷ 0 ∷ 0 ∷ 0 ∷ 0
    ∷ 0 ∷ 0 ∷ 0 ∷ 0 ∷ 0 ∷ 0 ∷ 0 ∷ 0 ∷ []

abbrev digest : Bytes → Bytes
digest bs = drop (length bs) (zeros ++ bs)

length-digest : (bs : Bytes) → length (digest bs) ≡ 32
length-digest bs = omega (arith, length-drop (length bs) (zeros ++ bs), length-append zeros bs)

abbrev first_hash : Bytes
first_hash = digest (none_hash digest ++ be_bytes 5)

one_chunk : chunk_hashes digest (5 ∷ []) 1 ≡ some (first_hash ∷ [])
unfolding chunk_hashes hash_loop hash_one pack be_bytes none_hash
one_chunk = refl

two_chunks :
    chunk_hashes digest (5 ∷ 6 ∷ []) 1 ≡ some (first_hash ∷ digest (first_hash ++ be_bytes 6) ∷ [])
unfolding chunk_hashes hash_loop hash_one pack be_bytes none_hash
two_chunks = refl

are_tokens : All IsToken (5 ∷ 6 ∷ [])
are_tokens = (omega arith, (omega arith, tt))

chunk_hashes_total_example :
    (hs : List Bytes) × (chunk_hashes digest (5 ∷ 6 ∷ []) 1 ≡ some hs) × (length hs ≡ 2)
chunk_hashes_total_example = chunk_hashes_total digest (5 ∷ 6 ∷ []) 1 (omega arith) are_tokens

chunk_hashes_shared_example :
    take 1 (first_hash ∷ []) ≡ take 1 (first_hash ∷ digest (first_hash ++ be_bytes 6) ∷ [])
chunk_hashes_shared_example =
    chunk_hashes_shared digest (5 ∷ []) (5 ∷ 6 ∷ []) 1 1 (omega arith) one_chunk two_chunks
      (omega arith) (omega arith) refl

chunk_hashes_identify_example : (take {A = ℕ} 1 (5 ∷ []) ≡ take 1 (5 ∷ 6 ∷ [])) ⊎ Collision digest
chunk_hashes_identify_example =
    chunk_hashes_identify digest 1 length-digest (5 ∷ []) (5 ∷ 6 ∷ []) 0 (omega arith) one_chunk
      two_chunks (omega arith) (omega arith) refl refl
