-- ===== src/Utils/Hasher/Prefix.antt =====
-- How many hashes `chunk_hashes` of mini_llmcache/utils/hasher.py gives, and that they depend on
-- the tokens before them only.
use mini_llmcache.Base.{
  ℕ, zero, suc, ◌+◌, ◌-◌, ◌*◌, ◌/◌, ◌%◌, ◌^◌, ◌≤◌, ◌<◌, ◌≡◌, refl, ap, sym, fun_ext, ◌∙◌, List, [],
  ◌∷◌, ◌++◌, All, some, some_inj, arith, Option-cases, inl, inr, length, slice, take, drop,
}
use native.Mathlib.Nat.{div-add-mod', mul-div_cancel, le-div_iff_mul-le}
use mini_llmcache.Protocol.{Bytes}
use mini_llmcache.Utils.Hasher.{◌>>=◌, be_bytes, pack, hash_one, none_hash, hash_loop, chunk_hashes}

abbrev pub IsToken : ℕ → Type 0
IsToken t = t < 2 ^ 32

pub pack_total : (tokens : List ℕ) → All IsToken tokens → (b : Bytes) × (pack tokens ≡ some b)
unfolding pack
pack_total [] h = ([], refl)
pack_total (t ∷ tokens) h =
    let (b, e) = pack_total tokens h.1 in (be_bytes t ++ b, rw e (ground arith))

All-take : (n : ℕ) (ts : List ℕ) → All IsToken ts → All IsToken (take n ts)
All-take zero ts h = tt
All-take (suc n) [] h = tt
All-take (suc n) (t ∷ ts) h = (h.0, All-take n ts h.1)

All-drop : (n : ℕ) (ts : List ℕ) → All IsToken ts → All IsToken (drop n ts)
All-drop zero ts h = h
All-drop (suc n) [] h = tt
All-drop (suc n) (t ∷ ts) h = All-drop n ts h.1

whole_rounds : (n k : ℕ) → 0 < k → (n - n % k) / k ≡ n / k
whole_rounds n k h =
    let e : n - n % k ≡ n / k * k = omega (arith, div-add-mod' n k) in
    rw e (mul-div_cancel (n / k) h)

take-take : (m n : ℕ) (ts : List ℕ) → m ≤ n → take m (take n ts) ≡ take m ts
take-take zero n ts h = refl
take-take (suc m) zero ts h = absurd (omega arith)
take-take (suc m) (suc n) [] h = refl
take-take (suc m) (suc n) (t ∷ ts) h = ap (◌∷◌ t) (take-take m n ts (omega arith))

-- A slice that ends below `n` is the same slice of the first `n` elements.
slice-take :
    (n i size : ℕ) (ts : List ℕ)
    → i + size ≤ n
    → slice i (i + size) (take n ts) ≡ slice i (i + size) ts
slice-take zero zero zero ts h = refl
slice-take zero zero (suc size) ts h = absurd (omega arith)
slice-take zero (suc i) size ts h = absurd (omega arith)
slice-take (suc n) i size [] h = refl
slice-take (suc n) zero size (t ∷ ts) h =
    let e : zero + size - zero ≡ size = omega arith in
    rw e (take-take size (suc n) (t ∷ ts) (omega arith))
slice-take (suc n) (suc i) size (t ∷ ts) h =
    let e : suc i + size - suc i ≡ i + size - i = omega arith in
    rw e (slice-take n i size ts (omega arith))

module _ (blake3 : Bytes → Bytes) where
  hash_one_total :
      (prefix_hash : Bytes) (tokens : List ℕ)
      → All IsToken tokens
      → (h : Bytes) × (hash_one blake3 prefix_hash tokens ≡ some h)
  unfolding hash_one
  hash_one_total prefix_hash tokens ok =
      let (b, e) = pack_total tokens ok in (blake3 (prefix_hash ++ b), rw e)

  hash_loop_total :
      (ts : List ℕ) (size rounds i : ℕ) (p : Bytes)
      → All IsToken ts
      → (hs : List Bytes) × (hash_loop blake3 ts size rounds i p ≡ some hs) × (length hs ≡ rounds)
  unfolding hash_loop
  hash_loop_total ts size zero i p ok = ([], refl, refl)
  hash_loop_total ts size (suc rounds) i p ok =
      let (h, e) =
        hash_one_total p (slice i (i + size) ts)
          (All-take (i + size - i) (drop i ts) (All-drop i ts ok)) in
      let (hs, f, n) = hash_loop_total ts size rounds (i + size) h ok in
      (h ∷ hs, rw (e, f), ap suc n)

  -- With a positive chunk size and tokens of 32 bits `chunk_hashes` returns, with one hash for each
  -- whole chunk and none for a trailing partial one.
  pub chunk_hashes_total :
      (ts : List ℕ) (size : ℕ)
      → 0 < size
      → All IsToken ts
      → (hs : List Bytes) × (chunk_hashes blake3 ts size ≡ some hs) × (length hs ≡ length ts / size)
  unfolding chunk_hashes
  chunk_hashes_total ts size pos ok =
      let (hs, e, n) =
        hash_loop_total ts size ((length ts - length ts % size) / size) 0 (none_hash blake3) ok in
      (hs, ground (arith, e), n ∙ whole_rounds (length ts) size pos)

  hash_loop_shared :
      (ts us : List ℕ) (size n rounds i : ℕ) (p : Bytes)
      → take n ts ≡ take n us
      → i + rounds * size ≤ n
      → hash_loop blake3 ts size rounds i p ≡ hash_loop blake3 us size rounds i p
  unfolding hash_loop
  hash_loop_shared ts us size n zero i p same h = refl
  hash_loop_shared ts us size n (suc rounds) i p same h =
      let e : slice i (i + size) ts ≡ slice i (i + size) us =
        sym (slice-take n i size ts (omega arith))
        ∙ ap (slice i (i + size)) same
        ∙ slice-take n i size us (omega arith) in
      rw e (
        ap (λ k. hash_one blake3 p (slice i (i + size) us) >>= k)
          (fun_ext λ h'.
            ap (λ o. o >>= λ hashes. some (h' ∷ hashes))
              (hash_loop_shared ts us size n rounds (i + size) h' same (omega arith))))

  -- Fewer rounds give the first of the hashes.
  hash_loop-take :
      (ts : List ℕ) (size k rounds i : ℕ) (p : Bytes) (hs : List Bytes)
      → k ≤ rounds
      → hash_loop blake3 ts size rounds i p ≡ some hs
      → hash_loop blake3 ts size k i p ≡ some (take k hs)
  unfolding hash_loop
  hash_loop-take ts size zero rounds i p hs le e = refl
  hash_loop-take ts size (suc k) zero i p hs le e = absurd (omega arith)
  hash_loop-take ts size (suc k) (suc rounds) i p hs le e =
      elim (Option-cases (hash_one blake3 p (slice i (i + size) ts))) [
        | inl fails ↦ absurd (ground (arith, fails))
        | inr (h, first) ↦ elim (Option-cases (hash_loop blake3 ts size rounds (i + size) h)) [
          | inl fails ↦ absurd (ground (arith, first, fails))
          | inr (rest, more) ↦
              let shape : h ∷ rest ≡ hs = ground (arith, first, more) in
              rw (first, hash_loop-take ts size k rounds (i + size) h rest (omega arith) more)
                (ap (λ l. some (take (suc k) l)) shape)
        ]
      ]

  pub rounds_of :
      (ts : List ℕ) (size : ℕ) {hs : List Bytes}
      → 0 < size
      → chunk_hashes blake3 ts size ≡ some hs
      → hash_loop blake3 ts size (length ts / size) 0 (none_hash blake3) ≡ some hs
  unfolding chunk_hashes
  rounds_of ts size pos e = rw (← whole_rounds (length ts) size pos) (ground (arith, e))

  -- With a positive chunk size, prompts that have hashes and agree on their first `k` whole chunks
  -- have the same first `k` hashes, whatever follows.
  pub chunk_hashes_shared :
      (ts us : List ℕ) (size k : ℕ) {hs gs : List Bytes}
      → 0 < size
      → chunk_hashes blake3 ts size ≡ some hs
      → chunk_hashes blake3 us size ≡ some gs
      → k * size ≤ length ts
      → k * size ≤ length us
      → take (k * size) ts ≡ take (k * size) us
      → take k hs ≡ take k gs
  chunk_hashes_shared ts us size k {hs} {gs} pos e f le₁ le₂ same =
      let first =
        λ (vs : List ℕ) (ks : List Bytes) (q : chunk_hashes blake3 vs size ≡ some ks)
            (le : k * size ≤ length vs).
          hash_loop-take vs size k (length vs / size) 0 (none_hash blake3) ks
            ((le-div_iff_mul-le pos).1 le) (rounds_of vs size pos q) in
      some_inj (
        sym (first ts hs e le₁)
        ∙ hash_loop_shared ts us size (k * size) k 0 (none_hash blake3) same (omega arith)
        ∙ first us gs f le₂)
