-- ===== src/Utils/Hasher/Chain.antt =====
-- Equal hashes of mini_llmcache/utils/hasher.py stand for equal prefixes, unless two byte strings
-- are at hand on which blake3 collides.
use mini_llmcache.Base.{
  ℕ, zero, suc, ◌+◌, ◌-◌, ◌*◌, ◌/◌, ◌^◌, ◌≤◌, ◌<◌, ◌≡◌, ◌≢◌, refl, ap, ap₂, sym, ◌∙◌, List, [], ◌∷◌,
  ◌++◌, some, arith, Option-cases, inl, inr, ◌⊎◌, length, slice, take, drop, length-slice,
  get_elem?,
}
use mini_llmcache.Protocol.{Bytes, text_dec}
use mini_llmcache.Utils.Hasher.{be_bytes, pack, hash_one, none_hash, hash_loop, chunk_hashes}
use mini_llmcache.Utils.Hasher.Prefix.{rounds_of}

append_inj : (p q a b : List ℕ) → length p ≡ length q → p ++ a ≡ q ++ b → (p ≡ q) × (a ≡ b)
append_inj [] [] a b n e = (refl, e)
append_inj [] (y ∷ q) a b n e = absurd (omega arith)
append_inj (x ∷ p) [] a b n e = absurd (omega arith)
append_inj (x ∷ p) (y ∷ q) a b n e =
    let (same, rest) = append_inj p q a b (omega arith) (cc) in (ap₂ ◌∷◌ (cc) same, rest)

be_bytes_inj : (t u : ℕ) → t < 2 ^ 32 → u < 2 ^ 32 → be_bytes t ≡ be_bytes u → t ≡ u
unfolding be_bytes
be_bytes_inj t u ht hu e = ground arith

-- A successful `pack` of a nonempty list.
pack_cons :
    (t : ℕ) (ts : List ℕ) (x : Bytes)
    → pack (t ∷ ts) ≡ some x
    → (y : Bytes) × (pack ts ≡ some y) × (t < 2 ^ 32) × (be_bytes t ++ y ≡ x)
unfolding pack
pack_cons t ts x e = elim (Option-cases (pack ts)) [
  | inl fails ↦ absurd (ground (arith, fails))
  | inr (y, rest) ↦ (y, rest, ground (arith, rest), ground (arith, rest))
]

pack_inj :
    (ts us : List ℕ) (x : Bytes)
    → length ts ≡ length us
    → pack ts ≡ some x
    → pack us ≡ some x
    → ts ≡ us
pack_inj [] [] x n e f = refl
pack_inj [] (u ∷ us) x n e f = absurd (omega arith)
pack_inj (t ∷ ts) [] x n e f = absurd (omega arith)
pack_inj (t ∷ ts) (u ∷ us) x n e f =
    let (y, packed_t, small_t, join_t) = pack_cons t ts x e in
    let (z, packed_u, small_u, join_u) = pack_cons u us x f in
    let (heads, tails) =
      append_inj (be_bytes t) (be_bytes u) y z (four t ∙ sym (four u)) (join_t ∙ sym join_u) in
    ap₂ ◌∷◌ (be_bytes_inj t u small_t small_u heads)
      (pack_inj ts us y (omega arith) packed_t (packed_u ∙ ap some (sym tails)))
  where
    four : (v : ℕ) → length (be_bytes v) ≡ 4
    four v = unfold be_bytes in refl

take_add : (a b : ℕ) (xs : List ℕ) → take a xs ++ take b (drop a xs) ≡ take (a + b) xs
take_add zero b xs = let e : zero + b ≡ b = omega arith in rw e
take_add (suc a) zero [] = let e : suc a + zero ≡ suc a = omega arith in rw e
take_add (suc a) (suc b) [] = let e : suc a + suc b ≡ suc (a + suc b) = omega arith in rw e
take_add (suc a) b (x ∷ xs) =
    let e : suc a + b ≡ suc (a + b) = omega arith in rw e (ap (◌∷◌ x) (take_add a b xs))

drop_add : (i a : ℕ) (xs : List ℕ) → drop (i + a) xs ≡ drop a (drop i xs)
drop_add zero a xs = let e : zero + a ≡ a = omega arith in rw e
drop_add (suc i) zero [] = let e : suc i + zero ≡ suc i = omega arith in rw e
drop_add (suc i) (suc a) [] = let e : suc i + suc a ≡ suc (i + suc a) = omega arith in rw e
drop_add (suc i) a (x ∷ xs) =
    let e : suc i + a ≡ suc (i + a) = omega arith in rw e (drop_add i a xs)

slice_split :
    (i a b : ℕ) (ts : List ℕ)
    → slice i (i + a) ts ++ slice (i + a) (i + a + b) ts ≡ slice i (i + (a + b)) ts
slice_split i a b ts =
    let e₁ : i + a - i ≡ a = omega arith in
    let e₂ : i + a + b - (i + a) ≡ b = omega arith in
    let e₃ : i + (a + b) - i ≡ a + b = omega arith in
    rw (e₁, e₂, e₃, drop_add) (take_add a b (drop i ts))

module _ (blake3 : Bytes → Bytes) where
  -- Two different byte strings of one digest.
  abbrev pub Collision : Type 0
  Collision = (x : Bytes) × (y : Bytes) × (x ≢ y) × (blake3 x ≡ blake3 y)

  hash_one_inj :
      (p q : Bytes) (ts us : List ℕ) (h : Bytes)
      → length p ≡ length q
      → length ts ≡ length us
      → hash_one blake3 p ts ≡ some h
      → hash_one blake3 q us ≡ some h
      → ((p ≡ q) × (ts ≡ us)) ⊎ Collision
  unfolding hash_one
  hash_one_inj p q ts us h n k e f = elim (Option-cases (pack ts)) [
    | inl fails ↦ absurd (ground (arith, fails))
    | inr (a, packed_t) ↦ elim (Option-cases (pack us)) [
      | inl fails ↦ absurd (ground (arith, fails))
      | inr (b, packed_u) ↦
          let same : blake3 (p ++ a) ≡ blake3 (q ++ b) = ground (arith, packed_t, packed_u) in
          elim (text_dec (p ++ a) (q ++ b)) [
            | yes equal ↦
                let (prefixes, packs) = append_inj p q a b n equal in
                inl (prefixes, pack_inj ts us a k packed_t (packed_u ∙ ap some (sym packs)))
            | no differ ↦ inr (p ++ a, q ++ b, differ, same)
          ]
    ]
  ]

  hash_loop_cons :
      (ts : List ℕ) (size rounds i k : ℕ) (p h : Bytes) (hs : List Bytes)
      → hash_loop blake3 ts size rounds i p ≡ some hs
      → get_elem? hs k ≡ some h
      → (r : ℕ) × (first : Bytes) × (rest : List Bytes) × (hash_one blake3 p (slice i (i + size) ts)
          ≡ some first)
        × (hash_loop blake3 ts size r (i + size) first ≡ some rest)
        × (hs ≡ first ∷ rest)
  unfolding hash_loop
  hash_loop_cons ts size zero i k p h [] e f = cc
  hash_loop_cons ts size zero i k p h (x ∷ hs) e f = cc
  hash_loop_cons ts size (suc r) i k p h hs e f =
      elim (Option-cases (hash_one blake3 p (slice i (i + size) ts))) [
        | inl fails ↦ absurd (ground (arith, fails))
        | inr (first, one) ↦ elim (Option-cases (hash_loop blake3 ts size r (i + size) first)) [
          | inl fails ↦ absurd (ground (arith, one, fails))
          | inr (rest, more) ↦ (r, first, rest, one, more, ground (arith, one, more))
        ]
      ]

  -- The digest is a byte string of a fixed length.
  module _ (size : ℕ) (digest : (x : Bytes) → length (blake3 x) ≡ 32) where
    length-hash_one :
        (p : Bytes) (ts : List ℕ) (h : Bytes) → hash_one blake3 p ts ≡ some h → length h ≡ 32
    unfolding hash_one
    length-hash_one p ts h e = elim (Option-cases (pack ts)) [
      | inl fails ↦ absurd (ground (arith, fails))
      | inr (x, packed) ↦
          let e' : blake3 (p ++ x) ≡ h = ground (arith, packed) in
          ap length (sym e') ∙ digest (p ++ x)
    ]

    chain :
        (k r s i : ℕ) (p q h : Bytes) (ts us : List ℕ) (hs gs : List Bytes)
        → length p ≡ length q
        → i + suc k * size ≤ length ts
        → i + suc k * size ≤ length us
        → hash_loop blake3 ts size r i p ≡ some hs
        → hash_loop blake3 us size s i q ≡ some gs
        → get_elem? hs k ≡ some h
        → get_elem? gs k ≡ some h
        → ((p ≡ q) × (slice i (i + suc k * size) ts ≡ slice i (i + suc k * size) us)) ⊎ Collision
    chain zero r s i p q h ts us hs gs n le₁ le₂ e f at₁ at₂ =
        let (r', first, rest, one, more, shape) = hash_loop_cons ts size r i 0 p h hs e at₁ in
        let (s', first', rest', one', more', shape') = hash_loop_cons us size s i 0 q h gs f at₂ in
        let width : suc zero * size ≡ size = omega arith in
        rw width (
          hash_one_inj p q (slice i (i + size) ts) (slice i (i + size) us) h n
            (omega (arith, length-slice i (i + size) ts, length-slice i (i + size) us))
            (one ∙ ground (arith, shape)) (one' ∙ ground (arith, shape')))
    chain (suc k) r s i p q h ts us hs gs n le₁ le₂ e f at₁ at₂ =
        let (r', first, rest, one, more, shape) = hash_loop_cons ts size r i (suc k) p h hs e at₁ in
        let (s', first', rest', one', more', shape') =
          hash_loop_cons us size s i (suc k) q h gs f at₂ in
        let ih =
          chain k r' s' (i + size) first first' h ts us rest rest'
            (length-hash_one p _ first one ∙ sym (length-hash_one q _ first' one')) (omega arith)
            (omega arith) more more' (ground (arith, shape)) (ground (arith, shape')) in
        elim ih [
          | inr collides ↦ inr collides
          | inl (firsts, tails) ↦
              elim (hash_one_inj p q (slice i (i + size) ts) (slice i (i + size) us) first n
                (omega (arith, length-slice i (i + size) ts, length-slice i (i + size) us)) one
                (one' ∙ ap some (sym firsts))) [
                  | inr collides ↦ inr collides
                  | inl (prefixes, heads) ↦ inl (prefixes, joined k i ts us heads tails)
                ]
        ]
      where
        joined :
            (k i : ℕ) (ts us : List ℕ)
            → slice i (i + size) ts ≡ slice i (i + size) us
            → slice (i + size) (i + size + suc k * size) ts
              ≡ slice (i + size) (i + size + suc k * size) us
            → slice i (i + suc (suc k) * size) ts ≡ slice i (i + suc (suc k) * size) us
        joined k i ts us heads tails =
            let e : suc (suc k) * size ≡ size + suc k * size = omega arith in
            rw e (
              sym (slice_split i size (suc k * size) ts)
              ∙ ap₂ ◌++◌ heads tails
              ∙ slice_split i size (suc k * size) us)

    -- With a digest of 32 bytes and a positive chunk size, if the hashes of the same chunk of two
    -- prompts are equal, the prompts agree on all tokens up to the end of that chunk, or two
    -- different byte strings of one digest are at hand.
    pub chunk_hashes_identify :
        (ts us : List ℕ) (k : ℕ) {hs gs : List Bytes} {h : Bytes}
        → 0 < size
        → chunk_hashes blake3 ts size ≡ some hs
        → chunk_hashes blake3 us size ≡ some gs
        → suc k * size ≤ length ts
        → suc k * size ≤ length us
        → get_elem? hs k ≡ some h
        → get_elem? gs k ≡ some h
        → (take (suc k * size) ts ≡ take (suc k * size) us) ⊎ Collision
    chunk_hashes_identify ts us k {hs} {gs} {h} pos e f le₁ le₂ at₁ at₂ =
        elim (chain k (length ts / size) (length us / size) 0 (none_hash blake3) (none_hash blake3)
          h ts us hs gs refl (omega arith) (omega arith) (rounds_of blake3 ts size pos e)
          (rounds_of blake3 us size pos f) at₁ at₂) [
            | inr collides ↦ inr collides
            | inl (same, agree) ↦ inl (from_start agree)
          ]
      where
        from_start :
            slice 0 (0 + suc k * size) ts ≡ slice 0 (0 + suc k * size) us
            → take (suc k * size) ts ≡ take (suc k * size) us
        from_start agree =
            let e : 0 + suc k * size - 0 ≡ suc k * size = omega arith in rw e at agree
