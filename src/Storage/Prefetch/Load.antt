-- ===== src/Storage/Prefetch/Load.antt =====
-- What `reserve_load` and `load_from_l2s` of mini_llmcache/l1/prefetch_controller.py do to the
-- storage.
use mini_llmcache.Base.{
  ℕ, ◌≡◌, refl, ap, ◌++◌, sym, subst, ◌∙◌, List, [], ◌∷◌, All, Option, none, some, true, false,
  arith, elem, Distinct, ◌⊎◌, inl, inr, Bool-cases, get_elem?, zero, suc, some_inj,
}
use mini_llmcache.Base.Dict.{Dict, lookup, contains}
use mini_llmcache.Protocol.{ChunkKey, key_dec}
use mini_llmcache.L1.Memory.{MemoryObj}
use mini_llmcache.L1.Manager.{Entry, reserve_write}
use mini_llmcache.L1.Manager.Valid.{IsValid}
use mini_llmcache.L1.Manager.Place.{fresh}
use mini_llmcache.L1.Manager.Write.{reserve_write-Reserves}
use mini_llmcache.Storage.{Storage}
use mini_llmcache.Storage.Prefetch.{reserve_one, reserve_load}

-- The key was missing, and is write-locked now, with an object of its own.
abbrev pub IsPlaced : ChunkKey → Storage → Storage → Type 0
IsPlaced j s s' =
    (lookup key_dec j s.l1.entries ≡ none)
    × ((obj : MemoryObj) × (lookup key_dec j s'.l1.entries ≡ some (fresh true obj)))

-- Only the L1 cache changes.
abbrev pub IsSameBut : Storage → Storage → Type 0
IsSameBut s s' = (s'.held ≡ s.held) × (s'.hits ≡ s.hits) × (s'.l2s ≡ s.l2s)

-- What the reservation of one key comes to: nothing, or an object.
abbrev ReservesOne : ℕ → ChunkKey → Storage → Option MemoryObj × Storage → Type 0
ReservesOne n key s (o, s') =
    IsValid s'.l1
    × IsSameBut s s'
    × ((j : ChunkKey)
        → elem key_dec j (key ∷ []) ≡ false
        → lookup key_dec j s'.l1.entries ≡ lookup key_dec j s.l1.entries)
    × (((o ≡ none) × (lookup key_dec key s'.l1.entries ≡ lookup key_dec key s.l1.entries))
        ⊎ ((obj : MemoryObj) × (o ≡ some obj)
            × (obj.nbytes ≡ n)
            × (lookup key_dec key s.l1.entries ≡ none)
            × (lookup key_dec key s'.l1.entries ≡ some (fresh true obj))))

reserve_one-ReservesOne :
    (n : ℕ) (key : ChunkKey) (s : Storage)
    → IsValid s.l1
    → ReservesOne n key s (reserve_one key n s)
unfolding reserve_one
reserve_one-ReservesOne n key s valid =
    let did = reserve_write-Reserves s.l1 (key ∷ []) n true valid (refl, tt) in
    (
      did.valid,
      (refl, refl, refl),
      (λ j other. elim did.all_or_nothing [
        | inl nothing ↦ (nothing j).0
        | inr split ↦ ((split j).0 (ground (arith, other))).0
      ]),
      elim did.all_or_nothing [
        | inl nothing ↦
            let none_got : lookup key_dec key (reserve_write (key ∷ []) n true s.l1).0 ≡ some none =
              ground (arith, (nothing key).1) in
            inl (rw (none_got, reserve_one) refl, (nothing key).0)
        | inr split ↦ elim (Bool-cases (contains key_dec key s.l1.entries)) [
          | inl cached ↦
              let same = (split key).0 (ground (arith, cached)) in
              let none_got : lookup key_dec key (reserve_write (key ∷ []) n true s.l1).0
                  ≡ some none =
                ground (arith, same.1) in
              inl (rw (none_got, reserve_one) refl, same.0)
          | inr missing ↦
              let (obj, size, found, got) = (split key).1 (ground (arith, missing)) in
              inr (obj, rw (got, reserve_one) refl, size, ground (arith, missing), found)
        ]
      ],
    )

-- The entry of each key is the fresh object that stands at its place in the list of objects.
abbrev pub AreGiven : List ChunkKey → List MemoryObj → Dict ChunkKey Entry → Type 0
AreGiven keys objs d =
    (i : ℕ) (j : ChunkKey)
    → get_elem? keys i ≡ some j
    → (obj : MemoryObj) × (get_elem? objs i ≡ some obj)
      × (lookup key_dec j d ≡ some (fresh true obj))

given_cons :
    (key : ChunkKey) (obj : MemoryObj) (keys : List ChunkKey) (objs : List MemoryObj)
    (d : Dict ChunkKey Entry)
    → lookup key_dec key d ≡ some (fresh true obj)
    → AreGiven keys objs d
    → AreGiven (key ∷ keys) (obj ∷ objs) d
given_cons key obj keys objs d here rest zero j h =
    (obj, refl, subst (λ k. lookup key_dec k d ≡ some (fresh true obj)) (some_inj h) here)
given_cons key obj keys objs d here rest (suc i) j h = rest i j h

-- What the loop comes to: the keys it has locked, each with an object of the asked size.
pub record ReservesLoad (n : ℕ) (keys : List ChunkKey) (s : Storage)
    (p : (List ChunkKey × List MemoryObj) × Storage) : Type 0 where
  pub valid : IsValid p.1.l1
  pub same : IsSameBut s p.1
  pub distinct : Distinct key_dec p.0.0
  pub listed : (j : ChunkKey) → elem key_dec j p.0.0 ≡ true → elem key_dec j keys ≡ true
  pub sized : All (λ (o : MemoryObj). o.nbytes ≡ n) p.0.1
  pub kept :
      (j : ChunkKey)
      → elem key_dec j p.0.0 ≡ false
      → lookup key_dec j p.1.l1.entries ≡ lookup key_dec j s.l1.entries
  pub placed : (j : ChunkKey) → elem key_dec j p.0.0 ≡ true → IsPlaced j s p.1
  pub front : (rest : List ChunkKey) × (p.0.0 ++ rest ≡ keys)
  pub given : AreGiven p.0.0 p.0.1 p.1.l1.entries

stopped :
    (n : ℕ) (keys : List ChunkKey) (s s' : Storage)
    → IsValid s'.l1
    → IsSameBut s s'
    → ((j : ChunkKey) → lookup key_dec j s'.l1.entries ≡ lookup key_dec j s.l1.entries)
    → ReservesLoad n keys s (([], []), s')
stopped n keys s s' valid same kept = record {
  valid = valid;
  same = same;
  distinct = tt;
  listed = λ j h. absurd (cc);
  sized = tt;
  kept = λ j h. kept j;
  placed = λ j h. absurd (cc);
  front = (keys, refl);
  given = λ i j h. absurd (cc);
}

pub reserve_load-ReservesLoad :
    (n : ℕ) (keys : List ChunkKey) (s : Storage)
    → IsValid s.l1
    → Distinct key_dec keys
    → ReservesLoad n keys s (reserve_load keys n s)
unfolding reserve_load
reserve_load-ReservesLoad n [] s valid distinct =
    stopped n [] s s valid (refl, refl, refl) (λ j. refl)
reserve_load-ReservesLoad n (key ∷ keys) s valid distinct =
    let s₁ = (reserve_one key n s).1 in
    let (valid₁, same₁, others, result) = reserve_one-ReservesOne n key s valid in
    elim result [
      | inl full ↦
          rw (full.0, reserve_load)
            (stopped n (key ∷ keys) s s₁ valid₁ same₁ (λ j. elim (key_dec j key) [
              | yes here ↦
                  subst (λ k. lookup key_dec k s₁.l1.entries ≡ lookup key_dec k s.l1.entries)
                    (sym here) full.1
              | no other ↦ others j (ground (arith, other))
            ]))
      | inr found ↦
          let (obj, got, size, missing, stored) = found in
          let rest = reserve_load-ReservesLoad n keys s₁ valid₁ distinct.1 in
          let own : elem key_dec key (reserve_load keys n s₁).0.0 ≡ false =
            elim (Bool-cases (elem key_dec key (reserve_load keys n s₁).0.0)) [
              | inl twice ↦ absurd (ground (arith, rest.listed key twice, distinct.0))
              | inr once ↦ once
            ] in
          rw (got, reserve_load)
            (record {
              valid = rest.valid;
              same = (rest.same.0 ∙ same₁.0, rest.same.1 ∙ same₁.1, rest.same.2 ∙ same₁.2);
              distinct = (own, rest.distinct);
              listed = λ j h. elim (key_dec j key) [
                | yes here ↦ ground (arith, here)
                | no other ↦ ground (arith, other, rest.listed j (ground (arith, other, h)))
              ];
              sized = (size, rest.sized);
              kept = λ j h. rest.kept j (ground (arith, h)) ∙ others j (ground (arith, h));
              placed = λ j h. elim (key_dec j key) [
                | yes here ↦
                    subst (λ k. IsPlaced k s (reserve_load keys n s₁).1) (sym here)
                      (missing, (obj, rest.kept key own ∙ stored))
                | no other ↦
                    let later = rest.placed j (ground (arith, other, h)) in
                    (sym (others j (ground (arith, other))) ∙ later.0, later.1)
              ];
              front = (rest.front.0, ap (◌∷◌ key) rest.front.1);
              given =
                  given_cons key obj (reserve_load keys n s₁).0.0 (reserve_load keys n s₁).0.1 _
                    (rest.kept key own ∙ stored) rest.given;
            })
    ]
