-- ===== src/Server/Stores.antt =====
-- What the handler `store` of mini_llmcache/server.py leaves in the cache.
use mini_llmcache.Base.{
  ℕ, ◌≡◌, ap, sym, ◌∙◌, List, All, some, true, false, arith, elem, Distinct, length, for_each, ok,
  >>=-ok, ◌⊎◌, inl, inr, get_elem?, subst, if◌then◌else◌,
}
use mini_llmcache.Base.Dict.{lookup, contains}
use mini_llmcache.Protocol.{Bytes, ChunkKey, key_dec}
use mini_llmcache.L1.Memory.{MemoryObj, read_bytes}
use mini_llmcache.L1.Memory.Contents.{contents}
use mini_llmcache.L1.Manager.{Entry, L1Manager, Reserved, reserve_write, finish_write, unlock}
use mini_llmcache.L1.Manager.Valid.{IsValid}
use mini_llmcache.L1.Manager.Alter.{IsPresent, map_entry}
use mini_llmcache.L1.Manager.Place.{fresh}
use mini_llmcache.L1.Manager.Write.{
  Reserves, Untouched, Locked, reserve_write-Reserves, finish_write-Finishes,
}
use mini_llmcache.Server.{writable, write_blob, store_chunks}
use mini_llmcache.Server.Blobs.{Write, Fits, Writes, write_blobs-Writes}
use mini_llmcache.Server.Answers.{Untouched-cached, answered, Untouched-elem}
use mini_llmcache.Server.Writable.{
  keys_of, writable-Fits, writable_at, Fits-Distinct, Fits-IsPresent, elem_at, elem-keys_of,
}

-- Every missing key has got its chunk, readable and not held.
abbrev pub AllStored : List ChunkKey → List Bytes → L1Manager → L1Manager → Type 0
AllStored keys chunks m m' =
    (i : ℕ) (key : ChunkKey) (blob : Bytes)
    → get_elem? keys i ≡ some key
    → get_elem? chunks i ≡ some blob
    → contains key_dec key m.entries ≡ false
    → (obj : MemoryObj) × (lookup key_dec key m'.entries ≡ some (unlock (fresh false obj)))
      × (contents m'.allocator obj ≡ blob)

-- What storing chunks does: the cached chunks keep their entries and their bytes, and the missing
-- ones are stored, or none is.
pub record Stores (keys : List ChunkKey) (chunks : List Bytes) (m m' : L1Manager) : Type 0 where
  pub valid : IsValid m'
  pub kept :
      (j : ChunkKey) (e : Entry)
      → lookup key_dec j m.entries ≡ some e
      → (lookup key_dec j m'.entries ≡ some e)
        × (contents m'.allocator e.obj ≡ contents m.allocator e.obj)
  pub stored :
      ((j : ChunkKey) → lookup key_dec j m'.entries ≡ lookup key_dec j m.entries)
      ⊎ AllStored keys chunks m m'

module _ (m : L1Manager) (keys : List ChunkKey) (n : ℕ) (chunks : List Bytes) (valid : IsValid m)
    (distinct : Distinct key_dec keys) (sized : All (λ b. length b ≡ n) chunks) where
  abbrev first : Reserved × L1Manager
  first = reserve_write keys n false m

  abbrev picked : List Write
  picked = writable keys chunks first.0

  first_lem : Reserves m keys n false first
  first_lem = reserve_write-Reserves m keys n false valid distinct

  picked-Fits : Fits first.1.entries picked
  picked-Fits =
      writable-Fits n keys chunks first.0 first.1.entries distinct
        (answered m keys n first first_lem) sized

  -- After the call, from what the loop and `finish_write` have done.
  finished-Stores :
      (m₂ m₃ : L1Manager)
      → Writes picked first.1 m₂
      → ((j : ChunkKey)
          → lookup key_dec j m₃.entries ≡ (
              if elem key_dec j (keys_of picked)
              then map_entry unlock (lookup key_dec j m₂.entries)
              else lookup key_dec j m₂.entries))
      → m₃.allocator ≡ m₂.allocator
      → IsValid m₃
      → Stores keys chunks m m₃
  finished-Stores m₂ m₃ writes changed same valid' =
      let unpicked : (j : ChunkKey)
          → Untouched m keys j first
          → lookup key_dec j m₃.entries ≡ lookup key_dec j m.entries =
        λ j u. ground (
          arith,
          changed j,
          Untouched-elem m keys chunks first j u,
          ap (λ d. lookup key_dec j d) writes.entries,
          u.0,
        ) in
      record {
        valid = valid';
        kept = λ j e found.
            let u = Untouched-cached m keys n first first_lem j (ground (arith, found)) in
            (
              unpicked j u ∙ found,
              ap (λ a. contents a e.obj) same
                  ∙ writes.others j e (u.0 ∙ found) (Untouched-elem m keys chunks first j u)
                  ∙ ap (λ p. read_bytes p e.obj.offset e.obj.nbytes) first_lem.bytes,
            );
        stored = elim first_lem.all_or_nothing [
          | inl nothing ↦ inl (λ j. unpicked j (nothing j))
          | inr split ↦ inr (λ i key blob at₁ at₂ missing.
              let (obj, size, found, got) : Locked n false key first =
                (split key).1 (ground (arith, elem_at key i keys at₁, missing)) in
              let at : (P : Write → Type 0) → All P picked → P (key, obj, blob) = λ P.
                writable_at P n key blob obj i keys chunks first.0 first.1.entries got at₁ at₂
                  (answered m keys n first first_lem) in
              let in_picked =
                at (λ w. elem key_dec w.0 (keys_of picked) ≡ true)
                  (elem-keys_of picked picked (λ k h. h)) in
              (
                obj,
                ground (
                  arith,
                  changed key,
                  in_picked,
                  ap (λ d. lookup key_dec key d) writes.entries,
                  found,
                ),
                ap (λ a. contents a obj) same
                    ∙ at (λ w. contents m₂.allocator w.1 ≡ w.2) writes.written,
              ))
        ];
      }

  -- Storing the chunks of distinct keys, each of the instance's chunk size, on a valid cache
  -- returns and keeps the cache valid; every cached chunk keeps its entry and its bytes, and either
  -- no entry changes or every missing key that has a chunk at its place gets an entry that is
  -- neither written nor read and holds that chunk.
  pub store_chunks-Stores :
      (m' : L1Manager) × (store_chunks keys n chunks m ≡ (ok tt, m')) × Stores keys chunks m m'
  unfolding store_chunks
  store_chunks-Stores =
      let (m₂, returned, writes) = write_blobs-Writes picked first.1 first_lem.valid picked-Fits in
      let (m₃, returned', finishes) =
        finish_write-Finishes m₂ (keys_of picked) writes.valid
          (Fits-Distinct first.1.entries picked picked-Fits)
          (subst (λ d. All (IsPresent d) (keys_of picked)) (sym writes.entries)
            (Fits-IsPresent first.1.entries picked picked-Fits)) in
      (
        m₃,
        >>=-ok (for_each write_blob picked) (λ _. finish_write (keys_of picked)) first.1 returned
            ∙ returned',
        finished-Stores m₂ m₃ writes finishes.changed finishes.allocator finishes.valid,
      )
