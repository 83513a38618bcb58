-- ===== src/Server/RoundTrip.antt =====
-- The handlers `store` and `retrieve` of mini_llmcache/server.py, one after the other.
use mini_llmcache.Base.{
  ℕ, zero, suc, ◌≡◌, refl, ap, ◌∙◌, List, [], ◌∷◌, All, some, true, false, arith, length, map, ok,
  >>=-ok, ◌⊎◌, inl, inr, get_elem?, Distinct, ℕ_discrete, ◌==◌, some_inj, subst, pure,
}
use mini_llmcache.Base.Dict.{Dict, lookup, contains}
use mini_llmcache.Protocol.{Bytes, ChunkKey, key_dec, TransferPayload}
use mini_llmcache.L1.Memory.{MemoryObj}
use mini_llmcache.L1.Memory.Contents.{contents}
use mini_llmcache.L1.Manager.{Entry, L1Manager, read}
use mini_llmcache.L1.Manager.Valid.{IsValid}
use mini_llmcache.Server.{
  CacheServer, EngineInstance, op_keys, store, store_chunks, retrieve, view_bytes,
}
use mini_llmcache.Server.Stores.{store_chunks-Stores}

-- At every place, the key is cached with the chunk at that place.
abbrev AllHold : L1Manager → List ChunkKey → List Bytes → Type 0
AllHold m keys chunks =
    (i : ℕ) (key : ChunkKey) (blob : Bytes)
    → get_elem? keys i ≡ some key
    → get_elem? chunks i ≡ some blob
    → (e : Entry) × (lookup key_dec key m.entries ≡ some e) × (contents m.allocator e.obj ≡ blob)

read_lem :
    (keys : List ChunkKey) (chunks : List Bytes) (m : L1Manager)
    → length chunks ≡ length keys
    → AllHold m keys chunks
    → (objs : List MemoryObj) × (read keys m ≡ (ok objs, m))
      × (map (contents m.allocator) objs ≡ chunks)
unfolding read
read_lem [] [] m same h = ([], refl, refl)
read_lem (k ∷ keys) [] m same h = absurd (omega (arith, same))
read_lem [] (b ∷ chunks) m same h = absurd (omega (arith, same))
read_lem (k ∷ keys) (b ∷ chunks) m same h =
    let (e, found, holds) = h zero k b refl refl in
    let (objs, returned, reads) = read_lem keys chunks m (omega (arith, same)) (λ i. h (suc i)) in
    (
      e.obj ∷ objs,
      rw (found) (>>=-ok (read keys) (λ objs. pure (e.obj ∷ objs)) m returned),
      rw (holds, reads) refl,
    )

missing_at :
    (d : Dict ChunkKey Entry) (keys : List ChunkKey) (i : ℕ) (key : ChunkKey)
    → All (λ k. contains key_dec k d ≡ false) keys
    → get_elem? keys i ≡ some key
    → contains key_dec key d ≡ false
missing_at d [] i key h at = absurd (cc)
missing_at d (k ∷ keys) zero key h at =
    let same : k ≡ key = some_inj at in subst (λ q. contains key_dec q d ≡ false) same h.0
missing_at d (k ∷ keys) (suc i) key h at = missing_at d keys i key h.1 at

module _ (blake3 : Bytes → Bytes) where
  store_lem :
      (p : TransferPayload) (c : CacheServer) (i : EngineInstance) (keys : List ChunkKey)
      (m' : L1Manager)
      → lookup ℕ_discrete p.instance_id c.instances ≡ some i
      → op_keys blake3 c.chunk_size p.op i ≡ some keys
      → store_chunks keys i.chunk_nbytes p.chunks c.sm.l1 ≡ (ok tt, m')
      → store blake3 p c ≡ (ok true, record c { sm = record c.sm { l1 = m' } })
  unfolding store
  store_lem p c i keys m' known asked returned = ground (arith, known, asked, returned)

  retrieve_lem :
      (p : TransferPayload) (c : CacheServer) (i : EngineInstance) (keys : List ChunkKey)
      (objs : List MemoryObj)
      → lookup ℕ_discrete p.instance_id c.instances ≡ some i
      → op_keys blake3 c.chunk_size p.op i ≡ some keys
      → (i.world_size == 0) ≡ false
      → read keys c.sm.l1 ≡ (ok objs, c.sm.l1)
      → retrieve blake3 p c ≡ (ok (keys, objs), c)
  unfolding retrieve
  retrieve_lem p c i keys objs known asked world returned =
      ground (arith, known, asked, world, returned)

  -- On a valid cache, for a known instance of a world size other than 0, distinct keys of which
  -- none is cached and one chunk of the instance's chunk size for each: `store` answers true and
  -- keeps the cache valid, and either it has stored nothing or `retrieve` of the same operation
  -- sends exactly the chunks that were stored.
  pub retrieve-store :
      (p q : TransferPayload) (c : CacheServer) (i : EngineInstance) (keys : List ChunkKey)
      → lookup ℕ_discrete p.instance_id c.instances ≡ some i
      → op_keys blake3 c.chunk_size p.op i ≡ some keys
      → (i.world_size == 0) ≡ false
      → IsValid c.sm.l1
      → Distinct key_dec keys
      → All (λ k. contains key_dec k c.sm.l1.entries ≡ false) keys
      → All (λ b. length b ≡ i.chunk_nbytes) p.chunks
      → length p.chunks ≡ length keys
      → q.instance_id ≡ p.instance_id
      → q.op ≡ p.op
      → (c' : CacheServer) × (store blake3 p c ≡ (ok true, c'))
        × IsValid c'.sm.l1
        × (((j : ChunkKey) → lookup key_dec j c'.sm.l1.entries ≡ lookup key_dec j c.sm.l1.entries)
            ⊎ ((objs : List MemoryObj) × (retrieve blake3 q c' ≡ (ok (keys, objs), c'))
                × (map (view_bytes c') objs ≡ p.chunks)))
  unfolding store retrieve view_bytes
  retrieve-store p q c i keys known asked world valid distinct missing sized same inst op =
      let (m', returned, stores) =
        store_chunks-Stores c.sm.l1 keys i.chunk_nbytes p.chunks valid distinct sized in
      let c' = record c { sm = record c.sm { l1 = m' } } in
      (
        c',
        store_lem p c i keys m' known asked returned,
        stores.valid,
        elim stores.stored [
          | inl nothing ↦ inl nothing
          | inr every ↦
              let (objs, got, reads) = read_lem keys p.chunks m' same (λ k key blob at₁ at₂.
                let (obj, found, holds) =
                  every k key blob at₁ at₂ (missing_at c.sm.l1.entries keys k key missing at₁) in
                (_, found, holds)) in
              inr (
                objs,
                retrieve_lem q c' i keys objs
                    (ap (λ k. lookup ℕ_discrete k c.instances) inst ∙ known)
                    (ap (λ o. op_keys blake3 c.chunk_size o i) op ∙ asked) world got,
                reads,
              )
        ],
      )
