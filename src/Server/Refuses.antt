-- ===== src/Server/Refuses.antt =====
-- The handler `store` of mini_llmcache/server.py on a chunk of a wrong length.
use mini_llmcache.Base.{
  ℕ, ◌≡◌, ◌≢◌, refl, ap, ◌∙◌, List, [], ◌∷◌, All, some, true, false, not, ◌&&◌, arith, elem,
  Distinct, length, for_each, raised, value_error, >>=-ok, >>=-raised, ◌>>◌, ◌⊎◌, inl, inr,
  get_elem?, ℕ_discrete,
}
use mini_llmcache.Base.Dict.{lookup, contains}
use mini_llmcache.Protocol.{Bytes, ChunkKey, key_dec}
use mini_llmcache.L1.Memory.{MemoryObj, write_bytes}
use mini_llmcache.L1.Memory.Contents.{write_obj_lem, write_obj_refused}
use mini_llmcache.L1.Manager.{L1Manager, notify, reserve_write, finish_write}
use mini_llmcache.L1.Manager.Valid.{IsValid}
use mini_llmcache.L1.Manager.Place.{fresh}
use mini_llmcache.L1.Manager.Write.{reserve_write-Reserves}
use mini_llmcache.Server.{writable, write_blob, store_chunks}
use mini_llmcache.Server.Blobs.{Write}
use mini_llmcache.Server.Writable.{keys_of, writable_at, elem_at}
use mini_llmcache.Server.Answers.{answered, Untouched-writable}

-- The loop stops at the first chunk that does not fit, and leaves the entries alone.
write_blobs_refused :
    (ws : List Write) (m : L1Manager)
    → ¬ All (λ w. length w.2 ≡ w.1.nbytes) ws
    → (m' : L1Manager) × (for_each write_blob ws m ≡ (raised value_error, m'))
      × (m'.entries ≡ m.entries)
unfolding write_blob
write_blobs_refused [] m h = absurd (h tt)
write_blobs_refused ((key, obj, blob) ∷ ws) m h = elim (ℕ_discrete (length blob) obj.nbytes) [
  | yes fits ↦
      let m₁ = record m {
        allocator = record m.allocator { pool = write_bytes m.allocator.pool obj.offset blob };
      } in
      let (m', stopped, same) = write_blobs_refused ws m₁ (λ all. h (fits, all)) in
      (
        m',
        >>=-ok (write_blob (key, obj, blob)) (λ _. for_each write_blob ws) m
              (rw (write_obj_lem obj blob m.allocator fits) refl)
            ∙ stopped,
        same,
      )
  | no differs ↦ (
    m,
    >>=-raised (write_blob (key, obj, blob)) (λ _. for_each write_blob ws) m
        (rw (write_obj_refused obj blob m.allocator differs) refl),
    refl,
  )
]

finish_nothing : (m : L1Manager) → (finish_write [] m).1.entries ≡ m.entries
unfolding finish_write notify
finish_nothing m = refl

-- On a valid cache, distinct keys and a missing key whose chunk is not of the instance's chunk
-- size: storing the chunks changes no entry, or raises the ValueError and leaves every missing key
-- of the call write-locked.
pub store_chunks-raised :
    (m : L1Manager) (keys : List ChunkKey) (n : ℕ) (chunks : List Bytes) (i : ℕ) (key : ChunkKey)
    (blob : Bytes)
    → IsValid m
    → Distinct key_dec keys
    → get_elem? keys i ≡ some key
    → get_elem? chunks i ≡ some blob
    → length blob ≢ n
    → contains key_dec key m.entries ≡ false
    → ((j : ChunkKey)
        → lookup key_dec j (store_chunks keys n chunks m).1.entries ≡ lookup key_dec j m.entries)
      ⊎ (((store_chunks keys n chunks m).0 ≡ raised value_error)
          × ((j : ChunkKey)
              → (elem key_dec j keys && not (contains key_dec j m.entries)) ≡ true
              → (obj : MemoryObj) × (lookup key_dec j (store_chunks keys n chunks m).1.entries
                  ≡ some (fresh false obj))))
unfolding store_chunks
store_chunks-raised m keys n chunks i key blob valid distinct at₁ at₂ differs missing =
    let p = reserve_write keys n false m in
    let did = reserve_write-Reserves m keys n false valid distinct in
    let ws = writable keys chunks p.0 in
    elim did.all_or_nothing [
      | inl nothing ↦ inl (λ j.
          ap
            (λ ws'.
              lookup key_dec j
                ((for_each write_blob ws' >> finish_write (keys_of ws')) p.1).1.entries)
            (Untouched-writable m keys chunks p nothing)
          ∙ ap (lookup key_dec j) (finish_nothing p.1)
          ∙ (nothing j).0)
      | inr split ↦
          let (obj, size, found, got) =
            (split key).1 (ground (arith, elem_at key i keys at₁, missing)) in
          let (m', stopped, same) = write_blobs_refused ws p.1 (λ all. differs (
            writable_at (λ w. length w.2 ≡ w.1.nbytes) n key blob obj i keys chunks p.0 p.1.entries
              got at₁ at₂ (answered m keys n p did) all
            ∙ size)) in
          let out =
            >>=-raised (for_each write_blob ws) (λ _. finish_write (keys_of ws)) p.1 stopped in
          inr (
            ap (λ q. q.0) out,
            λ j asked.
                let (o, size', found', got') = (split j).1 asked in
                (
                  o,
                  ap (λ q. lookup key_dec j q.1.entries) out ∙ ap (lookup key_dec j) same ∙ found',
                ),
          )
    ]
