-- ===== src/Server/Keeps.antt =====
-- The handlers of mini_llmcache/server.py keep the cache valid, exceptions included.
use mini_llmcache.Base.{
  ℕ, ◌*◌, Error, ◌≡◌, refl, sym, subst, List, Option, none, some, Bool, true, false, Action, ok,
  pure, modify, gets, or_raise, ◌>>=◌, ◌>>◌, Preserves, Preserves-bind, Preserves-for_each,
  Preserves-if, Bool-cases, inl, inr, length, ◌==◌, if◌then◌else◌, Distinct, map, for_each,
  key_error, raise, zero_division_error, ℕ_discrete,
}
use mini_llmcache.Base.Dict
use mini_llmcache.Protocol.{
  Text, Bytes, ChunkKey, key_dec, LookupPayload, TransferPayload, FreeLocksPayload, text_dec,
}
use mini_llmcache.L1.Memory.{MemoryObj, write_obj, write_bytes}
use mini_llmcache.L1.Manager.{L1Manager, reserve_write, finish_write, read, promote}
use mini_llmcache.L1.Manager.Valid.{IsValid}
use mini_llmcache.L1.Manager.Write.{reserve_write-Reserves}
use mini_llmcache.L1.Manager.Keeps.{
  Keeps, finish_write-Keeps, read_state, promote-IsValid, rewritten-IsValid,
}
use mini_llmcache.Storage.{Storage, on_l1}
use mini_llmcache.Storage.Prefetch
use mini_llmcache.Storage.Keeps.{
  KeepsL1, release-KeepsL1, release_first-KeepsL1, end_session-KeepsL1,
}
use mini_llmcache.Server.{
  CacheServer, EngineInstance, on_sm, on_l1', writable, write_blob, store_chunks, store, retrieve,
  op_keys, hashed, lookup, lookup_keys, post_send, free_locks, end_session, deployment,
}

-- The cache of the server stays valid.
abbrev pub IsSound : CacheServer → Type 0
IsSound c = IsValid c.sm.l1

-- What follows a value that may be missing.
or_raise-IsSound :
    {A B : Type 0} (o : Option A) (e : Error) (f : A → Action CacheServer B) (c : CacheServer)
    → IsSound c
    → ((a : A) → o ≡ some a → IsSound (f a c).1)
    → IsSound ((or_raise o e >>= f) c).1
or_raise-IsSound none e f c sound h = sound
or_raise-IsSound (some a) e f c sound h = h a refl

hashed-IsSound :
    {B : Type 0} (o : Option (List ChunkKey)) (f : List ChunkKey → Action CacheServer B)
    (c : CacheServer)
    → IsSound c
    → ((keys : List ChunkKey) → o ≡ some keys → IsSound (f keys c).1)
    → IsSound ((hashed o >>= f) c).1
hashed-IsSound none f c sound h = sound
hashed-IsSound (some keys) f c sound h = h keys refl

on_sm-IsSound : {A : Type 0} (f : Action Storage A) → KeepsL1 f → Preserves IsSound (on_sm f)
on_sm-IsSound f h c sound = h c.sm sound

write_blob-Keeps : (w : ChunkKey × MemoryObj × Bytes) → Keeps (write_blob w)
unfolding write_blob write_obj
write_blob-Keeps (key, obj, blob) m valid = elim (Bool-cases (length blob == obj.nbytes)) [
  | inl fits ↦
      rw (fits, write_blob, write_obj)
        (rewritten-IsValid m (write_bytes m.allocator.pool obj.offset blob) valid)
  | inr differs ↦ rw (differs, write_blob, write_obj) valid
]

store_chunks-Keeps :
    (keys : List ChunkKey) (n : ℕ) (chunks : List Bytes)
    → Distinct key_dec keys
    → Keeps (store_chunks keys n chunks)
unfolding store_chunks
store_chunks-Keeps keys n chunks distinct m valid =
    let p = reserve_write keys n false m in
    let ws = writable keys chunks p.0 in
    Preserves-bind (for_each write_blob ws) (λ _. finish_write (map (λ w. w.0) ws))
      (Preserves-for_each write_blob ws write_blob-Keeps)
      (λ _. finish_write-Keeps (map (λ w. w.0) ws)) p.1
      (reserve_write-Reserves m keys n false valid distinct).valid

module _ (blake3 : Bytes → Bytes) where
  -- The keys of a store are distinct, as far as the server gets to know them.
  abbrev pub HasDistinctKeys : TransferPayload → CacheServer → Type 0
  HasDistinctKeys p c =
      (i : EngineInstance) (keys : List ChunkKey)
      → Dict.lookup ℕ_discrete p.instance_id c.instances ≡ some i
      → op_keys blake3 c.chunk_size p.op i ≡ some keys
      → Distinct key_dec keys

  -- The keys of an operation, and what is done with them.
  abbrev with_keys :
      {A : Type 0}
      → TransferPayload
      → (EngineInstance → List ChunkKey → Action CacheServer A)
      → EngineInstance
      → Action CacheServer A
  with_keys p body i = gets (λ c. op_keys blake3 c.chunk_size p.op i) >>= λ o. hashed o >>= body i

  with_keys-IsSound :
      {A : Type 0} (p : TransferPayload)
      (body : EngineInstance → List ChunkKey → Action CacheServer A) (c : CacheServer)
      → IsSound c
      → ((i : EngineInstance) (keys : List ChunkKey)
          → Dict.lookup ℕ_discrete p.instance_id c.instances ≡ some i
          → op_keys blake3 c.chunk_size p.op i ≡ some keys
          → IsSound (body i keys c).1)
      → IsSound
          ((or_raise (Dict.lookup ℕ_discrete p.instance_id c.instances) key_error
              >>= with_keys p body)
            c).1
  with_keys-IsSound p body c sound h =
      or_raise-IsSound (Dict.lookup ℕ_discrete p.instance_id c.instances) key_error
        (with_keys p body) c sound
        (λ i known.
          hashed-IsSound (op_keys blake3 c.chunk_size p.op i) (body i) c sound
            (λ keys asked. h i keys known asked))

  abbrev stored : TransferPayload → EngineInstance → List ChunkKey → Action CacheServer Bool
  stored p i keys = on_l1' (store_chunks keys i.chunk_nbytes p.chunks) >> pure true

  pub store-IsSound :
      (p : TransferPayload) (c : CacheServer)
      → HasDistinctKeys p c
      → IsSound c
      → IsSound (store blake3 p c).1
  unfolding store
  store-IsSound p c distinct sound = with_keys-IsSound p (stored p) c sound (λ i keys known asked.
      let f : Action L1Manager (Unit {0}) = store_chunks keys i.chunk_nbytes p.chunks in
      Preserves-bind (on_l1' f) (λ _. pure true)
        (on_sm-IsSound (on_l1 f) (λ s h.
          store_chunks-Keeps keys i.chunk_nbytes p.chunks (distinct i keys known asked) s.l1 h))
        (λ _ d h. h) c sound)

  read-Keeps : (keys : List ChunkKey) → Keeps (read keys)
  read-Keeps keys m valid = subst IsValid (sym (read_state keys m)) valid

  abbrev views_of :
      EngineInstance
      → List ChunkKey
      → List MemoryObj
      → Action CacheServer (List ChunkKey × List MemoryObj)
  views_of i keys objs = if i.world_size == 0 then raise zero_division_error else pure (keys, objs)

  abbrev retrieved :
      EngineInstance → List ChunkKey → Action CacheServer (List ChunkKey × List MemoryObj)
  retrieved i keys = on_l1' (read keys) >>= views_of i keys

  pub retrieve-IsSound : (p : TransferPayload) → Preserves IsSound (retrieve blake3 p)
  unfolding retrieve
  retrieve-IsSound p c sound = with_keys-IsSound p retrieved c sound (λ i keys known asked.
      Preserves-bind (on_l1' (read keys)) (views_of i keys)
        (on_sm-IsSound (on_l1 (read keys)) (λ s h. read-Keeps keys s.l1 h))
        (λ objs.
          Preserves-if (i.world_size == 0) (raise zero_division_error) (pure (keys, objs))
            (λ d h. h) (λ d h. h))
        c sound)

  pub lookup-IsSound : (p : LookupPayload) → Preserves IsSound (lookup blake3 p)
  unfolding lookup Prefetch.start_session
  lookup-IsSound p c sound =
      let n = Dict.lookup text_dec (deployment p.model p.world_size) c.deployments in
      let starts : List ChunkKey → Action CacheServer Bool = λ keys.
        modify (λ d. record d { sm = Prefetch.start_session p.request_id keys n d.sm })
        >> pure true in
      hashed-IsSound (lookup_keys blake3 c.chunk_size n p) starts c sound (λ keys known. sound)

pub post_send-IsSound : (id : Text) (keys : List ChunkKey) → Preserves IsSound (post_send id keys)
unfolding post_send
post_send-IsSound id keys =
    Preserves-bind (on_l1' (λ m. (ok tt, promote keys m)))
      (λ _. on_sm (Prefetch.release id (some keys))) (λ c h. promote-IsValid keys c.sm.l1 h)
      (λ _. on_sm-IsSound (Prefetch.release id (some keys)) (release-KeepsL1 id (some keys)))

pub free_locks-IsSound : (p : FreeLocksPayload) → Preserves IsSound (free_locks p)
unfolding free_locks
free_locks-IsSound p =
    let n = p.num_chunks * p.world_size in
    Preserves-bind (on_sm (Prefetch.release_first p.request_id n)) (λ _. pure true)
      (on_sm-IsSound (Prefetch.release_first p.request_id n) (release_first-KeepsL1 p.request_id n))
      (λ _ c h. h)

pub end_session-IsSound : (id : Text) → Preserves IsSound (end_session id)
unfolding end_session
end_session-IsSound id =
    Preserves-bind (on_sm (Prefetch.end_session id)) (λ _. pure true)
      (on_sm-IsSound (Prefetch.end_session id) (end_session-KeepsL1 id)) (λ _ c h. h)
