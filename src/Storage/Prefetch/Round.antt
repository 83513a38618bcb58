-- ===== src/Storage/Prefetch/Round.antt =====
-- A whole round of `prefetch` (mini_llmcache/l1/prefetch_controller.py) keeps the read counts right.
use mini_llmcache.Base.{
  ℕ, ◌≡◌, ◌≢◌, refl, ap, ◌∙◌, List, ◌++◌, All, none, some, true, false, arith, elem, Distinct,
  length, ok, >>=-ok, take, drop, ◌≤◌, get_elem?,
}
use mini_llmcache.Base.Dict.{lookup, contains}
use mini_llmcache.Protocol.{Text, text_dec, ChunkKey, key_dec}
use mini_llmcache.L1.Memory.{MemoryObj}
use mini_llmcache.L1.Manager.{can_read, hold, reserve_read_prefix}
use mini_llmcache.L1.Manager.Read.{IsReadable, IsPresent-of_readable, reserve_read_prefix-Finishes}
use mini_llmcache.L1.Manager.Write.{Finishes}
use mini_llmcache.Storage.{Storage, on_l1}
use mini_llmcache.Storage.Prefetch.{
  query, reserve_load, load_from_l2s, lookup_l2s, max_hits, prefetch_l2, prefetch,
}
use mini_llmcache.Storage.Prefetch.Locks.{IsCounted, keys_of}
use mini_llmcache.Storage.Prefetch.Fetch.{with_bytes}
use mini_llmcache.Storage.Prefetch.Hands.{HandsOver}
use mini_llmcache.L2.Loads.{LoadsBack}
use mini_llmcache.Storage.Prefetch.Counts.{held-IsCounted, elem-IsPresent}
use mini_llmcache.Storage.Prefetch.Steps.{prefetch_l2_lem}

-- The hits of the adapters for the keys behind the first `hits` ones.
abbrev pub hits_behind : List ChunkKey → ℕ → Storage → List ℕ
hits_behind keys hits s = lookup_l2s (drop hits keys) s.l2s

-- What `reserve_load` comes to when the first `hits` keys were found in L1.
abbrev pub reserved_behind :
    List ChunkKey → ℕ → ℕ → Storage → (List ChunkKey × List MemoryObj) × Storage
reserved_behind keys n hits s =
    reserve_load (take (max_hits (hits_behind keys hits s)) (drop hits keys)) n s

-- A whole round, from `s` to `s'`: the first `hits` keys can be read in L1 and the next one, if there
-- is one, cannot, and exactly these get a hold, which gives `s₁`; the loads of the keys that
-- `reserve_load` has locked there bring `count` of them; exactly these are handed over, and the
-- session holds the first `hits` keys and these, a prefix of the keys, and their numbers are
-- published.
pub record IsRound (id : Text) (keys : List ChunkKey) (n hits count : ℕ) (bytes : ℕ → ℕ)
    (s s₁ s' : Storage) : Type 0 where
  pub readable : All (IsReadable s.l1.entries) (take hits keys)
  pub bound : hits ≤ length keys
  pub next :
      (key : ChunkKey)
      → get_elem? keys hits ≡ some key
      → can_read (lookup key_dec key s.l1.entries) ≡ false
  pub first : on_l1 (reserve_read_prefix keys) s ≡ (ok hits, s₁)
  pub holds : Finishes hold s.l1 (take hits keys) s.l1.listeners s₁.l1
  pub loads :
      let (p, r) = reserved_behind keys n hits s₁ in
      load_from_l2s p.0 p.1 (hits_behind keys hits s₁) r ≡ (ok count, with_bytes bytes r)
  pub over : HandsOver (reserved_behind keys n hits s₁) count bytes s₁ s'
  pub published :
      query id s'
      ≡ some (length (take hits keys), length (take count (reserved_behind keys n hits s₁).0.0))
  pub owned : keys_of id s'.held ≡ take hits keys ++ take count (reserved_behind keys n hits s₁).0.0
  pub front : (rest : List ChunkKey) × (keys_of id s'.held ++ rest ≡ keys)

-- If every read count is the number of the sessions and steps in flight that hold the key, the keys
-- are distinct, loads into objects of the chunk size return, and the session waits and holds
-- nothing: a whole round of `prefetch` returns and keeps every read count the number of holders. It
-- takes a hold on the longest readable prefix of the keys; of the keys that `reserve_load` then
-- locks, exactly as many from the front as `load_from_l2s` says to be loaded become readable
-- temporary entries with one hold, each on the object that the loads were given for it; every other
-- key behind the prefix, the reserved ones that were not loaded included, stands as before the
-- loads, and the bytes are those that the loads left. The session then holds the prefix and the
-- loaded keys, together again a prefix of the keys, and their numbers are what `query` answers.
pub prefetch-IsCounted :
    (f : ChunkKey → ℕ) (id : Text) (keys : List ChunkKey) (n : ℕ) (s : Storage)
    → IsCounted f s
    → Distinct key_dec keys
    → All (LoadsBack n) s.l2s
    → contains text_dec id s.hits ≡ true
    → ((k : ChunkKey) → elem key_dec k (keys_of id s.held) ≡ false)
    → (hits count : ℕ) × (bytes : ℕ → ℕ) × (s₁ s' : Storage) × (prefetch id keys (some n) s
        ≡ (ok tt, s'))
      × IsCounted f s'
      × IsRound id keys n hits count bytes s s₁ s'
unfolding prefetch
prefetch-IsCounted f id keys n s c distinct loads waits free =
    let (hits, m₁, returned, readable, bound, next, fin) =
      reserve_read_prefix-Finishes s.l1 keys c.valid distinct in
    let s₁ = record s { l1 = m₁ } in
    let present = IsPresent-of_readable (take hits keys) s.l1.entries readable in
    let counted₁ =
      held-IsCounted f hold s (take hits keys) s.l1.listeners m₁ c (λ e. refl) present fin in
    let there : (k : ChunkKey)
        → elem key_dec k (take hits keys) ≡ true
        → lookup key_dec k m₁.entries ≢ none =
      λ k at gone. ground (
        arith,
        fin.changed k,
        at,
        gone,
        elem-IsPresent s.l1.entries (take hits keys) k present at,
      ) in
    let first : on_l1 (reserve_read_prefix keys) s ≡ (ok hits, s₁) =
      ap (λ p. (p.0, record s { l1 = p.1 })) returned in
    let (count, bytes, s', ended, counted, published, owned, fetched, over, front) =
      prefetch_l2_lem f id keys n hits s₁ counted₁ distinct loads there waits free in
    (
      hits,
      count,
      bytes,
      s₁,
      s',
      >>=-ok (on_l1 (reserve_read_prefix keys)) (λ l1_hits. prefetch_l2 id keys n l1_hits) s first
          ∙ ended,
      counted,
      record {
        readable = readable;
        bound = bound;
        next = next;
        first = first;
        holds = fin;
        loads = fetched;
        over = over;
        published = published;
        owned = owned;
        front = (front.0, ap (λ ks. ks ++ front.0) owned ∙ front.1);
      },
    )
