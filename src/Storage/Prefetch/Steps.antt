-- ===== src/Storage/Prefetch/Steps.antt =====
-- The steps of a round of `prefetch` (mini_llmcache/l1/prefetch_controller.py) that follow the read of
-- L1.
use mini_llmcache.Base.{
  ℕ, ◌≡◌, ◌≢◌, refl, ap, sym, subst, ◌∙◌, List, [], ◌∷◌, ◌++◌, All, none, some, true, false, arith,
  elem, Distinct, length, inl, inr, Bool-cases, ok, >>=-ok, take, drop, ◌>>◌, map,
}
use mini_llmcache.Base.Int.{pos}
use mini_llmcache.Base.Dict.{lookup, contains}
use mini_llmcache.Protocol.{Text, text_dec, ChunkKey, key_dec}
use mini_llmcache.L1.Memory.{MemoryObj}
use mini_llmcache.L1.Manager.{L1Manager, hold, unlock, finish_write_and_reserve_read, delete}
use mini_llmcache.L1.Manager.Alter.{IsPresent}
use mini_llmcache.L1.Manager.Read.{take-Distinct}
use mini_llmcache.L1.Manager.Write.{Finishes, finish_write_and_reserve_read-Finishes}
use mini_llmcache.L1.Manager.Keeps.{rewritten-IsValid}
use mini_llmcache.Storage.{Storage, on_l1}
use mini_llmcache.Storage.Prefetch.{
  query, resolve, publish, reserve_load, load_from_l2s, lookup_l2s, max_hits, prefetch_l2,
}
use mini_llmcache.Storage.Prefetch.Locks.{hold_count, IsCounted, plus, keys_of}
use mini_llmcache.Storage.Prefetch.Resolve.{resolve_waiting}
use mini_llmcache.Storage.Prefetch.Load.{ReservesLoad, reserve_load-ReservesLoad}
use mini_llmcache.Base.Cuts.{
  drop-Distinct, elem-cut, elem-of_take, elem-of_drop, append-Distinct, to_nat-append,
}
use mini_llmcache.Storage.Prefetch.Fetch.{with_bytes, load_from_l2s-Fetches}
use mini_llmcache.Storage.Prefetch.Hands.{HandsOver, hands_over, held_front}
use mini_llmcache.L1.Listener.{deliver, on_created}
use mini_llmcache.L2.Loads.{LoadsBack}
use mini_llmcache.Storage.Prefetch.Counts.{recounted, held-IsCounted, dropped-IsCounted}

-- Publishing for a session that waits touches the sessions only.
resolve-l1 :
    (id : Text) (l1_keys loaded_keys : List ChunkKey) (s : Storage)
    → contains text_dec id s.hits ≡ true
    → (resolve id l1_keys loaded_keys s).1.l1 ≡ s.l1
unfolding resolve publish
resolve-l1 id l1_keys loaded_keys s waits = rw waits refl

-- The parts of a round for a session that waits and holds nothing, from the keys in L1 on.
module _ (f : ChunkKey → ℕ) (id : Text) (keys : List ChunkKey) (n hits : ℕ) (s : Storage)
    (c : IsCounted (plus f (take hits keys)) s) (distinct : Distinct key_dec keys)
    (loads : All (LoadsBack n) s.l2s)
    (here : (k : ChunkKey)
      → elem key_dec k (take hits keys) ≡ true
      → lookup key_dec k s.l1.entries ≢ none) where
  abbrev pub l2_hits : List ℕ
  l2_hits = lookup_l2s (drop hits keys) s.l2s

  abbrev pub wanted : List ChunkKey
  wanted = take (max_hits l2_hits) (drop hits keys)

  abbrev pub reserved : (List ChunkKey × List MemoryObj) × Storage
  reserved = reserve_load wanted n s

  did : ReservesLoad n wanted s reserved
  did =
      reserve_load-ReservesLoad n wanted s c.valid (
        take-Distinct (max_hits l2_hits) (drop hits keys)
          (drop-Distinct key_dec hits keys distinct))

  reserved-IsCounted : IsCounted (plus f (take hits keys)) reserved.1
  reserved-IsCounted = recounted (plus f (take hits keys)) s reserved.1 c did.valid did.same.0 (λ k.
      elim (Bool-cases (elem key_dec k reserved.0.0)) [
        | inl placed ↦ let place = did.placed k placed in rw (place.0, place.1.1) refl
        | inr other ↦ ap hold_count (did.kept k other)
      ])

  -- What is left of a round once the loads have come back.
  module _ (bytes : ℕ → ℕ) (loaded : ℕ) where
    abbrev filled : Storage
    filled = with_bytes bytes reserved.1

    abbrev kept : List ChunkKey
    kept = take loaded reserved.0.0

    abbrev dropped : List ChunkKey
    dropped = drop loaded reserved.0.0

    filled-IsCounted : IsCounted (plus f (take hits keys)) filled
    filled-IsCounted =
        recounted (plus f (take hits keys)) reserved.1 filled reserved-IsCounted
          (rewritten-IsValid reserved.1.l1 bytes did.valid) refl (λ k. refl)

    placed_all :
        (ks : List ChunkKey)
        → ((k : ChunkKey) → elem key_dec k ks ≡ true → elem key_dec k reserved.0.0 ≡ true)
        → All (IsPresent reserved.1.l1.entries) ks
    placed_all [] h = tt
    placed_all (k ∷ ks) h = (
      (let place = did.placed k (h k (ground arith)) in rw (place.1.1) refl),
      placed_all ks (λ j at. h j (ground (arith, at))),
    )

    kept-Distinct : Distinct key_dec kept
    kept-Distinct = take-Distinct loaded reserved.0.0 did.distinct

    apart : (k : ChunkKey) → elem key_dec k (take hits keys) ≡ true → elem key_dec k kept ≡ false
    apart k first = elim (Bool-cases (elem key_dec k kept)) [
      | inl both ↦
          absurd (here k first (did.placed k (elem-of_take key_dec k loaded reserved.0.0 both)).0)
      | inr only ↦ only
    ]

    finished :
        (m₄ : L1Manager) × (finish_write_and_reserve_read kept filled.l1 ≡ (ok tt, m₄))
        × IsCounted (plus (plus f (take hits keys)) kept) (record filled { l1 = m₄ })
        × Finishes
            (λ e. hold (unlock e))
            filled.l1
            kept
            (map (deliver on_created kept) filled.l1.listeners)
            m₄
    finished =
        let present = placed_all kept (λ k at. elem-of_take key_dec k loaded reserved.0.0 at) in
        let (m₄, returned, fin) =
          finish_write_and_reserve_read-Finishes filled.l1 kept filled-IsCounted.valid kept-Distinct
            present in
        (
          m₄,
          returned,
          held-IsCounted (plus f (take hits keys)) (λ e. hold (unlock e)) filled kept _ m₄
              filled-IsCounted (λ e. refl) present fin,
          fin,
        )

    -- The holds on the keys from L1 and on the loaded ones go to the session.
    rest_lem :
        contains text_dec id s.hits ≡ true
        → ((k : ChunkKey) → elem key_dec k (keys_of id s.held) ≡ false)
        → (s' : Storage) × ((on_l1 (finish_write_and_reserve_read kept)
                >> (on_l1 (delete dropped true) >> resolve id (take hits keys) kept))
              filled
            ≡ (ok tt, s'))
          × IsCounted f s'
          × (query id s' ≡ some (length (take hits keys), length kept))
          × (keys_of id s'.held ≡ take hits keys ++ kept)
          × HandsOver reserved loaded bytes s s'
    rest_lem waits free =
        let (m₄, returned, counted, fin) = finished in
        let s₄ = record filled { l1 = m₄ } in
        let (count, m₅, deleted, counted', left, pool) =
          dropped-IsCounted (plus (plus f (take hits keys)) kept) s₄ dropped counted
            (drop-Distinct key_dec loaded reserved.0.0 did.distinct)
            (λ k at.
              let place = did.placed k (elem-of_drop key_dec k loaded reserved.0.0 at) in
              let out = elem-cut key_dec k loaded reserved.0.0 did.distinct at in
              rw (fin.changed k, out, place.1.1) refl) in
        let s₅ = record filled { l1 = m₅ } in
        let together : IsCounted (plus f (take hits keys ++ kept)) s₅ = record {
          valid = counted'.valid;
          counted = λ k.
              counted'.counted k
              ∙ ap pos (omega (arith, to_nat-append key_dec k (take hits keys) kept (apart k)));
          sessions = counted'.sessions;
          distinct = counted'.distinct;
        } in
        let (s', resolved, final, published, owned) =
          resolve_waiting f id (take hits keys) kept s₅ together
            (append-Distinct key_dec (take hits keys) kept (take-Distinct hits keys distinct)
              kept-Distinct apart)
            (ap (contains text_dec id) did.same.1 ∙ waits)
            (λ k. ap (λ h. elem key_dec k (keys_of id h)) did.same.0 ∙ free k) in
        let same : s'.l1 ≡ m₅ =
          sym (ap (λ r. r.1.l1) resolved)
          ∙ resolve-l1 id (take hits keys) kept s₅ (ap (contains text_dec id) did.same.1 ∙ waits) in
        (
          s',
          >>=-ok (on_l1 (finish_write_and_reserve_read kept))
                (λ _. on_l1 (delete dropped true) >> resolve id (take hits keys) kept) filled
                (ap (λ p. (p.0, record filled { l1 = p.1 })) returned)
              ∙ >>=-ok (on_l1 (delete dropped true)) (λ _. resolve id (take hits keys) kept) s₄
                  (ap (λ p. (p.0, record filled { l1 = p.1 })) deleted)
              ∙ resolved,
          final,
          published,
          owned,
          hands_over n loaded wanted s s' reserved did m₄ fin.changed
              (λ k. ap (λ m. lookup key_dec k m.entries) same ∙ left k) bytes
              (ap (λ m. m.allocator.pool) same ∙ pool ∙ ap (λ a. a.pool) fin.allocator),
        )

  pub prefetch_l2_lem :
      contains text_dec id s.hits ≡ true
      → ((k : ChunkKey) → elem key_dec k (keys_of id s.held) ≡ false)
      → (count : ℕ) × (bytes : ℕ → ℕ) × (s' : Storage) × (prefetch_l2 id keys n hits s
          ≡ (ok tt, s'))
        × IsCounted f s'
        × (query id s' ≡ some (length (take hits keys), length (take count reserved.0.0)))
        × (keys_of id s'.held ≡ take hits keys ++ take count reserved.0.0)
        × (load_from_l2s reserved.0.0 reserved.0.1 l2_hits reserved.1
            ≡ (ok count, with_bytes bytes reserved.1))
        × HandsOver reserved count bytes s s'
        × ((rest : List ChunkKey) × ((take hits keys ++ take count reserved.0.0) ++ rest ≡ keys))
  unfolding prefetch_l2
  prefetch_l2_lem waits free =
      let (count, bytes, returned) =
        load_from_l2s-Fetches n reserved.0.0 reserved.0.1 l2_hits reserved.1
          (subst (All (LoadsBack n)) (sym did.same.2) loads) did.sized in
      let (s', ended, counted, published, owned, over) = rest_lem bytes count waits free in
      (
        count,
        bytes,
        s',
        >>=-ok (load_from_l2s reserved.0.0 reserved.0.1 l2_hits)
              (λ loaded.
                on_l1 (finish_write_and_reserve_read (take loaded reserved.0.0))
                >> (on_l1 (delete (drop loaded reserved.0.0) true)
                    >> resolve id (take hits keys) (take loaded reserved.0.0)))
              reserved.1 returned
            ∙ ended,
        counted,
        published,
        owned,
        returned,
        over,
        held_front hits (max_hits l2_hits) count keys reserved.0.0 did.front,
      )
