-- ===== src/Storage/Prefetch/Resolve.antt =====
-- `resolve` of mini_llmcache/l1/prefetch_controller.py, and its race with `end_session`.
use mini_llmcache.Base.{
  ℕ, ◌≡◌, refl, ap, subst, sym, ◌∙◌, List, [], ◌∷◌, ◌++◌, none, some, Bool, true, false, not, ◌&&◌,
  arith, ok, elem, Distinct, to_nat, length, is_some,
}
use mini_llmcache.Base.Int.{pos}
use mini_llmcache.Base.Dict.{
  Dict, IsDict, insert, erase, contains, insert-IsDict, erase-IsDict, lookup-insert,
  lookup-erase_self,
}
use mini_llmcache.Base.Dict
use mini_llmcache.Protocol.{Text, text_dec, ChunkKey, key_dec}
use mini_llmcache.L1.Listener.{discard}
use mini_llmcache.Storage.{Storage}
use mini_llmcache.Storage.Prefetch.{unique, publish, resolve, query, release, forget}
use mini_llmcache.Storage.Prefetch.Locks.{
  IsCounted, plus, keys_of, holders-insert, holders-erase, insert-AreDistinct, erase-AreDistinct,
  keys_of-Distinct,
}
use mini_llmcache.Storage.Prefetch.GiveBack.{give_back}
use mini_llmcache.Storage.Prefetch.Release.{release-IsCounted}

discard_absent :
    (k : ChunkKey) (keys : List ChunkKey) → elem key_dec k keys ≡ false → discard k keys ≡ keys
unfolding discard
discard_absent k [] h = refl
discard_absent k (j ∷ keys) h = ground (arith, discard_absent k keys)

unique-Distinct : (keys : List ChunkKey) → Distinct key_dec keys → unique keys ≡ keys
unfolding unique
unique-Distinct [] h = refl
unique-Distinct (k ∷ keys) h =
    ap (◌∷◌ k) (ap (discard k) (unique-Distinct keys h.1) ∙ discard_absent k keys h.0)

module _ (in_flight : ChunkKey → ℕ) (id : Text) (l1_keys loaded_keys : List ChunkKey) (s : Storage)
    (c : IsCounted (plus in_flight (l1_keys ++ loaded_keys)) s)
    (distinct : Distinct key_dec (l1_keys ++ loaded_keys)) where
  -- Publishing hands the holds in flight over to the session.
  publish-IsCounted :
      ((k : ChunkKey) → elem key_dec k (keys_of id s.held) ≡ false)
      → IsCounted in_flight (publish id l1_keys loaded_keys s)
  unfolding publish
  publish-IsCounted free = rw (unique-Distinct (l1_keys ++ loaded_keys) distinct) (record {
    valid = c.valid;
    counted = λ k.
        c.counted k
        ∙ ap pos (
            omega (arith, holders-insert k id (l1_keys ++ loaded_keys) s.held, ap to_nat (free k)));
    sessions = insert-IsDict text_dec id (l1_keys ++ loaded_keys) s.held c.sessions;
    distinct = insert-AreDistinct id (l1_keys ++ loaded_keys) s.held distinct c.distinct;
  })

  publish_effect :
      (query id (publish id l1_keys loaded_keys s) ≡ some (length l1_keys, length loaded_keys))
      × (keys_of id (publish id l1_keys loaded_keys s).held ≡ l1_keys ++ loaded_keys)
  unfolding publish query
  publish_effect = rw (unique-Distinct (l1_keys ++ loaded_keys) distinct) (
    ground (arith, lookup-insert text_dec id id (some (length l1_keys, length loaded_keys)) s.hits),
    ground (arith, lookup-insert text_dec id id (l1_keys ++ loaded_keys) s.held),
  )

  -- If every read count is the number of the sessions and steps in flight that hold the key, and
  -- the keys are distinct: for a session that still waits and holds nothing, `resolve` hands the
  -- holds in flight over to it in the order of the keys, publishes their numbers to `query`, and
  -- keeps every read count the number of holders.
  pub resolve_waiting :
      contains text_dec id s.hits ≡ true
      → ((k : ChunkKey) → elem key_dec k (keys_of id s.held) ≡ false)
      → (s' : Storage) × (resolve id l1_keys loaded_keys s ≡ (ok tt, s'))
        × IsCounted in_flight s'
        × (query id s' ≡ some (length l1_keys, length loaded_keys))
        × (keys_of id s'.held ≡ l1_keys ++ loaded_keys)
  unfolding resolve
  resolve_waiting waits free = (
    publish id l1_keys loaded_keys s,
    rw waits,
    publish-IsCounted free,
    publish_effect.0,
    publish_effect.1,
  )

  -- If every read count is the number of the sessions and steps in flight that hold the key, and
  -- the keys are distinct: for a session that has ended before, `resolve` drops the holds in flight
  -- again: it returns, keeps every read count the number of holders, and changes no session.
  pub resolve_ended :
      contains text_dec id s.hits ≡ false
      → (s' : Storage) × (resolve id l1_keys loaded_keys s ≡ (ok tt, s'))
        × IsCounted in_flight s'
        × (s'.held ≡ s.held)
        × (s'.hits ≡ s.hits)
  unfolding resolve
  resolve_ended ended =
      let (s', returned, counted, held, hits) =
        give_back in_flight (l1_keys ++ loaded_keys) s c distinct in
      (s', rw ended returned, counted, held, hits)

-- A session that is forgotten takes its holds with it.
forget-IsCounted :
    (in_flight : ChunkKey → ℕ) (id : Text) (s : Storage)
    → IsCounted in_flight s
    → IsCounted (plus in_flight (keys_of id s.held)) (forget id s)
unfolding forget
forget-IsCounted in_flight id s c = record {
  valid = c.valid;
  counted = λ k. c.counted k ∙ ap pos (omega (arith, holders-erase k id s.held));
  sessions = erase-IsDict text_dec id s.held c.sessions;
  distinct = erase-AreDistinct id s.held c.distinct;
}

forgotten :
    (id : Text) (l1_keys loaded_keys : List ChunkKey) (s : Storage)
    → IsDict text_dec s.hits
    → IsDict text_dec s.held
    → let s' = forget id (publish id l1_keys loaded_keys s) in
      (contains text_dec id s'.hits ≡ false) × (contains text_dec id s'.held ≡ false)
unfolding forget publish
forgotten id l1_keys loaded_keys s hits held =
    let n : ℕ × ℕ = (length l1_keys, length loaded_keys) in
    (
      ap is_some (
          lookup-erase_self text_dec id (insert text_dec id (some n) s.hits)
            (insert-IsDict text_dec id (some n) s.hits hits)),
      ap is_some (
          lookup-erase_self text_dec id
            (insert text_dec id (unique (l1_keys ++ loaded_keys)) s.held)
            (insert-IsDict text_dec id (unique (l1_keys ++ loaded_keys)) s.held held)),
    )

and_not_self : (b : Bool) → (b && not b) ≡ false
and_not_self true = refl
and_not_self false = refl

-- If every read count is the number of the sessions and steps in flight that hold the key, and the
-- keys are distinct: if `resolve` runs between the two locked parts of `end_session`, for a waiting
-- session, both return, the session is gone, and the read counts still include one hold for each
-- key that `resolve` handed over, with no session that holds it.
pub race_leaks :
    (in_flight : ChunkKey → ℕ) (id : Text) (l1_keys loaded_keys : List ChunkKey) (s : Storage)
    → IsCounted (plus in_flight (l1_keys ++ loaded_keys)) s
    → Distinct key_dec (l1_keys ++ loaded_keys)
    → contains text_dec id s.hits ≡ true
    → IsDict text_dec s.hits
    → (t : Storage) × (release id none s ≡ (ok tt, t))
      × (resolve id l1_keys loaded_keys t ≡ (ok tt, publish id l1_keys loaded_keys t))
      × (let s' = forget id (publish id l1_keys loaded_keys t) in
          (contains text_dec id s'.hits ≡ false)
          × (contains text_dec id s'.held ≡ false)
          × IsCounted (plus in_flight (l1_keys ++ loaded_keys)) s')
unfolding resolve
race_leaks in_flight id l1_keys loaded_keys s c distinct waits hits_dict =
    let (t, returned, counted, held, hits) =
      release-IsCounted (plus in_flight (l1_keys ++ loaded_keys)) id none s c
        (keys_of-Distinct id s.held c.distinct) in
    let still : Dict.contains text_dec id t.hits ≡ true = ap (contains text_dec id) hits ∙ waits in
    let gone =
      forgotten id l1_keys loaded_keys t (subst (IsDict text_dec) (sym hits) hits_dict)
        counted.sessions in
    let published =
      publish-IsCounted in_flight id l1_keys loaded_keys t counted distinct
        (λ k. held k ∙ and_not_self (elem key_dec k (keys_of id s.held))) in
    let owned = (publish_effect in_flight id l1_keys loaded_keys t counted distinct).1 in
    (
      t,
      returned,
      rw still,
      (
        gone.0,
        gone.1,
        subst (λ ks. IsCounted (plus in_flight ks) (forget id (publish id l1_keys loaded_keys t)))
            owned (forget-IsCounted in_flight id (publish id l1_keys loaded_keys t) published),
      ),
    )
