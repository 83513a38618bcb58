-- ===== src/Storage/Prefetch/Release.antt =====
-- Giving read locks back: `release`, `release_first` and `end_session` of
-- mini_llmcache/l1/prefetch_controller.py.
use mini_llmcache.Base.{
  ℕ, ◌+◌, ◌≡◌, refl, ap, ◌∙◌, List, [], ◌∷◌, Option, none, some, Bool, true, false, not, ◌&&◌, inl,
  inr, arith, ok, elem, Distinct, if◌then◌else◌, to_nat, take, Bool-cases, >>=-ok, is_some,
}
use mini_llmcache.Base.Int.{pos}
use mini_llmcache.Base.Dict.{
  insert, erase, contains, insert-IsDict, erase-IsDict, lookup-insert, lookup-erase_self,
}
use mini_llmcache.Protocol.{Text, text_dec, ChunkKey, key_dec}
use mini_llmcache.L1.Manager.{finish_read}
use mini_llmcache.L1.Manager.Read.{take-Distinct}
use mini_llmcache.Storage.{Storage, on_l1}
use mini_llmcache.Storage.Prefetch.{
  held_keys, released_keys, discard_all, take_released, repeats, give_released, release,
  release_first, forget, end_session,
}
use mini_llmcache.Storage.Prefetch.GiveBack.{give_back}
use mini_llmcache.Storage.Prefetch.Locks.{
  holders, IsCounted, plus, keys_of, elem-discard_all, discard_all-Distinct, elem-released_keys,
  released_keys-Distinct, holders-insert, holders-erase, insert-AreDistinct, erase-AreDistinct,
  keys_of-Distinct,
}

-- The keys that a call of `release` asks for.
abbrev pub asked : Option (List ChunkKey) → List ChunkKey → List ChunkKey
asked none held = held
asked (some keys) held = keys

repeats-Distinct : (keys : List ChunkKey) → Distinct key_dec keys → repeats keys ≡ false
unfolding repeats
repeats-Distinct [] h = refl
repeats-Distinct (k ∷ keys) h = ground (arith, repeats-Distinct keys h.1)

give_released_lem :
    (id : Text) (s s' : Storage) (released : List ChunkKey)
    → Distinct key_dec released
    → give_released id s (released, s') ≡ on_l1 (finish_read released) s'
unfolding give_released
give_released_lem id s s' released h = rw (repeats-Distinct released h) refl

module _ (in_flight : ChunkKey → ℕ) (id : Text) (keys : Option (List ChunkKey)) (s : Storage)
    (c : IsCounted in_flight s) (distinct : Distinct key_dec (asked keys (keys_of id s.held))) where
  pub taken : List ChunkKey
  taken = released_keys (asked keys (keys_of id s.held)) (keys_of id s.held)

  -- Moving keys from a session to the step in flight keeps the counts.
  moved :
      (k : ChunkKey)
      → holders k (insert text_dec id (discard_all taken (keys_of id s.held)) s.held)
          + to_nat (elem key_dec k taken)
        ≡ holders k s.held
  unfolding taken
  moved k = ground (
    arith,
    holders-insert k id (discard_all taken (keys_of id s.held)) s.held,
    elem-discard_all k taken (keys_of id s.held) (keys_of-Distinct id s.held c.distinct),
    elem-released_keys k (asked keys (keys_of id s.held)) (keys_of id s.held),
  )

  unfoldable pub after_taking : Storage
  unfolding taken
  after_taking =
      if contains text_dec id s.held
      then record s { held = insert text_dec id (discard_all taken (keys_of id s.held)) s.held }
      else s

  take_released_lem : take_released id keys s ≡ (taken, after_taking)
  unfolding take_released taken after_taking
  take_released_lem = by_keys keys
    where
      by_keys :
          (ks : Option (List ChunkKey))
          → let held = keys_of id s.held in
            let released = released_keys (elim ks [ none ↦ held | some l ↦ l ]) held in
            ◌≡◌ {A = List ChunkKey × Storage}
              (
                released,
                if contains text_dec id s.held
                    then record s { held = insert text_dec id (discard_all released held) s.held }
                    else s,
              )
              (
                released_keys (asked ks held) held,
                if contains text_dec id s.held
                    then record s {
                      held =
                          insert text_dec id
                            (discard_all (released_keys (asked ks held) held) held)
                            s.held;
                    }
                    else s,
              )
      by_keys none = refl
      by_keys (some l) = refl

  -- A session that is not there holds nothing.
  nothing_taken :
      contains text_dec id s.held ≡ false → (k : ChunkKey) → elem key_dec k taken ≡ false
  unfolding taken
  nothing_taken gone k =
      ground (arith, elem-released_keys k (asked keys (keys_of id s.held)) (keys_of id s.held))

  taken-IsCounted : IsCounted (plus in_flight taken) after_taking
  unfolding after_taking
  taken-IsCounted = elim (Bool-cases (contains text_dec id s.held)) [
    | inr gone ↦ rw gone (record {
      valid = c.valid;
      counted = λ k. c.counted k ∙ ap pos (rw (nothing_taken gone k) (omega arith));
      sessions = c.sessions;
      distinct = c.distinct;
    })
    | inl there ↦ rw there (record {
      valid = c.valid;
      counted = λ k. c.counted k ∙ ap pos (omega (arith, moved k));
      sessions =
          insert-IsDict text_dec id (discard_all taken (keys_of id s.held)) s.held c.sessions;
      distinct =
          insert-AreDistinct id (discard_all taken (keys_of id s.held)) s.held
            (discard_all-Distinct taken (keys_of id s.held) (keys_of-Distinct id s.held c.distinct))
            c.distinct;
    })
  ]

  taken-Distinct : Distinct key_dec taken
  unfolding taken
  taken-Distinct =
      released_keys-Distinct (asked keys (keys_of id s.held)) (keys_of id s.held) distinct

  taken_left :
      (k : ChunkKey)
      → elem key_dec k (keys_of id after_taking.held) ≡ (
          elem key_dec k (keys_of id s.held)
          && not (elem key_dec k (asked keys (keys_of id s.held))))
  unfolding after_taking taken
  taken_left k = elim (Bool-cases (contains text_dec id s.held)) [
    | inr gone ↦ rw gone (ground arith)
    | inl there ↦ rw there (
        ground (
          arith,
          lookup-insert text_dec id id (discard_all taken (keys_of id s.held)) s.held,
          elem-discard_all k taken (keys_of id s.held) (keys_of-Distinct id s.held c.distinct),
          elem-released_keys k (asked keys (keys_of id s.held)) (keys_of id s.held),
        ))
  ]

  taken_hits : after_taking.hits ≡ s.hits
  unfolding after_taking
  taken_hits = elim (Bool-cases (contains text_dec id s.held)) [
    | inr gone ↦ rw gone
    | inl there ↦ rw there
  ]

  -- If every read count is the number of the sessions and steps in flight that hold the key,
  -- `release` of distinct keys, or of all, returns, keeps this so, leaves to the session exactly
  -- the keys it held and that were not asked for, and does not touch the published hits.
  pub release-IsCounted :
      (s' : Storage) × (release id keys s ≡ (ok tt, s'))
      × IsCounted in_flight s'
      × ((k : ChunkKey)
          → elem key_dec k (keys_of id s'.held) ≡ (
              elem key_dec k (keys_of id s.held)
              && not (elem key_dec k (asked keys (keys_of id s.held)))))
      × (s'.hits ≡ s.hits)
  unfolding release
  release-IsCounted =
      let (s', returned, counted, held, hits) =
        give_back in_flight taken after_taking taken-IsCounted taken-Distinct in
      (
        s',
        ap (give_released id s) take_released_lem
            ∙ give_released_lem id s after_taking taken taken-Distinct
            ∙ returned,
        counted,
        λ k. ap (λ d. elem key_dec k (keys_of id d)) held ∙ taken_left k,
        hits ∙ taken_hits,
      )

-- If every read count is the number of the sessions and steps in flight that hold the key,
-- `release_first` gives back exactly the first `n` keys that the session holds, returns, and keeps
-- every read count the number of holders.
pub release_first-IsCounted :
    (in_flight : ChunkKey → ℕ) (id : Text) (n : ℕ) (s : Storage)
    → IsCounted in_flight s
    → (s' : Storage) × (release_first id n s ≡ (ok tt, s'))
      × IsCounted in_flight s'
      × ((k : ChunkKey)
          → elem key_dec k (keys_of id s'.held) ≡ (
              elem key_dec k (keys_of id s.held)
              && not (elem key_dec k (take n (keys_of id s.held)))))
      × (s'.hits ≡ s.hits)
unfolding release_first held_keys
release_first-IsCounted in_flight id n s c =
    release-IsCounted in_flight id (some (take n (keys_of id s.held))) s c
      (take-Distinct n (keys_of id s.held) (keys_of-Distinct id s.held c.distinct))

and_not_self : (b : Bool) → (b && not b) ≡ false
and_not_self true = refl
and_not_self false = refl

-- If every read count is the number of the sessions and steps in flight that hold the key,
-- `end_session` returns, forgets the session, both what it holds and its published hits, and every
-- read count is still such a number.
pub end_session-IsCounted :
    (in_flight : ChunkKey → ℕ) (id : Text) (s : Storage)
    → IsCounted in_flight s
    → (s' : Storage) × (end_session id s ≡ (ok tt, s'))
      × IsCounted in_flight s'
      × (contains text_dec id s'.held ≡ false)
      × (s'.hits ≡ erase text_dec id s.hits)
unfolding end_session forget
end_session-IsCounted in_flight id s c =
    let (t, returned, counted, held, hits) =
      release-IsCounted in_flight id none s c (keys_of-Distinct id s.held c.distinct) in
    (
      forget id t,
      >>=-ok (release id none) (λ _ u. (ok tt, forget id u)) s returned,
      record {
        valid = counted.valid;
        counted = λ k.
            counted.counted k
            ∙ ap pos (
                omega (
                  arith,
                  holders-erase k id t.held,
                  ap to_nat (held k ∙ and_not_self (elem key_dec k (keys_of id s.held))),
                ));
        sessions = erase-IsDict text_dec id t.held counted.sessions;
        distinct = erase-AreDistinct id t.held counted.distinct;
      },
      ap (λ o. is_some o) (lookup-erase_self text_dec id t.held counted.sessions),
      ap (erase text_dec id) hits,
    )
