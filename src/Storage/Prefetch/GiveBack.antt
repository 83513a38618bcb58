-- ===== src/Storage/Prefetch/GiveBack.antt =====
-- Holds in flight that are given back, as `release` and `resolve` of
-- mini_llmcache/l1/prefetch_controller.py do.
use mini_llmcache.Base.{
  ℕ, suc, ◌+◌, ◌≡◌, refl, ap, sym, ◌∙◌, List, [], ◌∷◌, All, Option, none, some, true, inl, inr,
  arith, ok, elem, Distinct, Bool-cases,
}
use mini_llmcache.Base.Int.{pos}
use mini_llmcache.Base.Dict.{
  insert, erase, contains, insert-IsDict, erase-IsDict, lookup-insert, lookup-erase_self,
}
use mini_llmcache.Base.Dict
use mini_llmcache.Protocol.{ChunkKey, key_dec}
use mini_llmcache.L1.Listener.{Event, on_touched, on_removed}
use mini_llmcache.L1.Manager.{Entry, L1Manager, finish_read, notify_some}
use mini_llmcache.L1.Manager.Valid.{IsValid}
use mini_llmcache.L1.Manager.Alter.{IsPresent}
use mini_llmcache.L1.Manager.Unhold.{dropped}
use mini_llmcache.L1.Manager.Release.{
  told-entries, told, told-keeps, finish_read-drops, kept_keys, spent_keys,
}
use mini_llmcache.Storage.{Storage, on_l1}
use mini_llmcache.Storage.Prefetch.Locks.{hold_count, holders, IsCounted, plus}

-- Dropping a hold lowers the count by one, also if the entry goes with it.
hold_count-dropped :
    (o : Option Entry) (n : ℕ) → hold_count o ≡ pos (suc n) → hold_count (dropped o) ≡ pos n
hold_count-dropped none n h = ground arith
hold_count-dropped (some e) n h = ground arith

held_present : (o : Option Entry) (n : ℕ) → hold_count o ≡ pos (suc n) → (e : Entry) × (o ≡ some e)
held_present none n h = absurd (ground arith)
held_present (some e) n h = (e, refl)

pub told_once-IsValid :
    (event : Event) (keys : List ChunkKey) (m : L1Manager)
    → IsValid m
    → IsValid (notify_some event keys m)
told_once-IsValid event keys m valid =
    let (same_entries, same_allocator) = told-keeps event keys m in
    record {
      pool = rw (same_entries, same_allocator) valid.pool;
      dict = rw same_entries valid.dict;
    }

told-IsValid :
    (touched freed : List ChunkKey) (m : L1Manager) → IsValid m → IsValid (told touched freed m)
told-IsValid touched freed m valid =
    told_once-IsValid on_removed freed (notify_some on_touched touched m)
      (told_once-IsValid on_touched touched m valid)

module _ (in_flight : ChunkKey → ℕ) (keys : List ChunkKey) (s : Storage)
    (c : IsCounted (plus in_flight keys) s) (distinct : Distinct key_dec keys) where
  flying_present :
      (k : ChunkKey)
      → elem key_dec k keys ≡ true
      → (n : ℕ) × (in_flight k + holders k s.held ≡ n)
        × (hold_count (Dict.lookup key_dec k s.l1.entries) ≡ pos (suc n))
  flying_present k h =
      (in_flight k + holders k s.held, refl, c.counted k ∙ ap pos (rw h (omega arith)))

  All-IsPresent :
      (ks : List ChunkKey)
      → ((k : ChunkKey) → elem key_dec k ks ≡ true → elem key_dec k keys ≡ true)
      → All (IsPresent s.l1.entries) ks
  All-IsPresent [] sub = tt
  All-IsPresent (k ∷ ks) sub =
      let (n, e, counted) = flying_present k (sub k (ground arith)) in
      let (entry, found) = held_present (Dict.lookup key_dec k s.l1.entries) n counted in
      (rw found refl, All-IsPresent ks (λ j h. sub j (ground arith)))

  -- A step in flight that holds the keys gives them back by `finish_read`: it returns.
  pub give_back :
      (s' : Storage) × (on_l1 (finish_read keys) s ≡ (ok tt, s'))
      × IsCounted in_flight s'
      × (s'.held ≡ s.held)
      × (s'.hits ≡ s.hits)
  give_back =
      let (m, returned, drops) =
        finish_read-drops keys s.l1 c.valid distinct (All-IsPresent keys (λ k h. h)) in
      let m' = told (kept_keys s.l1.entries keys) (spent_keys s.l1.entries keys) m in
      (
        record s { l1 = m' },
        ap (λ p. (p.0, record s { l1 = p.1 })) returned,
        record {
          valid = told-IsValid _ _ m drops.valid;
          counted = λ k. elim (Bool-cases (elem key_dec k keys)) [
            | inl flying ↦
                let (n, e, counted) = flying_present k flying in
                rw (told-entries _ _ m, drops.entries k, flying)
                  (hold_count-dropped (Dict.lookup key_dec k s.l1.entries) n counted
                    ∙ ap pos (sym e))
            | inr other ↦
                rw (told-entries _ _ m, drops.entries k, other)
                  (c.counted k ∙ ap pos (rw other (omega arith)))
          ];
          sessions = c.sessions;
          distinct = c.distinct;
        },
        refl,
        refl,
      )
