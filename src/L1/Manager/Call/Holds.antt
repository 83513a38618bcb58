-- ===== src/L1/Manager/Call/Holds.antt =====
-- What the methods of mini_llmcache/l1/manager.py that take or drop read holds, and `delete`, do to the
-- locks.
use mini_llmcache.Base.{
  ◌≡◌, refl, ap, ◌∙◌, arith, List, [], ◌∷◌, All, Option, none, some, Bool, true, false, ◌&&◌,
  if◌then◌else◌, elem, Distinct, take,
}
use mini_llmcache.Base.Dict.{lookup}
use mini_llmcache.Protocol.{ChunkKey, key_dec}
use mini_llmcache.L1.Manager.{Entry, L1Manager, reserve_read, notify_some, can_read, hold}
use mini_llmcache.L1.Manager.Valid.{IsValid}
use mini_llmcache.L1.Manager.Alter.{map_entry}
use mini_llmcache.L1.Manager.Read.{
  IsReadable, reserve_read_prefix-Finishes, reserve_read_lem, hold_readable,
}
use mini_llmcache.L1.Manager.Release.{
  finish_read-drops, told-keeps, told, told-entries, kept_keys, spent_keys,
}
use mini_llmcache.L1.Manager.Unhold.{dropped}
use mini_llmcache.L1.Listener.{on_removed}
use mini_llmcache.L1.Manager.Delete.{delete-Deletes, doomed, doomed_keys}
use mini_llmcache.L1.Manager.Call.{
  reserves_read, reserves_read_prefix, finishes_read, deletes, call,
}
use mini_llmcache.L1.Manager.Call.Spec.{
  start_read_if_free, end_read, take_away, is_free, has_reader,
}
use mini_llmcache.L1.Manager.Call.Exclusive.{All-at}
use mini_llmcache.L1.Manager.Call.View.{lock_of, view, seen-At, held_seen}
use mini_llmcache.L1.Manager.Call.Does.{Does, IsPresent-reader}

dropped_seen :
    (o : Option Entry) → has_reader (lock_of o) ≡ true → lock_of (dropped o) ≡ end_read (lock_of o)
dropped_seen none h = refl
dropped_seen (some e) h = ground arith

pub finish_read-Does :
    (keys : List ChunkKey) (m : L1Manager)
    → IsValid m
    → Distinct key_dec keys
    → All (λ k. has_reader (view m k) ≡ true) keys
    → Does (finishes_read keys) m
unfolding call
finish_read-Does keys m valid distinct reading =
    let (m', returned, drops) =
      finish_read-drops keys m valid distinct (IsPresent-reader m keys reading) in
    let same = told-entries (kept_keys m.entries keys) (spent_keys m.entries keys) m' in
    rw returned (
      refl,
      seen-At keys dropped end_read m
          (told (kept_keys m.entries keys) (spent_keys m.entries keys) m')
          (λ j. ap (lookup key_dec j) same ∙ drops.entries j)
          (λ j here.
            dropped_seen (lookup key_dec j m.entries)
              (All-at has_reader (view m) j keys reading here)),
    )

doomed_seen :
    (force : Bool) (o : Option Entry)
    → lock_of (if doomed force o then none else o) ≡ take_away force (lock_of o)
doomed_seen force none = ground arith
doomed_seen true (some e) = ground arith
doomed_seen false (some e) = ground arith

pub delete-Does :
    (keys : List ChunkKey) (force : Bool) (m : L1Manager)
    → IsValid m
    → Distinct key_dec keys
    → Does (deletes keys force) m
unfolding call
delete-Does keys force m valid distinct =
    let (m', returned, gone) = delete-Deletes keys force m valid distinct in
    let told_keys = doomed_keys force m.entries keys in
    rw returned (
      refl,
      seen-At keys (λ o. if doomed force o then none else o) (take_away force) m
          (notify_some on_removed told_keys m')
          (λ j.
            ap (lookup key_dec j) (told-keeps on_removed told_keys m').0
            ∙ gone.entries j
            ∙ and_branches (elem key_dec j keys) (doomed force (lookup key_dec j m.entries)) none
                (lookup key_dec j m.entries))
          (λ j here. doomed_seen force (lookup key_dec j m.entries)),
    )
  where
    and_branches :
        (a b : Bool) (x y : Option Entry)
        → (if a && b then x else y) ≡ (if a then (if b then x else y) else y)
    and_branches true true x y = refl
    and_branches true false x y = refl
    and_branches false b x y = refl

reserve_read_seen : (o : Option Entry) → lock_of (hold_readable o) ≡ start_read_if_free (lock_of o)
reserve_read_seen none = refl
reserve_read_seen (some e) = ground arith

pub reserve_read_prefix-Does :
    (keys : List ChunkKey) (m : L1Manager)
    → IsValid m
    → Distinct key_dec keys
    → Does (reserves_read_prefix keys) m
unfolding call
reserve_read_prefix-Does keys m valid distinct =
    let (n, m', returned, all, bound, next, held) =
      reserve_read_prefix-Finishes m keys valid distinct in
    let free = readable_free (take n keys) m all in
    rw returned (
      refl,
      (
        n,
        free,
        λ k at. not_readable_free (lookup key_dec k m.entries) (next k at),
        seen-At (take n keys) (map_entry hold) start_read_if_free m m' held.changed (λ j here.
            held_seen (lookup key_dec j m.entries)
              (All-at is_free (view m) j (take n keys) free here)),
      ),
    )
  where
    not_readable_free : (o : Option Entry) → can_read o ≡ false → is_free (lock_of o) ≡ false
    not_readable_free none h = refl
    not_readable_free (some e) h = h

    readable_free :
        (ks : List ChunkKey) (s : L1Manager)
        → All (IsReadable s.entries) ks
        → All (λ k. is_free (view s k) ≡ true) ks
    readable_free [] s h = tt
    readable_free (k ∷ ks) s h = (ground (arith, h.0), readable_free ks s h.1)

pub reserve_read-Does :
    (keys : List ChunkKey) (m : L1Manager)
    → IsValid m
    → Distinct key_dec keys
    → Does (reserves_read keys) m
unfolding call
reserve_read-Does keys m valid distinct = (
  refl,
  seen-At keys hold_readable start_read_if_free m (reserve_read keys m).1
      (λ j. ((reserve_read_lem keys m valid distinct).1 j).1)
      (λ j here. reserve_read_seen (lookup key_dec j m.entries)),
)
