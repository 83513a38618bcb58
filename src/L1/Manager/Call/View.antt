-- ===== src/L1/Manager/Call/View.antt =====
-- How the lock protocol sees the entries of mini_llmcache/l1/manager.py.
use mini_llmcache.Base.{
  ◌≡◌, refl, arith, List, Option, none, some, true, false, if◌then◌else◌, elem, Bool-cases, inl,
  inr,
}
use mini_llmcache.Base.Dict.{lookup}
use mini_llmcache.Protocol.{ChunkKey, key_dec}
use mini_llmcache.L1.Manager.{Entry, L1Manager, make_resident, unlock, hold}
use mini_llmcache.L1.Manager.Alter.{map_entry}
use mini_llmcache.L1.Manager.Call.Spec.{
  Lock, Locks, on_lock, end_write, start_read, start_read_if_free, is_free, At,
}

-- What the protocol sees of an entry.
abbrev pub lock_of : Option Entry → Option Lock
lock_of none = none
lock_of (some e) =
    some (record { writing = e.write_locked; readers = e.read_count; temporary = e.is_temporary })

abbrev pub view : L1Manager → Locks
view m j = lock_of (lookup key_dec j m.entries)

-- An equation on entries, seen by the protocol.
pub seen-At :
    (keys : List ChunkKey) (f : Option Entry → Option Entry) (g : Option Lock → Option Lock)
    (m m' : L1Manager)
    → ((j : ChunkKey)
        → lookup key_dec j m'.entries ≡ (
            if elem key_dec j keys
            then f (lookup key_dec j m.entries)
            else lookup key_dec j m.entries))
    → ((j : ChunkKey)
        → elem key_dec j keys ≡ true
        → lock_of (f (lookup key_dec j m.entries)) ≡ g (view m j))
    → At keys g (view m) (view m')
seen-At keys f g m m' h same j = elim (Bool-cases (elem key_dec j keys)) [
  | inl here ↦ rw (h j, here) (same j here)
  | inr there ↦ rw (h j, there) refl
]

pub unlock_seen : (o : Option Entry) → lock_of (map_entry unlock o) ≡ on_lock end_write (lock_of o)
unlock_seen none = refl
unlock_seen (some e) = refl

pub hand_over_seen :
    (o : Option Entry)
    → lock_of (map_entry (λ e. hold (unlock e)) o)
      ≡ on_lock (λ l. start_read (end_write l)) (lock_of o)
hand_over_seen none = refl
hand_over_seen (some e) = refl

pub resident_seen :
    (o : Option Entry)
    → lock_of (map_entry make_resident o)
      ≡ on_lock (λ l. record l { temporary = false }) (lock_of o)
resident_seen none = refl
resident_seen (some e) = refl

pub held_seen :
    (o : Option Entry)
    → is_free (lock_of o) ≡ true
    → lock_of (map_entry hold o) ≡ start_read_if_free (lock_of o)
held_seen none h = refl
held_seen (some e) h = ground arith
