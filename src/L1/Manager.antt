-- ===== src/L1/Manager.antt =====
-- mini_llmcache/l1/manager.py: the cache entries and the lock protocol. Each method holds the
-- manager's lock from beginning to end, so it is one step on the manager's state.
pub mod Valid
pub mod Alter
pub mod Place
pub mod Write
pub mod Read
pub mod Drop
pub mod Unhold
pub mod Release
pub mod Delete
pub mod Keeps
pub mod Call
use mini_llmcache.Base.{
  ℕ, zero, suc, List, [], ◌∷◌, ◌++◌, map, Option, none, some, Bool, true, false, not, ◌&&◌, ◌||◌,
  if◌then◌else◌, length, take, Outcome, ok, raised, Action, key_error, pure, raise, or_raise, gets,
  modify, for_each, ◌>>=◌, ◌>>◌, is_some,
}
use mini_llmcache.Base.Int.{ℤ, add, sub, is_zero}
use mini_llmcache.Base.Dict.{Dict, lookup, contains, insert, erase}
use mini_llmcache.Protocol.{ChunkKey, key_dec}
use mini_llmcache.L1.Memory.{MemoryObj, PoolAllocator, allocate}
use mini_llmcache.L1.Memory
use mini_llmcache.L1.Listener.{
  Event, Listener, deliver, on_created, on_write_finished, on_touched, on_removed,
}

pub record Entry : Type 0 where
  pub obj : MemoryObj
  pub write_locked : Bool
  pub read_count : ℤ
  pub is_temporary : Bool

abbrev pub readable : Entry → Bool
readable e = not e.write_locked

abbrev pub unlocked : Entry → Bool
unlocked e = not e.write_locked && is_zero e.read_count

pub record L1Manager : Type 0 where
  pub allocator : PoolAllocator
  pub entries : Dict ChunkKey Entry
  pub listeners : List Listener

unfoldable pub init : PoolAllocator → L1Manager
init allocator = record { allocator = allocator; entries = []; listeners = [] }

unfoldable pub register_listener : Listener → L1Manager → L1Manager
register_listener l m = record m { listeners = m.listeners ++ (l ∷ []) }

unfoldable pub notify : Event → List ChunkKey → L1Manager → L1Manager
notify event keys m = record m { listeners = map (deliver event keys) m.listeners }

-- `self.entries[key]`, and what the callers do with the entry that they get.
unfoldable pub alter : (Entry → Entry) → ChunkKey → Action L1Manager (Unit {0})
alter f key = do
  entry ← or_raise (← gets (λ m. lookup key_dec key m.entries)) key_error
  modify (λ m. record m { entries = insert key_dec key (f entry) m.entries })

abbrev pub Reserved : Type 0
Reserved = Dict ChunkKey (Option MemoryObj)

-- `dict.fromkeys(keys)`
unfoldable pub from_keys : List ChunkKey → Reserved → Reserved
from_keys [] result = result
from_keys (key ∷ keys) result = from_keys keys (insert key_dec key none result)

unfoldable pub missing_keys : List ChunkKey → Dict ChunkKey Entry → List ChunkKey
missing_keys [] entries = []
missing_keys (key ∷ keys) entries =
    if contains key_dec key entries
    then missing_keys keys entries
    else key ∷ missing_keys keys entries

-- The loop of `reserve_write` over `zip(missing, objs)`.
unfoldable pub place :
    Bool
    → List ChunkKey
    → List MemoryObj
    → Dict ChunkKey Entry × Reserved
    → Dict ChunkKey Entry × Reserved
place temp (key ∷ missing) (obj ∷ objs) (entries, result) = place temp missing objs (
  insert key_dec key
      (record { obj = obj; write_locked = true; read_count = ℤ.pos 0; is_temporary = temp })
      entries,
  insert key_dec key (some obj) result,
)
place temp [] objs acc = acc
place temp (key ∷ missing) [] acc = acc

-- The end of `reserve_write`, on the allocator's answer.
unfoldable pub grant :
    Bool
    → List ChunkKey
    → Reserved
    → L1Manager
    → Option (List MemoryObj) × PoolAllocator
    → Reserved × L1Manager
grant temp missing result m (none, allocator) = (result, record m { allocator = allocator })
grant temp missing result m (some objs, allocator) =
    let (entries, result') = place temp missing objs (m.entries, result) in
    (result', record m { allocator = allocator; entries = entries })

unfoldable pub reserve_write : List ChunkKey → ℕ → Bool → L1Manager → Reserved × L1Manager
unfolding grant
reserve_write keys chunk_nbytes is_temporary m =
    let missing = missing_keys keys m.entries in
    grant is_temporary missing (from_keys keys []) m
      (allocate m.allocator (length missing) chunk_nbytes)

abbrev pub unlock : Entry → Entry
unlock e = record e { write_locked = false }

abbrev pub hold : Entry → Entry
hold e = record e { read_count = add e.read_count 1 }

unfoldable pub finish_write : List ChunkKey → Action L1Manager (Unit {0})
unfolding notify
finish_write keys = do
  for_each (alter unlock) keys
  modify (notify on_created keys)
  modify (notify on_write_finished keys)

unfoldable pub finish_write_and_reserve_read : List ChunkKey → Action L1Manager (Unit {0})
unfolding notify
finish_write_and_reserve_read keys = do
  for_each (alter (λ e. hold (unlock e))) keys
  modify (notify on_created keys)

-- One round of `reserve_read`: the object, if the key can be read, and the entries.
unfoldable pub take_hold : ChunkKey → Dict ChunkKey Entry → Option MemoryObj × Dict ChunkKey Entry
take_hold key entries = elim (lookup key_dec key entries) [
  | none ↦ (none, entries)
  | some entry ↦
      if not (readable entry)
      then (none, entries)
      else (some entry.obj, insert key_dec key (hold entry) entries)
]

unfoldable pub reserve_read_loop :
    List ChunkKey → Reserved → Dict ChunkKey Entry → Reserved × Dict ChunkKey Entry
reserve_read_loop [] result entries = (result, entries)
reserve_read_loop (key ∷ keys) result entries =
    let (obj, entries') = take_hold key entries in
    reserve_read_loop keys (insert key_dec key obj result) entries'

unfoldable pub reserve_read : List ChunkKey → L1Manager → Reserved × L1Manager
reserve_read keys m =
    let (result, entries) = reserve_read_loop keys [] m.entries in
    (result, record m { entries = entries })

-- `entry is not None and entry.readable()`
abbrev pub can_read : Option Entry → Bool
can_read none = false
can_read (some e) = readable e

-- The first loop of `reserve_read_prefix`.
unfoldable pub prefix_hits : List ChunkKey → Dict ChunkKey Entry → ℕ
prefix_hits [] entries = 0
prefix_hits (key ∷ keys) entries =
    if can_read (lookup key_dec key entries) then suc (prefix_hits keys entries) else 0

unfoldable pub reserve_read_prefix : List ChunkKey → Action L1Manager ℕ
reserve_read_prefix keys = do
  hit ← gets (λ m. prefix_hits keys m.entries)
  for_each (alter hold) (take hit keys)
  pure hit

-- `[self.entries[key].obj for key in keys]`
unfoldable pub read : List ChunkKey → Action L1Manager (List MemoryObj)
read [] = pure []
read (key ∷ keys) = do
  entry ← or_raise (← gets (λ m. lookup key_dec key m.entries)) key_error
  objs ← read keys
  pure (entry.obj ∷ objs)

-- `self.allocator.free([obj])`
unfoldable pub release_obj : MemoryObj → Action L1Manager (Unit {0})
release_obj obj m =
    let (r, allocator) = Memory.free (obj ∷ []) m.allocator in
    (r, record m { allocator = allocator })

-- `free`, then `del self.entries[key]`.
unfoldable pub drop_entry : ChunkKey → Entry → Action L1Manager (Unit {0})
unfolding release_obj
drop_entry key entry = do
  release_obj entry.obj
  modify (λ m. record m { entries = erase key_dec key m.entries })

abbrev pub unhold : Entry → Entry
unhold e = record e { read_count = sub e.read_count 1 }

-- The entry is freed once it has been unheld.
abbrev pub is_spent : Entry → Bool
is_spent e = is_zero e.read_count && e.is_temporary

-- One round of `finish_read`; the answer is whether the entry was freed.
unfoldable pub drop_hold : ChunkKey → Action L1Manager Bool
unfolding drop_entry
drop_hold key = do
  entry ← or_raise (← gets (λ m. lookup key_dec key m.entries)) key_error
  modify (λ m. record m { entries = insert key_dec key (unhold entry) m.entries })
  if is_spent (unhold entry) then (drop_entry key (unhold entry) >> pure true) else pure false

-- The loop of `finish_read`: the keys freed and the keys touched.
unfoldable pub drop_holds :
    List ChunkKey → List ChunkKey → List ChunkKey → Action L1Manager (List ChunkKey × List ChunkKey)
drop_holds [] freed touched = pure (freed, touched)
drop_holds (key ∷ keys) freed touched = do
  spent ← drop_hold key
  drop_holds keys (if spent then freed ++ (key ∷ []) else freed)
      (if spent then touched else touched ++ (key ∷ []))

-- `if keys: self.notify(event, keys)`
unfoldable pub notify_some : Event → List ChunkKey → L1Manager → L1Manager
unfolding notify
notify_some event [] m = m
notify_some event (key ∷ keys) m = notify event (key ∷ keys) m

unfoldable pub finish_read : List ChunkKey → Action L1Manager (Unit {0})
unfolding notify_some
finish_read keys = do
  (freed, touched) ← drop_holds keys [] []
  modify (notify_some on_touched touched)
  modify (notify_some on_removed freed)

abbrev pub make_resident : Entry → Entry
make_resident e = record e { is_temporary = false }

-- `promote`: unlike `self.entries[key]`, a key that is absent is passed over.
unfoldable pub promote : List ChunkKey → L1Manager → L1Manager
promote [] m = m
promote (key ∷ keys) m = elim (lookup key_dec key m.entries) [
  | none ↦ promote keys m
  | some entry ↦
      promote keys (record m { entries = insert key_dec key (make_resident entry) m.entries })
]

unfoldable pub is_evictable : L1Manager → ChunkKey → Bool
is_evictable m key = elim (lookup key_dec key m.entries) [ none ↦ false | some e ↦ unlocked e ]

-- The test of `delete`, the other way round: whether the round goes on to free the entry.
unfoldable pub deletable : Bool → Option Entry → Bool
deletable force none = false
deletable force (some e) = unlocked e || force

-- One round of `delete`: the keys deleted, which are this one or none.
unfoldable pub delete_one : Bool → ChunkKey → Action L1Manager (List ChunkKey)
unfolding drop_entry deletable
delete_one force key = do
  found ← gets (λ m. lookup key_dec key m.entries)
  if deletable force found
      then (do entry ← or_raise found key_error; drop_entry key entry; pure (key ∷ []))
      else pure []

unfoldable pub delete_loop : Bool → List ChunkKey → Action L1Manager (List ChunkKey)
unfolding delete_one
delete_loop force [] = pure []
delete_loop force (key ∷ keys) = do
  deleted ← delete_one force key
  more ← delete_loop force keys
  pure (deleted ++ more)

unfoldable pub delete : List ChunkKey → Bool → Action L1Manager ℕ
unfolding delete_loop notify_some
delete keys force = do
  deleted ← delete_loop force keys
  modify (notify_some on_removed deleted)
  pure (length deleted)

unfoldable pub usage : L1Manager → ℤ × ℕ
usage m = Memory.usage m.allocator
