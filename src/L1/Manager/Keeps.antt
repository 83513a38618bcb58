-- ===== src/L1/Manager/Keeps.antt =====
-- The methods of mini_llmcache/l1/manager.py keep the invariant on every branch: also where they
-- raise, and whatever keys they are given.
use mini_llmcache.Base.{
  ℕ, Preserves, Preserves-bind, Preserves-for_each, carried, ◌≡◌, refl, List, [], ◌∷◌, ◌++◌, some,
  Bool, true, ok, raised, Outcome, Action, pure, modify, for_each, ◌>>=◌, ◌>>◌, Option-cases,
  Bool-cases, inl, inr, take, length, if◌then◌else◌, ap, sym, ◌∙◌, >>=-ok,
}
use mini_llmcache.Base.Dict.{lookup, insert, insert-IsDict}
use mini_llmcache.Protocol.{ChunkKey, key_dec}
use mini_llmcache.L1.Listener.{
  Event, Listener, on_created, on_write_finished, on_touched, on_removed,
}
use mini_llmcache.L1.Manager.{
  Entry, L1Manager, alter, notify, notify_some, finish_write, finish_write_and_reserve_read, unlock,
  hold, reserve_read_prefix, prefix_hits, drop_hold, drop_holds, finish_read, promote,
  make_resident, deletable, delete_one, delete_loop, delete, drop_entry, read, register_listener,
}
use mini_llmcache.L1.Manager.Valid.{IsValid, objs-insert_same}
use mini_llmcache.L1.Manager.Drop.{drop_entry-Drops}
use mini_llmcache.L1.Manager.Unhold.{drop_hold-DropsHold}

-- Whatever the outcome, the manager stays valid.
abbrev pub Keeps : {A : Type 0} → Action L1Manager A → Type 0
Keeps f = Preserves IsValid f

-- An entry that is replaced by one with the same object.
replaced-IsValid :
    (key : ChunkKey) (e e' : Entry) (m : L1Manager)
    → IsValid m
    → lookup key_dec key m.entries ≡ some e
    → e'.obj ≡ e.obj
    → IsValid (record m { entries = insert key_dec key e' m.entries })
replaced-IsValid key e e' m valid found same = record {
  pool = rw (objs-insert_same key m.entries e e' found same) valid.pool;
  dict = insert-IsDict key_dec key e' m.entries valid.dict;
}

alter-Keeps :
    (f : Entry → Entry) → ((e : Entry) → (f e).obj ≡ e.obj) → (key : ChunkKey) → Keeps (alter f key)
unfolding alter
alter-Keeps f keeps key m valid = elim (Option-cases (lookup key_dec key m.entries)) [
  | inl missing ↦ rw (missing, alter) valid
  | inr (e, found) ↦ rw (found, alter) (replaced-IsValid key e (f e) m valid found (keeps e))
]

notify-IsValid :
    (event : Event) (keys : List ChunkKey) (m : L1Manager)
    → IsValid m
    → IsValid (notify event keys m)
unfolding notify
notify-IsValid event keys m valid = record { pool = valid.pool; dict = valid.dict }

pub notify_some-IsValid :
    (event : Event) (keys : List ChunkKey) (m : L1Manager)
    → IsValid m
    → IsValid (notify_some event keys m)
unfolding notify_some
notify_some-IsValid event [] m valid = valid
notify_some-IsValid event (k ∷ keys) m valid = notify-IsValid event (k ∷ keys) m valid

pub finish_write-Keeps : (keys : List ChunkKey) → Keeps (finish_write keys)
unfolding finish_write
finish_write-Keeps keys =
    Preserves-bind (for_each (alter unlock) keys)
      (λ _. modify (notify on_created keys) >> modify (notify on_write_finished keys))
      (Preserves-for_each (alter unlock) keys (alter-Keeps unlock (λ e. refl)))
      (λ _ m valid.
        notify-IsValid on_write_finished keys _ (notify-IsValid on_created keys m valid))

pub finish_write_and_reserve_read-Keeps :
    (keys : List ChunkKey) → Keeps (finish_write_and_reserve_read keys)
unfolding finish_write_and_reserve_read
finish_write_and_reserve_read-Keeps keys =
    Preserves-bind (for_each (alter (λ e. hold (unlock e))) keys)
      (λ _. modify (notify on_created keys))
      (Preserves-for_each _ keys (alter-Keeps (λ e. hold (unlock e)) (λ e. refl)))
      (λ _ m valid. notify-IsValid on_created keys m valid)

pub reserve_read_prefix-Keeps : (keys : List ChunkKey) → Keeps (reserve_read_prefix keys)
unfolding reserve_read_prefix
reserve_read_prefix-Keeps keys m =
    let hit = prefix_hits keys m.entries in
    Preserves-bind (for_each (alter hold) (take hit keys)) (λ _. pure hit)
      (Preserves-for_each (alter hold) (take hit keys) (alter-Keeps hold (λ e. refl)))
      (λ _ s valid. valid) m

bind_pure_state :
    {A B : Type 0} (f : Action L1Manager A) (g : A → B) (m : L1Manager)
    → (f m).1 ≡ m
    → ((f >>= λ a. pure (g a)) m).1 ≡ m
bind_pure_state {A} f g m h = go (f m) h
  where
    go : (p : Outcome A × L1Manager) → p.1 ≡ m → (carried (λ a. pure (g a)) p).1 ≡ m
    go (ok a, s) e = e
    go (raised x, s) e = e

pub read_state : (keys : List ChunkKey) (m : L1Manager) → (read keys m).1 ≡ m
unfolding read
read_state [] m = refl
read_state (key ∷ keys) m = elim (Option-cases (lookup key_dec key m.entries)) [
  | inl missing ↦ rw (missing, read) refl
  | inr (e, found) ↦
      rw (found, read) (bind_pure_state (read keys) (λ objs. e.obj ∷ objs) m (read_state keys m))
]

drop_hold-Keeps : (key : ChunkKey) → Keeps (drop_hold key)
unfolding drop_hold
drop_hold-Keeps key m valid = elim (Option-cases (lookup key_dec key m.entries)) [
  | inl missing ↦ rw (missing, drop_hold) valid
  | inr (e, found) ↦
      let (m', returned, drops) = drop_hold-DropsHold key m valid e found in rw returned drops.valid
]

drop_holds-Keeps : (keys freed touched : List ChunkKey) → Keeps (drop_holds keys freed touched)
unfolding drop_holds
drop_holds-Keeps [] freed touched = λ m valid. valid
drop_holds-Keeps (key ∷ keys) freed touched =
    Preserves-bind (drop_hold key)
      (λ spent.
        drop_holds keys (if spent then freed ++ (key ∷ []) else freed)
          (if spent then touched else touched ++ (key ∷ [])))
      (drop_hold-Keeps key) (λ spent. drop_holds-Keeps keys _ _)

pub finish_read-Keeps : (keys : List ChunkKey) → Keeps (finish_read keys)
unfolding finish_read
finish_read-Keeps keys =
    Preserves-bind (drop_holds keys [] [])
      (λ p. modify (notify_some on_touched p.1) >> modify (notify_some on_removed p.0))
      (drop_holds-Keeps keys [] [])
      (λ p m valid.
        notify_some-IsValid on_removed p.0 _ (notify_some-IsValid on_touched p.1 m valid))

pub promote-IsValid : (keys : List ChunkKey) (m : L1Manager) → IsValid m → IsValid (promote keys m)
unfolding promote
promote-IsValid [] m valid = valid
promote-IsValid (key ∷ keys) m valid = elim (Option-cases (lookup key_dec key m.entries)) [
  | inl missing ↦ rw (missing, promote) (promote-IsValid keys m valid)
  | inr (e, found) ↦
      rw (found, promote)
        (promote-IsValid keys _ (replaced-IsValid key e (make_resident e) m valid found refl))
]

delete_one-Keeps : (force : Bool) (key : ChunkKey) → Keeps (delete_one force key)
unfolding delete_one
delete_one-Keeps force key m valid =
    elim (Bool-cases (deletable force (lookup key_dec key m.entries))) [
      | inr stays ↦ rw stays valid
      | inl goes ↦ elim (Option-cases (lookup key_dec key m.entries)) [
        | inl missing ↦ rw (goes, missing, delete_one) valid
        | inr (e, found) ↦
            let (m', gone, drops) = drop_entry-Drops key e m valid found in
            let may : deletable force (some e) ≡ true = ap (deletable force) (sym found) ∙ goes in
            rw (found, may, >>=-ok (drop_entry key e) (λ _. pure (key ∷ [])) m gone) drops.valid
      ]
    ]

delete_loop-Keeps : (force : Bool) (keys : List ChunkKey) → Keeps (delete_loop force keys)
unfolding delete_loop
delete_loop-Keeps force [] = λ m valid. valid
delete_loop-Keeps force (key ∷ keys) =
    Preserves-bind (delete_one force key)
      (λ deleted. delete_loop force keys >>= λ more. pure (deleted ++ more))
      (delete_one-Keeps force key)
      (λ deleted.
        Preserves-bind (delete_loop force keys) (λ more. pure (deleted ++ more))
          (delete_loop-Keeps force keys) (λ more s v. v))

pub delete-Keeps : (keys : List ChunkKey) (force : Bool) → Keeps (delete keys force)
unfolding delete
delete-Keeps keys force =
    Preserves-bind (delete_loop force keys)
      (λ deleted. modify (notify_some on_removed deleted) >> pure (length deleted))
      (delete_loop-Keeps force keys)
      (λ deleted m valid. notify_some-IsValid on_removed deleted m valid)

pub register_listener-IsValid :
    (l : Listener) (m : L1Manager) → IsValid m → IsValid (register_listener l m)
unfolding register_listener
register_listener-IsValid l m valid = record { pool = valid.pool; dict = valid.dict }

-- Writing bytes into the pool.
pub rewritten-IsValid :
    (m : L1Manager) (bytes : ℕ → ℕ)
    → IsValid m
    → IsValid (record m { allocator = record m.allocator { pool = bytes } })
rewritten-IsValid m bytes valid = record {
  pool = record {
    fits = valid.pool.fits;
    tiled = valid.pool.tiled;
    used = valid.pool.used;
    sized = valid.pool.sized;
  };
  dict = valid.dict;
}
