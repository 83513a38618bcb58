-- ===== src/L1/Manager/Unhold.antt =====
-- One hold less, in `finish_read` of mini_llmcache/l1/manager.py.
use mini_llmcache.Base.{
  ◌≡◌, ◌==◌, refl, arith, Option, none, some, true, false, ok, if◌then◌else◌, Bool, Bool-cases, inl,
  inr, ◌∙◌, ite,
}
use mini_llmcache.Base.Int.{ℤ, pos, negsuc, sub}
use mini_llmcache.Base.Dict.{
  lookup, insert, lookup-insert, insert-IsDict, lookup-erase_ne, lookup-erase_self,
}
use mini_llmcache.Protocol.{ChunkKey, key_dec}
use mini_llmcache.L1.Manager.{Entry, L1Manager, unhold, is_spent, drop_hold, drop_entry}
use mini_llmcache.L1.Manager.Valid.{IsValid, objs-insert_same}
use mini_llmcache.L1.Manager.Drop.{drop_entry-Drops}

abbrev pub is_last : ℤ → Bool
is_last (pos n) = n == 1
is_last (negsuc n) = false

-- A temporary entry goes with its last hold.
abbrev pub spends : Option Entry → Bool
spends none = false
spends (some e) = if e.is_temporary then is_last e.read_count else false

-- What is left of an entry when one hold on it is dropped.
abbrev pub dropped : Option Entry → Option Entry
dropped none = none
dropped (some e) =
    if spends (some e) then none else some (record e { read_count = sub e.read_count 1 })

is_spent_lem : (e : Entry) → is_spent (unhold e) ≡ spends (some e)
is_spent_lem e = ground arith

-- One round: the hold is dropped at the key, and nothing else changes.
pub record DropsHold (key : ChunkKey) (m m' : L1Manager) : Type 0 where
  pub valid : IsValid m'
  pub entries :
      (j : ChunkKey)
      → lookup key_dec j m'.entries
        ≡ ite (key_dec j key) (dropped (lookup key_dec j m.entries)) (lookup key_dec j m.entries)
  pub bytes : m'.allocator.pool ≡ m.allocator.pool
  pub listeners : m'.listeners ≡ m.listeners

module _ (key : ChunkKey) (m : L1Manager) (valid : IsValid m) (e : Entry)
    (found : lookup key_dec key m.entries ≡ some e) where
  unheld : L1Manager
  unheld = record m { entries = insert key_dec key (unhold e) m.entries }

  unheld-IsValid : IsValid unheld
  unfolding unheld
  unheld-IsValid = record {
    pool = rw (objs-insert_same key m.entries e (unhold e) found refl) valid.pool;
    dict = insert-IsDict key_dec key (unhold e) m.entries valid.dict;
  }

  drop_hold_kept : is_spent (unhold e) ≡ false → drop_hold key m ≡ (ok false, unheld)
  unfolding drop_hold unheld
  drop_hold_kept h = ground arith

  drop_hold_spent :
      (m' : L1Manager)
      → is_spent (unhold e) ≡ true
      → drop_entry key (unhold e) unheld ≡ (ok tt, m')
      → drop_hold key m ≡ (ok true, m')
  unfolding drop_hold unheld
  drop_hold_spent m' h q = ground arith

  lookup-unheld :
      (j : ChunkKey)
      → lookup key_dec j unheld.entries
        ≡ ite (key_dec j key) (some (unhold e)) (lookup key_dec j m.entries)
  unfolding unheld
  lookup-unheld j = lookup-insert key_dec j key (unhold e) m.entries

  pub drop_hold-DropsHold :
      (m' : L1Manager) × (drop_hold key m ≡ (ok (spends (some e)), m')) × DropsHold key m m'
  drop_hold-DropsHold = elim (Bool-cases (spends (some e))) [
    | inr kept ↦ (
      unheld,
      ground (arith, drop_hold_kept (is_spent_lem e ∙ kept)),
      record {
        valid = unheld-IsValid;
        entries = λ j. ground (arith, lookup-unheld j);
        bytes = same_bytes;
        listeners = same_listeners;
      },
    )
    | inl spent ↦
        let (m', gone, drops) =
          drop_entry-Drops key (unhold e) unheld unheld-IsValid
            (ground (arith, lookup-unheld key)) in
        (
          m',
          ground (arith, drop_hold_spent m' (is_spent_lem e ∙ spent) gone),
          record {
            valid = drops.valid;
            entries = λ j. elim (key_dec j key) [
              | yes here ↦ ground (
                arith,
                drops.entries,
                lookup-erase_self key_dec key unheld.entries unheld-IsValid.dict,
              )
              | no there ↦ ground (
                arith,
                drops.entries,
                lookup-erase_ne key_dec j key unheld.entries there,
                lookup-unheld j,
              )
            ];
            bytes = drops.bytes ∙ same_bytes;
            listeners = drops.listeners ∙ same_listeners;
          },
        )
  ]
    where
      same_bytes : unheld.allocator.pool ≡ m.allocator.pool
      same_bytes = unfold unheld in refl

      same_listeners : unheld.listeners ≡ m.listeners
      same_listeners = unfold unheld in refl
