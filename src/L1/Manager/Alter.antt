-- ===== src/L1/Manager/Alter.antt =====
-- How the loops of mini_llmcache/l1/manager.py over `self.entries[key]` change the entries.
use mini_llmcache.Base.{
  ◌≡◌, refl, ◌∙◌, List, [], ◌∷◌, All, arith, Option, none, some, true, Option-cases, inl, inr, ite,
  ok, for_each, >>=-ok, elem, Distinct, if◌then◌else◌,
}
use mini_llmcache.Base.Dict.{Dict, lookup, insert, contains, lookup-insert, insert-IsDict}
use mini_llmcache.Protocol.{ChunkKey, key_dec}
use mini_llmcache.L1.Manager.{Entry, L1Manager, alter}
use mini_llmcache.L1.Manager.Valid.{IsValid, objs-insert_same}

abbrev pub IsPresent : Dict ChunkKey Entry → ChunkKey → Type 0
IsPresent d key = contains key_dec key d ≡ true

-- The entries after `f` has been applied at the key, if it is there.
unfoldable pub altered : (Entry → Entry) → ChunkKey → Dict ChunkKey Entry → Dict ChunkKey Entry
altered f key d = elim (lookup key_dec key d) [ none ↦ d | some e ↦ insert key_dec key (f e) d ]

unfoldable pub altered_all :
    (Entry → Entry) → List ChunkKey → Dict ChunkKey Entry → Dict ChunkKey Entry
altered_all f [] d = d
altered_all f (key ∷ keys) d = altered_all f keys (altered f key d)

abbrev pub map_entry : (Entry → Entry) → Option Entry → Option Entry
map_entry f none = none
map_entry f (some e) = some (f e)

pub lookup-altered :
    (f : Entry → Entry) (j key : ChunkKey) (d : Dict ChunkKey Entry)
    → lookup key_dec j (altered f key d)
      ≡ ite (key_dec j key) (map_entry f (lookup key_dec j d)) (lookup key_dec j d)
unfolding altered
lookup-altered f j key d = elim (Option-cases (lookup key_dec key d)) [
  | inl missing ↦ rw (missing, altered) (ground arith)
  | inr (e, found) ↦ rw (found, altered) (ground (arith, lookup-insert key_dec j key (f e) d))
]

pub altered-IsPresent :
    (f : Entry → Entry) (key : ChunkKey) (keys : List ChunkKey) (d : Dict ChunkKey Entry)
    → All (IsPresent d) keys
    → All (IsPresent (altered f key d)) keys
altered-IsPresent f key [] d h = tt
altered-IsPresent f key (j ∷ keys) d h =
    (ground (arith, lookup-altered f j key d), altered-IsPresent f key keys d h.1)

alter-altered :
    (f : Entry → Entry) (key : ChunkKey) (m : L1Manager)
    → IsPresent m.entries key
    → alter f key m ≡ (ok tt, record m { entries = altered f key m.entries })
unfolding alter altered
alter-altered f key m h = ground arith

-- The loop over keys that are all present returns.
pub for_each-alter :
    (f : Entry → Entry) (keys : List ChunkKey) (m : L1Manager)
    → All (IsPresent m.entries) keys
    → for_each (alter f) keys m ≡ (ok tt, record m { entries = altered_all f keys m.entries })
unfolding altered_all
for_each-alter f [] m h = refl
for_each-alter f (key ∷ keys) m h =
    >>=-ok (alter f key) (λ _. for_each (alter f) keys) m (alter-altered f key m h.0)
    ∙ (for_each-alter f keys (record m { entries = altered f key m.entries })
        (altered-IsPresent f key keys m.entries h.1))

-- Each key gets `f` once, and no other key changes.
pub lookup-altered_all :
    (f : Entry → Entry) (keys : List ChunkKey) (j : ChunkKey) (d : Dict ChunkKey Entry)
    → Distinct key_dec keys
    → lookup key_dec j (altered_all f keys d)
      ≡ (if elem key_dec j keys then map_entry f (lookup key_dec j d) else lookup key_dec j d)
unfolding altered_all
lookup-altered_all f [] j d distinct = refl
lookup-altered_all f (key ∷ keys) j d distinct =
    ground
      (arith, lookup-altered_all f keys j (altered f key d) distinct.1, lookup-altered f j key d)

module _ (f : Entry → Entry) (keeps : (e : Entry) → (f e).obj ≡ e.obj) where
  altered-IsValid :
      (key : ChunkKey) (m : L1Manager)
      → IsValid m
      → IsValid (record m { entries = altered f key m.entries })
  unfolding altered
  altered-IsValid key m valid = elim (Option-cases (lookup key_dec key m.entries)) [
    | inl missing ↦ rw (missing, altered) valid
    | inr (e, found) ↦
        rw (found, altered)
          (record {
            pool = rw (objs-insert_same key m.entries e (f e) found (keeps e)) valid.pool;
            dict = insert-IsDict key_dec key (f e) m.entries valid.dict;
          })
  ]

  -- A loop that keeps each entry's object keeps the invariant.
  pub altered_all-IsValid :
      (keys : List ChunkKey) (m : L1Manager)
      → IsValid m
      → IsValid (record m { entries = altered_all f keys m.entries })
  unfolding altered_all
  altered_all-IsValid [] m valid = valid
  altered_all-IsValid (key ∷ keys) m valid =
      altered_all-IsValid keys (record m { entries = altered f key m.entries })
        (altered-IsValid key m valid)
