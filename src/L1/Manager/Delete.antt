-- ===== src/L1/Manager/Delete.antt =====
-- `delete` of mini_llmcache/l1/manager.py.
use mini_llmcache.Base.{
  ◌≡◌, refl, List, [], ◌∷◌, arith, Option, none, some, true, false, ok, elem, Distinct, ◌++◌,
  if◌then◌else◌, ◌&&◌, Bool, Bool-cases, inl, inr, >>=-ok, ◌∙◌, length, ◌>>=◌, pure, Action,
}
use mini_llmcache.Base.Int.{is_zero}
use mini_llmcache.Base.Dict.{Dict, lookup, erase, lookup-erase_ne, lookup-erase_self}
use mini_llmcache.Protocol.{ChunkKey, key_dec}
use mini_llmcache.L1.Listener.{on_removed}
use mini_llmcache.L1.Manager.{
  Entry, L1Manager, deletable, drop_entry, delete_one, delete_loop, notify_some, delete,
}
use mini_llmcache.L1.Manager.Valid.{IsValid}
use mini_llmcache.L1.Manager.Drop.{drop_entry-Drops}

-- What `delete` may take away: without `force`, what nobody writes and nobody reads.
abbrev pub doomed : Bool → Option Entry → Bool
doomed force none = false
doomed true (some e) = true
doomed false (some e) = if e.write_locked then false else is_zero e.read_count

deletable_lem : (force : Bool) (o : Option Entry) → deletable force o ≡ doomed force o
unfolding deletable
deletable_lem force none = refl
deletable_lem true (some e) = ground arith
deletable_lem false (some e) = ground arith

-- Exactly the keys of the list that may be deleted are gone, and nothing else has changed.
pub record Deletes (force : Bool) (keys : List ChunkKey) (m m' : L1Manager) : Type 0 where
  pub valid : IsValid m'
  pub entries :
      (j : ChunkKey)
      → lookup key_dec j m'.entries ≡ (
          if elem key_dec j keys && doomed force (lookup key_dec j m.entries)
          then none
          else lookup key_dec j m.entries)
  pub bytes : m'.allocator.pool ≡ m.allocator.pool
  pub listeners : m'.listeners ≡ m.listeners

module _ (force : Bool) (key : ChunkKey) (m : L1Manager) where
  delete_one_skip :
      doomed force (lookup key_dec key m.entries) ≡ false → delete_one force key m ≡ (ok [], m)
  unfolding delete_one
  delete_one_skip h = rw (deletable_lem force (lookup key_dec key m.entries), h)

  delete_one_drop :
      (e : Entry) (m₁ : L1Manager)
      → lookup key_dec key m.entries ≡ some e
      → doomed force (some e) ≡ true
      → drop_entry key e m ≡ (ok tt, m₁)
      → delete_one force key m ≡ (ok (key ∷ []), m₁)
  unfolding delete_one
  delete_one_drop e m₁ found may gone =
      rw (found, deletable_lem force (some e), may)
        (>>=-ok (drop_entry key e) (λ _. pure (key ∷ [])) m gone)

no_entry :
    (force : Bool)
    → doomed force none ≡ true
    → (e : Entry) × (none ≡ some e) × (doomed force (some e) ≡ true)
no_entry force h = cc

doomed_entry :
    (force : Bool) (o : Option Entry)
    → doomed force o ≡ true
    → (e : Entry) × (o ≡ some e) × (doomed force (some e) ≡ true)
doomed_entry force none h = no_entry force h
doomed_entry force (some e) h = (e, refl, h)

doomed-none : (force : Bool) → doomed force none ≡ false
doomed-none force = refl

-- The keys that are deleted, in the order of the call.
unfoldable pub doomed_keys : Bool → Dict ChunkKey Entry → List ChunkKey → List ChunkKey
doomed_keys force d [] = []
doomed_keys force d (key ∷ keys) =
    if doomed force (lookup key_dec key d)
    then key ∷ doomed_keys force d keys
    else doomed_keys force d keys

doomed_keys-erase :
    (force : Bool) (key : ChunkKey) (d : Dict ChunkKey Entry) (keys : List ChunkKey)
    → elem key_dec key keys ≡ false
    → doomed_keys force (erase key_dec key d) keys ≡ doomed_keys force d keys
unfolding doomed_keys
doomed_keys-erase force key d [] h = refl
doomed_keys-erase force key d (k ∷ keys) h = elim (key_dec k key) [
  | yes same ↦ absurd (ground arith)
  | no other ↦
      rw (lookup-erase_ne key_dec k key d other, doomed_keys-erase force key d keys (ground arith))
]

delete_loop-Deletes :
    (force : Bool) (keys : List ChunkKey) (m : L1Manager)
    → IsValid m
    → Distinct key_dec keys
    → (m' : L1Manager) × (delete_loop force keys m ≡ (ok (doomed_keys force m.entries keys), m'))
      × Deletes force keys m m'
unfolding delete_loop doomed_keys
delete_loop-Deletes force [] m valid distinct =
    (m, refl, record { valid = valid; entries = λ j. refl; bytes = refl; listeners = refl })
delete_loop-Deletes force (key ∷ keys) m valid distinct =
    elim (Bool-cases (doomed force (lookup key_dec key m.entries))) [
      | inr skip ↦
          let (m', returned, rest) = delete_loop-Deletes force keys m valid distinct.1 in
          (
            m',
            rw skip (
                >>=-ok (delete_one force key) (after key keys) m (delete_one_skip force key m skip)
                ∙ >>=-ok (delete_loop force keys) (λ more. pure more) m returned),
            record {
              valid = rest.valid;
              entries = λ j. ground (arith, rest.entries j);
              bytes = rest.bytes;
              listeners = rest.listeners;
            },
          )
      | inl may ↦
          let (e, found, allowed) = doomed_entry force (lookup key_dec key m.entries) may in
          let (m₁, gone, drops) = drop_entry-Drops key e m valid found in
          let (m', returned, rest) = delete_loop-Deletes force keys m₁ drops.valid distinct.1 in
          (
            m',
            rw may (
                >>=-ok (delete_one force key) (after key keys) m
                  (delete_one_drop force key m e m₁ found allowed gone)
                ∙ >>=-ok (delete_loop force keys) (λ more. pure (key ∷ more)) m₁ returned
                ∙ rw (drops.entries, doomed_keys-erase force key m.entries keys distinct.0)),
            record {
              valid = rest.valid;
              entries = λ j. elim (key_dec j key) [
                | yes here ↦ ground (
                  arith,
                  rest.entries j,
                  drops.entries,
                  lookup-erase_self key_dec key m.entries valid.dict,
                  doomed-none force,
                )
                | no there ↦ ground (
                  arith,
                  rest.entries j,
                  drops.entries,
                  lookup-erase_ne key_dec j key m.entries there,
                )
              ];
              bytes = rest.bytes ∙ drops.bytes;
              listeners = rest.listeners ∙ drops.listeners;
            },
          )
    ]
  where
    after : ChunkKey → List ChunkKey → List ChunkKey → Action L1Manager (List ChunkKey)
    after k ks deleted = delete_loop force ks >>= λ more. pure (deleted ++ more)

-- On a valid cache, `delete` of distinct keys returns the number of entries deleted and tells the
-- listeners their keys; without `force` it deletes exactly the entries of the list that are neither
-- being written nor held by a reader, with `force` every entry of the list; all other entries and
-- the bytes stay, and the cache stays valid.
pub delete-Deletes :
    (keys : List ChunkKey) (force : Bool) (m : L1Manager)
    → IsValid m
    → Distinct key_dec keys
    → (m' : L1Manager) × (delete keys force m ≡ (
      ok (length (doomed_keys force m.entries keys)),
      notify_some on_removed (doomed_keys force m.entries keys) m',
    ))
      × Deletes force keys m m'
unfolding delete
delete-Deletes keys force m valid distinct =
    let (m', returned, deletes) = delete_loop-Deletes force keys m valid distinct in
    (
      m',
      >>=-ok (delete_loop force keys) (λ ks s. (ok (length ks), notify_some on_removed ks s)) m
          returned,
      deletes,
    )
