-- ===== src/L1/Manager/Release.antt =====
-- `finish_read` of mini_llmcache/l1/manager.py.
use mini_llmcache.Base.{
  ◌≡◌, refl, List, [], ◌∷◌, ◌++◌, All, arith, some, false, ok, elem, Distinct, if◌then◌else◌,
  Option-cases, Bool-cases, inl, inr, >>=-ok, ◌∙◌,
}
use mini_llmcache.Base.Dict.{Dict, lookup, keys}
use mathlib.Core.List.{append-nil, append_assoc}
use mini_llmcache.Protocol.{ChunkKey, key_dec}
use mini_llmcache.L1.Listener.{Event, on_touched, on_removed}
use mini_llmcache.L1.Manager.Unhold.{DropsHold, drop_hold-DropsHold, dropped, spends}
use mini_llmcache.L1.Manager.{Entry, L1Manager, drop_hold, drop_holds, notify_some, finish_read}
use mini_llmcache.L1.Manager.Valid.{IsValid}
use mini_llmcache.L1.Manager.Alter.{IsPresent}

-- The keys whose entries are freed, and the others, in the order of the call.
unfoldable pub spent_keys : Dict ChunkKey Entry → List ChunkKey → List ChunkKey
spent_keys d [] = []
spent_keys d (key ∷ keys) =
    if spends (lookup key_dec key d) then key ∷ spent_keys d keys else spent_keys d keys

unfoldable pub kept_keys : Dict ChunkKey Entry → List ChunkKey → List ChunkKey
kept_keys d [] = []
kept_keys d (key ∷ keys) =
    if spends (lookup key_dec key d) then kept_keys d keys else key ∷ kept_keys d keys

-- One hold is dropped at each of the keys, and nothing else changes.
pub record DropsHolds (keys : List ChunkKey) (m m' : L1Manager) : Type 0 where
  pub valid : IsValid m'
  pub entries :
      (j : ChunkKey)
      → lookup key_dec j m'.entries ≡ (
          if elem key_dec j keys
          then dropped (lookup key_dec j m.entries)
          else lookup key_dec j m.entries)
  pub bytes : m'.allocator.pool ≡ m.allocator.pool
  pub listeners : m'.listeners ≡ m.listeners

-- Keys whose entries agree are split alike.
module _ (d d' : Dict ChunkKey Entry) where
  spent_keys_cong :
      (keys : List ChunkKey)
      → All (λ k. lookup key_dec k d' ≡ lookup key_dec k d) keys
      → (spent_keys d' keys ≡ spent_keys d keys) × (kept_keys d' keys ≡ kept_keys d keys)
  unfolding spent_keys kept_keys
  spent_keys_cong [] h = (refl, refl)
  spent_keys_cong (k ∷ keys) h = let (s, t) = spent_keys_cong keys h.1 in (rw (h.0, s), rw (h.0, t))

module _ (key : ChunkKey) (m m' : L1Manager) (drops : DropsHold key m m') where
  others :
      (keys : List ChunkKey)
      → elem key_dec key keys ≡ false
      → All (λ k. lookup key_dec k m'.entries ≡ lookup key_dec k m.entries) keys
  others [] h = tt
  others (k ∷ keys) h = (ground (arith, drops.entries k), others keys (ground arith))

  others-IsPresent :
      (keys : List ChunkKey)
      → elem key_dec key keys ≡ false
      → All (IsPresent m.entries) keys
      → All (IsPresent m'.entries) keys
  others-IsPresent [] h p = tt
  others-IsPresent (k ∷ keys) h p =
      (ground (arith, drops.entries k), others-IsPresent keys (ground arith) p.1)

present_entry :
    (key : ChunkKey) (d : Dict ChunkKey Entry)
    → IsPresent d key
    → (e : Entry) × (lookup key_dec key d ≡ some e)
present_entry key d h = elim (Option-cases (lookup key_dec key d)) [
  | inl missing ↦ absurd (ground arith)
  | inr found ↦ found
]

drop_holds-DropsHolds :
    (keys freed touched : List ChunkKey) (m : L1Manager)
    → IsValid m
    → Distinct key_dec keys
    → All (IsPresent m.entries) keys
    → (m' : L1Manager) × (drop_holds keys freed touched m
        ≡ (ok (freed ++ spent_keys m.entries keys, touched ++ kept_keys m.entries keys), m'))
      × DropsHolds keys m m'
unfolding drop_holds spent_keys kept_keys
drop_holds-DropsHolds [] freed touched m valid distinct present = (
  m,
  simp append-nil,
  record { valid = valid; entries = λ j. refl; bytes = refl; listeners = refl },
)
drop_holds-DropsHolds (key ∷ keys) freed touched m valid distinct present =
    let (e, found) = present_entry key m.entries present.0 in
    let (m₁, once, drops) = drop_hold-DropsHold key m valid e found in
    let spent = spends (some e) in
    let (m', rest, all) =
      drop_holds-DropsHolds keys (if spent then freed ++ (key ∷ []) else freed)
        (if spent then touched else touched ++ (key ∷ [])) m₁ drops.valid distinct.1
        (others-IsPresent key m m₁ drops keys distinct.0 present.1) in
    let (same_s, same_k) =
      spent_keys_cong m.entries m₁.entries keys (others key m m₁ drops keys distinct.0) in
    (
      m',
      >>=-ok (drop_hold key)
            (λ s.
              drop_holds keys (if s then freed ++ (key ∷ []) else freed)
                (if s then touched else touched ++ (key ∷ [])))
            m once
          ∙ rest
          ∙ rw (found, same_s, same_k)
              (elim (Bool-cases spent) [
                | inl y ↦ rw y (simp append_assoc)
                | inr n ↦ rw n (simp append_assoc)
              ]),
      record {
        valid = all.valid;
        entries = λ j. ground (arith, all.entries j, drops.entries j);
        bytes = all.bytes ∙ drops.bytes;
        listeners = all.listeners ∙ drops.listeners;
      },
    )

-- What the listeners hear when some of the keys are touched and others removed.
abbrev pub told : List ChunkKey → List ChunkKey → L1Manager → L1Manager
told touched freed m = notify_some on_removed freed (notify_some on_touched touched m)

pub told-keeps :
    (event : Event) (keys : List ChunkKey) (m : L1Manager)
    → ((notify_some event keys m).entries ≡ m.entries)
      × ((notify_some event keys m).allocator ≡ m.allocator)
unfolding notify_some
told-keeps event [] m = (refl, refl)
told-keeps event (k ∷ keys) m = (refl, refl)

pub told-entries :
    (touched freed : List ChunkKey) (m : L1Manager) → (told touched freed m).entries ≡ m.entries
told-entries touched freed m =
    (told-keeps on_removed freed _).0 ∙ (told-keeps on_touched touched m).0

-- On a valid cache, `finish_read` of distinct present keys returns and drops one hold at each: a
-- temporary entry whose count comes to 0 is freed, every other one of the list stays with its count
-- lowered by one, other entries are untouched, the listeners hear which were touched and removed,
-- and the cache stays valid.
pub finish_read-drops :
    (keys : List ChunkKey) (m : L1Manager)
    → IsValid m
    → Distinct key_dec keys
    → All (IsPresent m.entries) keys
    → (m' : L1Manager) × (finish_read keys m
        ≡ (ok tt, told (kept_keys m.entries keys) (spent_keys m.entries keys) m'))
      × DropsHolds keys m m'
unfolding finish_read
finish_read-drops keys m valid distinct present =
    let (m', returned, drops) = drop_holds-DropsHolds keys [] [] m valid distinct present in
    (
      m',
      >>=-ok (drop_holds keys [] [])
          (λ p s. (ok tt, notify_some on_removed p.0 (notify_some on_touched p.1 s))) m returned,
      drops,
    )
