-- ===== src/Storage/Prefetch/Counts.antt =====
-- How the steps of `prefetch` (mini_llmcache/l1/prefetch_controller.py) change the read counts.
use mini_llmcache.Base.{
  ℕ, ◌+◌, ◌≡◌, ◌≢◌, refl, ap, sym, subst, ◌∙◌, List, [], ◌∷◌, All, Option, none, some, true, arith,
  elem, Distinct, inl, inr, Bool-cases, ok, ◌&&◌, if◌then◌else◌,
}
use mini_llmcache.Base.Int.{pos, add}
use mini_llmcache.Base.Dict
use mini_llmcache.Base.Dict.{lookup, contains}
use mini_llmcache.Protocol.{text_dec, ChunkKey, key_dec}
use mini_llmcache.L1.Manager.{Entry, L1Manager, delete, notify, notify_some}
use mini_llmcache.L1.Manager.Valid.{IsValid}
use mini_llmcache.L1.Manager.Alter.{IsPresent, map_entry}
use mini_llmcache.L1.Listener.{Listener, Event, on_removed}
use mini_llmcache.L1.Manager.Write.{Finishes}
use mini_llmcache.L1.Manager.Delete.{doomed, delete-Deletes}
use mini_llmcache.L1.Manager.Keeps.{notify_some-IsValid}
use mini_llmcache.Storage.{Storage}
use mini_llmcache.Storage.Prefetch.Locks.{hold_count, holders, IsCounted, plus, AreDistinct}

-- A state with the same sessions and the same counts.
pub recounted :
    (g : ChunkKey → ℕ) (s s' : Storage)
    → IsCounted g s
    → IsValid s'.l1
    → s'.held ≡ s.held
    → ((k : ChunkKey)
        → hold_count (lookup key_dec k s'.l1.entries) ≡ hold_count (lookup key_dec k s.l1.entries))
    → IsCounted g s'
recounted g s s' c valid held same = record {
  valid = valid;
  counted = λ k. same k ∙ c.counted k ∙ ap (λ h. pos (g k + holders k h)) (sym held);
  sessions = subst (Dict.IsDict text_dec) (sym held) c.sessions;
  distinct = subst AreDistinct (sym held) c.distinct;
}

pub elem-IsPresent :
    (d : Dict.Dict ChunkKey Entry) (ks : List ChunkKey) (k : ChunkKey)
    → All (IsPresent d) ks
    → elem key_dec k ks ≡ true
    → IsPresent d k
elem-IsPresent d [] k h at = absurd (cc)
elem-IsPresent d (j ∷ ks) k h at = elim (key_dec k j) [
  | yes here ↦ subst (IsPresent d) (sym here) h.0
  | no other ↦ elem-IsPresent d ks k h.1 (ground (arith, other, at))
]

held_count :
    (f : Entry → Entry) (o : Option Entry) (x : ℕ)
    → ((e : Entry) → (f e).read_count ≡ add e.read_count 1)
    → o ≢ none
    → hold_count o ≡ pos x
    → hold_count (map_entry f o) ≡ pos (x + 1)
held_count f none x adds ne h = absurd (ne refl)
held_count f (some e) x adds ne h = adds e ∙ ap (λ z. add z 1) h

-- One hold is taken on each of the keys.
pub held-IsCounted :
    (g : ChunkKey → ℕ) (f : Entry → Entry) (s : Storage) (ks : List ChunkKey) (ls : List Listener)
    (m' : L1Manager)
    → IsCounted g s
    → ((e : Entry) → (f e).read_count ≡ add e.read_count 1)
    → All (IsPresent s.l1.entries) ks
    → Finishes f s.l1 ks ls m'
    → IsCounted (plus g ks) (record s { l1 = m' })
held-IsCounted g f s ks ls m' c adds present fin = record {
  valid = fin.valid;
  counted = λ k. elim (Bool-cases (elem key_dec k ks)) [
    | inl here ↦
        let there = elem-IsPresent s.l1.entries ks k present here in
        rw (fin.changed k, here)
          (held_count f (lookup key_dec k s.l1.entries) (g k + holders k s.held) adds
              (λ e. ground (arith, e, there)) (c.counted k)
            ∙ ap pos (omega arith))
    | inr other ↦ rw (fin.changed k, other) (c.counted k ∙ ap pos (omega arith))
  ];
  sessions = c.sessions;
  distinct = c.distinct;
}

notify_some-entries :
    (event : Event) (ks : List ChunkKey) (m : L1Manager)
    → (notify_some event ks m).entries ≡ m.entries
unfolding notify_some notify
notify_some-entries event [] m = refl
notify_some-entries event (k ∷ ks) m = refl

notify_some-pool :
    (event : Event) (ks : List ChunkKey) (m : L1Manager)
    → (notify_some event ks m).allocator.pool ≡ m.allocator.pool
unfolding notify_some notify
notify_some-pool event [] m = refl
notify_some-pool event (k ∷ ks) m = refl

-- Deleting keys that nobody holds changes no count, and takes exactly these keys away.
pub dropped-IsCounted :
    (g : ChunkKey → ℕ) (s : Storage) (ks : List ChunkKey)
    → IsCounted g s
    → Distinct key_dec ks
    → ((k : ChunkKey)
        → elem key_dec k ks ≡ true
        → hold_count (lookup key_dec k s.l1.entries) ≡ pos 0)
    → (count : ℕ) × (m' : L1Manager) × (delete ks true s.l1 ≡ (ok count, m'))
      × IsCounted g (record s { l1 = m' })
      × ((k : ChunkKey)
          → lookup key_dec k m'.entries ≡ (
              if elem key_dec k ks && doomed true (lookup key_dec k s.l1.entries)
              then none
              else lookup key_dec k s.l1.entries))
      × (m'.allocator.pool ≡ s.l1.allocator.pool)
dropped-IsCounted g s ks c distinct unheld =
    let (m', returned, deletes) = delete-Deletes ks true s.l1 c.valid distinct in
    (
      _,
      _,
      returned,
      recounted g s _ c (notify_some-IsValid on_removed _ m' deletes.valid) refl (λ k.
          ap (λ d. hold_count (lookup key_dec k d)) (notify_some-entries on_removed _ m')
          ∙ elim (Bool-cases (elem key_dec k ks && doomed true (lookup key_dec k s.l1.entries))) [
            | inl gone ↦ rw (deletes.entries k, gone) (sym (unheld k (ground (arith, gone))))
            | inr stays ↦ rw (deletes.entries k, stays) refl
          ]),
      λ k. ap (λ d. lookup key_dec k d) (notify_some-entries on_removed _ m') ∙ deletes.entries k,
      notify_some-pool on_removed _ m' ∙ deletes.bytes,
    )
