-- ===== src/L1/Manager/Call/Exclusive.antt =====
-- Under the lock protocol of mini_llmcache/l1/manager.py a chunk that is written has no reader.
use mini_llmcache.Base.{
  ◌≡◌, refl, arith, List, [], ◌∷◌, All, Option, none, some, Bool, true, false, not, ◌||◌, elem,
  take, Bool-cases, inl, inr,
}
use mini_llmcache.Base.Int.{pos, negsuc, is_zero}
use mini_llmcache.Protocol.{ChunkKey, key_dec}
use mini_llmcache.L1.Manager.Call.{
  Call, registers, reserves_write, finishes_write, finishes_write_and_reserves_read, reserves_read,
  reserves_read_prefix, reads, finishes_read, promotes, deletes,
}
use mini_llmcache.L1.Manager.Call.Spec.{
  Lock, Locks, start_write, on_lock, end_write, start_read, start_read_if_free, end_read, take_away,
  has_reader, At, Spec, IsLegal,
}

-- No count is below 0, and a chunk that is written has no reader.
abbrev pub is_exclusive : Option Lock → Bool
is_exclusive none = true
is_exclusive (some l) = elim l.readers [
  | pos n ↦ not l.writing || is_zero (pos n)
  | negsuc n ↦ false
]

abbrev pub IsExclusive : Locks → Type 0
IsExclusive v = (j : ChunkKey) → is_exclusive (v j) ≡ true

At-IsExclusive :
    (keys : List ChunkKey) (f : Option Lock → Option Lock) (v w : Locks)
    → At keys f v w
    → ((j : ChunkKey)
        → elem key_dec j keys ≡ true
        → is_exclusive (v j) ≡ true
        → is_exclusive (f (v j)) ≡ true)
    → IsExclusive v
    → IsExclusive w
At-IsExclusive keys f v w at keeps h j = elim (Bool-cases (elem key_dec j keys)) [
  | inl here ↦ rw (at j, here) (keeps j here (h j))
  | inr there ↦ rw (at j, there) (h j)
]

pub All-at :
    (P : Option Lock → Bool) (v : Locks) (j : ChunkKey) (keys : List ChunkKey)
    → All (λ k. P (v k) ≡ true) keys
    → elem key_dec j keys ≡ true
    → P (v j) ≡ true
All-at P v j [] h e = cc
All-at P v j (k ∷ keys) h e = elim (key_dec j k) [
  | yes same ↦ rw same h.0
  | no other ↦ All-at P v j keys h.1 (ground arith)
]

start_write_exclusive :
    (temp : Bool) (o : Option Lock)
    → is_exclusive o ≡ true
    → is_exclusive (start_write temp o) ≡ true
start_write_exclusive temp none h = refl
start_write_exclusive temp (some l) h = h

end_write_exclusive :
    (o : Option Lock) → is_exclusive o ≡ true → is_exclusive (on_lock end_write o) ≡ true
end_write_exclusive none h = refl
end_write_exclusive (some l) h = ground arith

hand_over_exclusive :
    (o : Option Lock)
    → is_exclusive o ≡ true
    → is_exclusive (on_lock (λ l. start_read (end_write l)) o) ≡ true
hand_over_exclusive none h = refl
hand_over_exclusive (some l) h = ground arith

start_read_exclusive :
    (o : Option Lock) → is_exclusive o ≡ true → is_exclusive (start_read_if_free o) ≡ true
start_read_exclusive none h = refl
start_read_exclusive (some l) h = ground arith

end_read_exclusive :
    (o : Option Lock)
    → has_reader o ≡ true
    → is_exclusive o ≡ true
    → is_exclusive (end_read o) ≡ true
end_read_exclusive none r h = refl
end_read_exclusive (some l) r h = ground arith

keep_exclusive :
    (o : Option Lock)
    → is_exclusive o ≡ true
    → is_exclusive (on_lock (λ l. record l { temporary = false }) o) ≡ true
keep_exclusive none h = refl
keep_exclusive (some l) h = h

take_away_exclusive :
    (force : Bool) (o : Option Lock)
    → is_exclusive o ≡ true
    → is_exclusive (take_away force o) ≡ true
take_away_exclusive force none h = refl
take_away_exclusive force (some l) h = ground arith

-- Legal calls keep writers and readers apart.
pub Spec-IsExclusive :
    (c : Call) (v w : Locks) → IsLegal c v → Spec c v w → IsExclusive v → IsExclusive w
Spec-IsExclusive (registers l) v w legal s h = At-IsExclusive [] (λ o. o) v w s (λ j e x. x) h
Spec-IsExclusive (reserves_write keys n temp) v w legal (inl s) h =
    At-IsExclusive [] (λ o. o) v w s (λ j e x. x) h
Spec-IsExclusive (reserves_write keys n temp) v w legal (inr s) h =
    At-IsExclusive keys (start_write temp) v w s (λ j e. start_write_exclusive temp (v j)) h
Spec-IsExclusive (finishes_write keys) v w legal s h =
    At-IsExclusive keys (on_lock end_write) v w s (λ j e. end_write_exclusive (v j)) h
Spec-IsExclusive (finishes_write_and_reserves_read keys) v w legal s h =
    At-IsExclusive keys (on_lock (λ l. start_read (end_write l))) v w s
      (λ j e. hand_over_exclusive (v j)) h
Spec-IsExclusive (reserves_read keys) v w legal s h =
    At-IsExclusive keys start_read_if_free v w s (λ j e. start_read_exclusive (v j)) h
Spec-IsExclusive (reserves_read_prefix keys) v w legal (n, free, next, s) h =
    At-IsExclusive (take n keys) start_read_if_free v w s (λ j e. start_read_exclusive (v j)) h
Spec-IsExclusive (reads keys) v w legal s h = At-IsExclusive [] (λ o. o) v w s (λ j e x. x) h
Spec-IsExclusive (finishes_read keys) v w legal s h =
    At-IsExclusive keys end_read v w s
      (λ j e. end_read_exclusive (v j) (All-at has_reader v j keys legal.1 e)) h
Spec-IsExclusive (promotes keys) v w legal s h =
    At-IsExclusive keys (on_lock (λ l. record l { temporary = false })) v w s
      (λ j e. keep_exclusive (v j)) h
Spec-IsExclusive (deletes keys force) v w legal s h =
    At-IsExclusive keys (take_away force) v w s (λ j e. take_away_exclusive force (v j)) h
