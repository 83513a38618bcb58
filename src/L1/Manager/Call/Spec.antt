-- ===== src/L1/Manager/Call/Spec.antt =====
-- The lock protocol that mini_llmcache/l1/manager.py promises, without objects, bytes and
-- listeners: what each key's lock is, and what each call may do to it.
use mini_llmcache.Base.{
  ℕ, ◌≡◌, ◌⊎◌, List, [], All, Option, none, some, Bool, true, false, not, ◌&&◌, ◌||◌, if◌then◌else◌,
  elem, Distinct, take, get_elem?,
}
use mini_llmcache.Base.Int.{ℤ, pos, negsuc, add, sub, is_zero}
use mini_llmcache.Protocol.{ChunkKey, key_dec}
use mini_llmcache.L1.Manager.Call.{
  Call, registers, reserves_write, finishes_write, finishes_write_and_reserves_read, reserves_read,
  reserves_read_prefix, reads, finishes_read, promotes, deletes,
}

pub record Lock : Type 0 where
  pub writing : Bool
  pub readers : ℤ
  pub temporary : Bool

abbrev pub Locks : Type 0
Locks = ChunkKey → Option Lock

abbrev pub start_write : Bool → Option Lock → Option Lock
start_write temp none = some (record { writing = true; readers = pos 0; temporary = temp })
start_write temp (some l) = some l

abbrev pub on_lock : (Lock → Lock) → Option Lock → Option Lock
on_lock f none = none
on_lock f (some l) = some (f l)

abbrev pub end_write : Lock → Lock
end_write l = record l { writing = false }

abbrev pub start_read : Lock → Lock
start_read l = record l { readers = add l.readers 1 }

abbrev pub start_read_if_free : Option Lock → Option Lock
start_read_if_free none = none
start_read_if_free (some l) = if l.writing then some l else some (start_read l)

-- The last reader of a temporary chunk takes it away.
abbrev pub end_read : Option Lock → Option Lock
end_read none = none
end_read (some l) =
    if l.temporary && is_zero (sub l.readers 1)
    then none
    else some (record l { readers = sub l.readers 1 })

abbrev pub take_away : Bool → Option Lock → Option Lock
take_away force none = none
take_away force (some l) = if force || (not l.writing && is_zero l.readers) then none else some l

abbrev pub is_free : Option Lock → Bool
is_free none = false
is_free (some l) = not l.writing

abbrev pub is_writing : Option Lock → Bool
is_writing none = false
is_writing (some l) = l.writing

abbrev pub has_reader : Option Lock → Bool
has_reader none = false
has_reader (some l) = elim l.readers [ pos n ↦ not (is_zero (pos n)) | negsuc n ↦ false ]

-- `f` at the keys of the list, and nothing elsewhere.
abbrev pub At : List ChunkKey → (Option Lock → Option Lock) → Locks → Locks → Type 0
At keys f v w = (j : ChunkKey) → w j ≡ (if elem key_dec j keys then f (v j) else v j)

-- What a call may make of the locks: only `reserves_write`, which can find the pool full, has a
-- choice.
abbrev pub Spec : Call → Locks → Locks → Type 0
Spec (registers l) v w = At [] (λ o. o) v w
Spec (reserves_write keys n temp) v w = At [] (λ o. o) v w ⊎ At keys (start_write temp) v w
Spec (finishes_write keys) v w = At keys (on_lock end_write) v w
Spec (finishes_write_and_reserves_read keys) v w =
    At keys (on_lock (λ l. start_read (end_write l))) v w
Spec (reserves_read keys) v w = At keys start_read_if_free v w
Spec (reserves_read_prefix keys) v w =
    (n : ℕ) × All (λ k. is_free (v k) ≡ true) (take n keys)
    × ((k : ChunkKey) → get_elem? keys n ≡ some k → is_free (v k) ≡ false)
    × At (take n keys) start_read_if_free v w
Spec (reads keys) v w = At [] (λ o. o) v w
Spec (finishes_read keys) v w = At keys end_read v w
Spec (promotes keys) v w = At keys (on_lock (λ l. record l { temporary = false })) v w
Spec (deletes keys force) v w = At keys (take_away force) v w

-- How the callers use the protocol: each key once, a write or a read ended only where one is open.
abbrev pub IsLegal : Call → Locks → Type 0
IsLegal (registers l) v = Unit
IsLegal (reserves_write keys n temp) v = Distinct key_dec keys
IsLegal (finishes_write keys) v = Distinct key_dec keys × All (λ k. is_writing (v k) ≡ true) keys
IsLegal (finishes_write_and_reserves_read keys) v =
    Distinct key_dec keys × All (λ k. is_writing (v k) ≡ true) keys
IsLegal (reserves_read keys) v = Distinct key_dec keys
IsLegal (reserves_read_prefix keys) v = Distinct key_dec keys
IsLegal (reads keys) v = All (λ k. is_free (v k) ≡ true) keys
IsLegal (finishes_read keys) v = Distinct key_dec keys × All (λ k. has_reader (v k) ≡ true) keys
IsLegal (promotes keys) v = Unit
IsLegal (deletes keys force) v = Distinct key_dec keys
