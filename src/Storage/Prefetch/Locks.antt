-- ===== src/Storage/Prefetch/Locks.antt =====
-- The read locks of mini_llmcache/l1/prefetch_controller.py: every hold on an entry is held by a
-- session, or by a step in flight.
use mini_llmcache.Base.{
  ℕ, ◌+◌, ◌≡◌, refl, List, [], ◌∷◌, Option, none, some, false, not, ◌&&◌, arith, elem, Distinct,
  to_nat, ite,
}
use mini_llmcache.Base.Int.{ℤ, pos}
use mini_llmcache.Base.Dict.{Dict, insert, erase, IsDict, contains, insert-IsDict, erase-IsDict}
use mini_llmcache.Base.Dict
use mini_llmcache.Protocol.{Text, text_dec, ChunkKey, key_dec}
use mini_llmcache.L1.Listener.{discard}
use mini_llmcache.L1.Manager.{Entry}
use mini_llmcache.L1.Manager.Valid.{IsValid}
use mini_llmcache.Storage.{Storage}
use mini_llmcache.Storage.Prefetch.{released_keys, discard_all}

abbrev pub hold_count : Option Entry → ℤ
hold_count none = pos 0
hold_count (some e) = e.read_count

-- How many sessions hold the key.
abbrev pub holders : ChunkKey → Dict Text (List ChunkKey) → ℕ
holders k [] = 0
holders k (e ∷ held) = to_nat (elem key_dec k e.1) + holders k held

abbrev pub AreDistinct : Dict Text (List ChunkKey) → Type 0
AreDistinct [] = Unit
AreDistinct (e ∷ held) = Distinct key_dec e.1 × AreDistinct held

-- Every read count is the number of the sessions that hold the key, and of the steps in flight
-- that do.
pub record IsCounted (in_flight : ChunkKey → ℕ) (s : Storage) : Type 0 where
  pub valid : IsValid s.l1
  pub counted :
      (k : ChunkKey)
      → hold_count (Dict.lookup key_dec k s.l1.entries) ≡ pos (in_flight k + holders k s.held)
  pub sessions : IsDict text_dec s.held
  pub distinct : AreDistinct s.held

abbrev pub plus : (ChunkKey → ℕ) → List ChunkKey → ChunkKey → ℕ
plus in_flight keys k = in_flight k + to_nat (elem key_dec k keys)

pub elem-discard :
    (j k : ChunkKey) (keys : List ChunkKey)
    → Distinct key_dec keys
    → elem key_dec j (discard k keys) ≡ ite (key_dec j k) false (elem key_dec j keys)
unfolding discard
elem-discard j k [] h = ground arith
elem-discard j k (key ∷ keys) h = ground (arith, elem-discard j k keys h.1)

pub discard-Distinct :
    (k : ChunkKey) (keys : List ChunkKey)
    → Distinct key_dec keys
    → Distinct key_dec (discard k keys)
unfolding discard
discard-Distinct k [] h = tt
discard-Distinct k (key ∷ keys) h =
    ground (arith, elem-discard key k keys h.1, discard-Distinct k keys h.1)

pub elem-discard_all :
    (j : ChunkKey) (released keys : List ChunkKey)
    → Distinct key_dec keys
    → elem key_dec j (discard_all released keys)
      ≡ (elem key_dec j keys && not (elem key_dec j released))
unfolding discard_all
elem-discard_all j [] keys h = ground arith
elem-discard_all j (k ∷ released) keys h = ground (
  arith,
  elem-discard_all j released (discard k keys) (discard-Distinct k keys h),
  elem-discard j k keys h,
)

pub discard_all-Distinct :
    (released keys : List ChunkKey)
    → Distinct key_dec keys
    → Distinct key_dec (discard_all released keys)
unfolding discard_all
discard_all-Distinct [] keys h = h
discard_all-Distinct (k ∷ released) keys h =
    discard_all-Distinct released (discard k keys) (discard-Distinct k keys h)

pub elem-released_keys :
    (j : ChunkKey) (keys held : List ChunkKey)
    → elem key_dec j (released_keys keys held) ≡ (elem key_dec j keys && elem key_dec j held)
unfolding released_keys
elem-released_keys j [] held = refl
elem-released_keys j (k ∷ keys) held = ground (arith, elem-released_keys j keys held)

pub released_keys-Distinct :
    (keys held : List ChunkKey) → Distinct key_dec keys → Distinct key_dec (released_keys keys held)
unfolding released_keys
released_keys-Distinct [] held h = tt
released_keys-Distinct (k ∷ keys) held h =
    ground (arith, elem-released_keys k keys held, released_keys-Distinct keys held h.1)

-- The keys that a session holds, from the dict.
abbrev pub keys_of : Text → Dict Text (List ChunkKey) → List ChunkKey
keys_of id held = elim (Dict.lookup text_dec id held) [ none ↦ [] | some keys ↦ keys ]

pub holders-insert :
    (k : ChunkKey) (id : Text) (keys : List ChunkKey) (held : Dict Text (List ChunkKey))
    → holders k (insert text_dec id keys held) + to_nat (elem key_dec k (keys_of id held))
      ≡ holders k held + to_nat (elem key_dec k keys)
holders-insert k id keys [] = omega arith
holders-insert k id keys (e ∷ held) = ground (arith, holders-insert k id keys held)

pub holders-erase :
    (k : ChunkKey) (id : Text) (held : Dict Text (List ChunkKey))
    → holders k (erase text_dec id held) + to_nat (elem key_dec k (keys_of id held))
      ≡ holders k held
holders-erase k id [] = omega arith
holders-erase k id (e ∷ held) = ground (arith, holders-erase k id held)

pub insert-AreDistinct :
    (id : Text) (keys : List ChunkKey) (held : Dict Text (List ChunkKey))
    → Distinct key_dec keys
    → AreDistinct held
    → AreDistinct (insert text_dec id keys held)
insert-AreDistinct id keys [] d h = (d, tt)
insert-AreDistinct id keys (e ∷ held) d h = ground (arith, insert-AreDistinct id keys held d h.1)

pub erase-AreDistinct :
    (id : Text) (held : Dict Text (List ChunkKey))
    → AreDistinct held
    → AreDistinct (erase text_dec id held)
erase-AreDistinct id [] h = tt
erase-AreDistinct id (e ∷ held) h = ground (arith, erase-AreDistinct id held h.1)

pub keys_of-Distinct :
    (id : Text) (held : Dict Text (List ChunkKey))
    → AreDistinct held
    → Distinct key_dec (keys_of id held)
keys_of-Distinct id [] h = tt
keys_of-Distinct id (e ∷ held) h = ground (arith, keys_of-Distinct id held h.1)
