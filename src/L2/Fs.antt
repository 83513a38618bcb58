-- ===== src/L2/Fs.antt =====
-- mini_llmcache/l2/fs.py: the file-system adapter. Of the file system the model has the regular
-- files below `base_path` and below its folder `tmp`, by name. The disk takes every write and every
-- rename: their `OSError`, which ends a task of the adapter, is left out.
use mini_llmcache.Base.{
  ℕ, zero, suc, ◌+◌, ◌-◌, ◌/◌, ◌%◌, min, List, [], ◌∷◌, ◌++◌, none, some, Action, pure, modify,
  ◌>>=◌, ◌>>◌, if◌then◌else◌, ltb, ◌==◌, length, take,
}
use mini_llmcache.Base.Dict.{Dict, insert, erase, contains}
use mini_llmcache.Base.Dict
use mini_llmcache.Protocol.{Text, Bytes, ChunkKey, text_dec}
use mini_llmcache.L1.Memory.{MemoryObj, PoolAllocator, read_bytes, write_bytes}

pub record FsAdapter : Type 0 where
  pub files : Dict Text Bytes
  pub tmp : Dict Text Bytes

-- `model.replace('/', '-')`
unfoldable pub sanitize : Text → Text
sanitize [] = []
sanitize (c ∷ model) = (if c == b'/' then b'-' else c) ∷ sanitize model

abbrev pub hex_digit : ℕ → ℕ
hex_digit d = if ltb d 10 then b'0' + d else b'a' + (d - 10)

-- The digits of a number below 16 ^ `fuel`, put before `rest`.
unfoldable pub hex_from : ℕ → ℕ → Text → Text
hex_from zero n rest = rest
hex_from (suc fuel) n rest =
    let more = hex_from fuel (n / 16) (hex_digit (n % 16) ∷ rest) in
    if ltb n 16 then hex_digit n ∷ rest else more

-- `f"{rank:x}"`: a number has fewer digits than its value and one.
unfoldable pub hex : ℕ → Text
unfolding hex_from
hex n = hex_from (suc n) n []

-- `chunk_hash.hex()`: two digits for each byte.
unfoldable pub hex_bytes : Bytes → Text
hex_bytes [] = []
hex_bytes (b ∷ bytes) = hex_digit (b / 16) ∷ hex_digit (b % 16) ∷ hex_bytes bytes

abbrev pub suffix : Text
suffix = b'.' ∷ b'd' ∷ b'a' ∷ b't' ∷ b'a' ∷ []

unfoldable pub filename : ChunkKey → Text
unfolding sanitize hex hex_bytes
filename key =
    sanitize key.model ++ (b'@' ∷ (hex key.rank ++ (b'@' ∷ (hex_bytes key.chunk_hash ++ suffix))))

-- `tmp.write_bytes(...)`, then `os.replace(tmp, final)`.
unfoldable pub write_tmp : Text → Bytes → FsAdapter → FsAdapter
write_tmp name bytes a = record a { tmp = insert text_dec name bytes a.tmp }

unfoldable pub replace : Text → FsAdapter → FsAdapter
replace name a = elim (Dict.lookup text_dec name a.tmp) [
  | none ↦ a
  | some bytes ↦ record a {
    files = insert text_dec name bytes a.files;
    tmp = erase text_dec name a.tmp;
  }
]

unfoldable pub store_one : ChunkKey → Bytes → FsAdapter → FsAdapter
unfolding write_tmp replace
store_one key bytes a =
    if contains text_dec (filename key) a.files
    then a
    else replace (filename key) (write_tmp (filename key) bytes a)

unfoldable pub store : List ChunkKey → List MemoryObj → PoolAllocator → FsAdapter → FsAdapter
store (key ∷ keys) (obj ∷ objs) pool a =
    store keys objs pool (store_one key (read_bytes pool.pool obj.offset obj.nbytes) a)
store [] objs pool a = a
store (key ∷ keys) [] pool a = a

unfoldable pub lookup : List ChunkKey → FsAdapter → ℕ
lookup [] a = 0
lookup (key ∷ keys) a = if contains text_dec (filename key) a.files then suc (lookup keys a) else 0

-- `f.readinto(obj.byte_array)`: as many bytes as the file has and the view can take.
unfoldable pub read_into : MemoryObj → Bytes → Action PoolAllocator ℕ
read_into obj bytes = do
  modify (λ a. record a { pool = write_bytes a.pool obj.offset (take obj.nbytes bytes) })
  pure (min (length bytes) obj.nbytes)

unfoldable pub load : List ChunkKey → List MemoryObj → FsAdapter → Action PoolAllocator ℕ
unfolding read_into
load (key ∷ keys) (obj ∷ objs) a = elim (Dict.lookup text_dec (filename key) a.files) [
  | none ↦ pure 0
  | some bytes ↦ do
    count ← read_into obj bytes
    if count == obj.nbytes then (do loaded ← load keys objs a; pure (suc loaded)) else pure 0
]
load [] objs a = pure 0
load (key ∷ keys) [] a = pure 0
