-- ===== src/Server/Blobs.antt =====
-- The loop of `store` in mini_llmcache/server.py that copies the chunks into their objects.
use mini_llmcache.Base.{
  ℕ, ◌+◌, ◌≤◌, ◌≡◌, ◌≢◌, refl, ap, sym, ◌∙◌, List, [], ◌∷◌, All, some, false, arith, elem, length,
  for_each, ok, >>=-ok, map, Outcome, subst,
}
use mini_llmcache.Base.Dict.{Dict, lookup}
use mini_llmcache.Protocol.{Bytes, ChunkKey, key_dec}
use mini_llmcache.L1.Memory.{MemoryObj, PoolAllocator, write_bytes}
use mini_llmcache.L1.Memory.Segments.{covers, cover_objs}
use mini_llmcache.L1.Memory.Contents.{
  contents, AreDisjoint, write_obj_lem, contents-write_obj_self, contents-write_obj_ne,
}
use mini_llmcache.L1.Manager.{Entry, L1Manager}
use mini_llmcache.L1.Manager.Keeps.{rewritten-IsValid}
use mini_llmcache.L1.Manager.Valid.{IsValid, objs}
use mini_llmcache.Server.{write_blob}

abbrev pub Write : Type 0
Write = ChunkKey × MemoryObj × Bytes

covers_one :
    (x : ℕ) (j : ChunkKey) (e : Entry) (d : Dict ChunkKey Entry)
    → lookup key_dec j d ≡ some e
    → covers x e.obj.offset e.obj.nbytes ≤ cover_objs x (objs d)
covers_one x j e [] h = absurd (cc)
covers_one x j e (p ∷ d) h = elim (key_dec j p.0) [
  | yes here ↦ ground (arith, here, h)
  | no there ↦ omega (arith, covers_one x j e d (ground (arith, h)))
]

covers_two :
    (x : ℕ) (j k : ChunkKey) (e f : Entry) (d : Dict ChunkKey Entry)
    → j ≢ k
    → lookup key_dec j d ≡ some e
    → lookup key_dec k d ≡ some f
    → covers x e.obj.offset e.obj.nbytes + covers x f.obj.offset f.obj.nbytes
      ≤ cover_objs x (objs d)
covers_two x j k e f [] ne h g = absurd (cc)
covers_two x j k e f (p ∷ d) ne h g = elim (key_dec j p.0) [
  | yes here ↦
      let same : p.1 ≡ e = ground (arith, h) in
      let other : lookup key_dec k d ≡ some f = ground (arith, g) in
      omega (
        arith,
        ap (λ (q : Entry). covers x q.obj.offset q.obj.nbytes) same,
        covers_one x k f d other,
      )
  | no there ↦
      let left : lookup key_dec j d ≡ some e = ground (arith, h) in
      elim (key_dec k p.0) [
        | yes here ↦
            let same : p.1 ≡ f = ground (arith, g) in
            omega (
              arith,
              ap (λ (q : Entry). covers x q.obj.offset q.obj.nbytes) same,
              covers_one x j e d left,
            )
        | no elsewhere ↦ omega (arith, covers_two x j k e f d ne left (ground (arith, g)))
      ]
]

-- The objects of two entries of a valid manager share no byte.
pub entries-AreDisjoint :
    (m : L1Manager) (j k : ChunkKey) (e f : Entry)
    → IsValid m
    → j ≢ k
    → lookup key_dec j m.entries ≡ some e
    → lookup key_dec k m.entries ≡ some f
    → AreDisjoint e.obj f.obj
entries-AreDisjoint m j k e f valid ne h g x =
    ground (arith, valid.pool.tiled x, covers_two x j k e f m.entries ne h g)

-- What is to be written belongs to entries of the manager, each entry once, and fits.
abbrev pub Fits : Dict ChunkKey Entry → List Write → Type 0
Fits d [] = Unit
Fits d ((key, obj, blob) ∷ ws) =
    (e : Entry) × (lookup key_dec key d ≡ some e)
    × (e.obj ≡ obj)
    × (length blob ≡ obj.nbytes)
    × (elem key_dec key (map (λ w. w.0) ws) ≡ false)
    × Fits d ws

-- The loop has returned: the pool holds every blob, and the other entries read what they read.
pub record Writes (ws : List Write) (m m' : L1Manager) : Type 0 where
  pub valid : IsValid m'
  pub entries : m'.entries ≡ m.entries
  pub listeners : m'.listeners ≡ m.listeners
  pub written : All (λ w. contents m'.allocator w.1 ≡ w.2) ws
  pub others :
      (j : ChunkKey) (e : Entry)
      → lookup key_dec j m.entries ≡ some e
      → elem key_dec j (map (λ w. w.0) ws) ≡ false
      → contents m'.allocator e.obj ≡ contents m.allocator e.obj

-- The manager after one blob.
abbrev with_blob : MemoryObj → Bytes → L1Manager → L1Manager
with_blob obj blob m = record m {
  allocator = record m.allocator { pool = write_bytes m.allocator.pool obj.offset blob };
}

write_blob_lem :
    (key : ChunkKey) (obj : MemoryObj) (blob : Bytes) (m : L1Manager)
    → length blob ≡ obj.nbytes
    → write_blob (key, obj, blob) m ≡ (ok tt, with_blob obj blob m)
unfolding write_blob
write_blob_lem key obj blob m fits = rw (write_obj_lem obj blob m.allocator fits) refl

pub write_blobs-Writes :
    (ws : List Write) (m : L1Manager)
    → IsValid m
    → Fits m.entries ws
    → (m' : L1Manager) × (for_each write_blob ws m ≡ (ok tt, m')) × Writes ws m m'
write_blobs-Writes [] m valid h = (
  m,
  refl,
  record {
    valid = valid;
    entries = refl;
    listeners = refl;
    written = tt;
    others = λ j e found out. refl;
  },
)
write_blobs-Writes ((key, obj, blob) ∷ ws) m valid (e, found, same, fits, once, rest) =
    let m₁ = with_blob obj blob m in
    let own : contents m₁.allocator obj ≡ blob =
      ap (λ (p : Outcome (Unit {0}) × PoolAllocator). contents p.1 obj)
        (sym (write_obj_lem obj blob m.allocator fits))
      ∙ contents-write_obj_self obj blob m.allocator fits in
    let (m', returned, writes) =
      write_blobs-Writes ws m₁
        (rewritten-IsValid m (write_bytes m.allocator.pool obj.offset blob) valid) rest in
    (
      m',
      >>=-ok (write_blob (key, obj, blob)) (λ _. for_each write_blob ws) m
            (write_blob_lem key obj blob m fits)
          ∙ returned,
      record {
        valid = writes.valid;
        entries = writes.entries;
        listeners = writes.listeners;
        written = (
          ap (contents m'.allocator) (sym same)
              ∙ writes.others key e found once
              ∙ ap (contents m₁.allocator) same
              ∙ own,
          writes.written,
        );
        others = λ j f at out.
            let ne : j ≢ key = λ e. ground (arith, e, out) in
            writes.others j f at (ground (arith, out))
            ∙ ap (λ (p : Outcome (Unit {0}) × PoolAllocator). contents p.1 f.obj)
                (sym (write_obj_lem obj blob m.allocator fits))
            ∙ contents-write_obj_ne obj f.obj blob m.allocator fits (
                subst (λ o. AreDisjoint o f.obj) same
                  (entries-AreDisjoint m key j e f valid (λ q. ne (sym q)) found at));
      },
    )
