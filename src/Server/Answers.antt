-- ===== src/Server/Answers.antt =====
-- What the answer of `reserve_write` means for the chunks that `store` of mini_llmcache/server.py
-- picks.
use mini_llmcache.Base.{
  ℕ, ◌≡◌, refl, List, [], ◌∷◌, All, true, false, arith, elem, inl, inr, Bool-cases,
}
use mini_llmcache.Base.Dict.{contains}
use mini_llmcache.Protocol.{Bytes, ChunkKey, key_dec}
use mini_llmcache.L1.Manager.{L1Manager, Reserved}
use mini_llmcache.L1.Manager.Write.{Reserves, Untouched}
use mini_llmcache.Server.{writable}
use mini_llmcache.Server.Blobs.{Write}
use mini_llmcache.Server.Writable.{keys_of, Answered, elem-writable, unreserved}

module _ (m : L1Manager) (keys : List ChunkKey) (n : ℕ) (p : Reserved × L1Manager)
    (did : Reserves m keys n false p) where
  pub Untouched-cached : (k : ChunkKey) → contains key_dec k m.entries ≡ true → Untouched m keys k p
  Untouched-cached k cached = elim did.all_or_nothing [
    | inl nothing ↦ nothing k
    | inr split ↦ (split k).0 (ground (arith, cached))
  ]

  answered_one : (k : ChunkKey) → elem key_dec k keys ≡ true → Answered n k p.0 p.1.entries
  answered_one k h = elim did.all_or_nothing [
    | inl nothing ↦ inl (ground (arith, h, (nothing k).1))
    | inr split ↦ elim (Bool-cases (contains key_dec k m.entries)) [
      | inl cached ↦ inl (ground (arith, h, (Untouched-cached k cached).1))
      | inr missing ↦ inr ((split k).1 (ground (arith, h, missing)))
    ]
  ]

  answered_all :
      (ks : List ChunkKey)
      → ((k : ChunkKey) → elem key_dec k ks ≡ true → elem key_dec k keys ≡ true)
      → All (λ k. Answered n k p.0 p.1.entries) ks
  answered_all [] h = tt
  answered_all (k ∷ ks) h =
      (answered_one k (h k (ground arith)), answered_all ks (λ j g. h j (ground (arith, g))))

  pub answered : All (λ k. Answered n k p.0 p.1.entries) keys
  answered = answered_all keys (λ k h. h)

pub Untouched-elem :
    (m : L1Manager) (keys : List ChunkKey) (chunks : List Bytes) (p : Reserved × L1Manager)
    (j : ChunkKey)
    → Untouched m keys j p
    → elem key_dec j (keys_of (writable keys chunks p.0)) ≡ false
Untouched-elem m keys chunks p j (same, got) = elim (Bool-cases (elem key_dec j keys)) [
  | inl asked ↦ unreserved j keys chunks p.0 (ground (arith, got, asked))
  | inr other ↦ elem-writable j keys chunks p.0 other
]

no_writes : (ws : List Write) → ((j : ChunkKey) → elem key_dec j (keys_of ws) ≡ false) → ws ≡ []
no_writes [] h = refl
no_writes ((key, obj, blob) ∷ ws) h = absurd (let g = h key in ground (arith, g))

-- Without a reservation, nothing is written.
pub Untouched-writable :
    (m : L1Manager) (keys : List ChunkKey) (chunks : List Bytes) (p : Reserved × L1Manager)
    → ((j : ChunkKey) → Untouched m keys j p)
    → writable keys chunks p.0 ≡ []
Untouched-writable m keys chunks p untouched =
    no_writes (writable keys chunks p.0) (λ j. Untouched-elem m keys chunks p j (untouched j))
