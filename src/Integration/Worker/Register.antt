-- ===== src/Integration/Worker/Register.antt =====
-- `register_kv_caches` of mini_llmcache/integration/vllm_connector.py, with the geometry that
-- `KVTransfer` of mini_llmcache/l0/transfer.py computes. The tensors of torch are a parameter, with
-- the bytes of one block of each.
use mini_llmcache.Base.{
  ℕ, ◌*◌, ◌/◌, List, [], ◌∷◌, ◌++◌, Option, none, some, Bool, true, false, if◌then◌else◌, ltb, ◌==◌,
  length, Action, ok, raised, value_error, zero_division_error,
}
use mini_llmcache.Base.Dict.{Dict}
use mini_llmcache.Protocol.{Text, RegisterPayload}
use mini_llmcache.L0.Format.{normalize}
use mini_llmcache.Integration.Worker.{Worker}

-- A value of `kv_caches`: a tensor, or a tuple of tensors.
pub data KvCache (Tensor : Type 0) : Type 0 where
  single : Tensor → KvCache Tensor
  tuple : List Tensor → KvCache Tensor

-- The order of Python's strings.
unfoldable pub text_before : Text → Text → Bool
text_before [] [] = false
text_before [] (d ∷ ds) = true
text_before (c ∷ cs) [] = false
text_before (c ∷ cs) (d ∷ ds) = let rest = text_before cs ds in if c == d then rest else ltb c d

module _ {Tensor : Type 0} where
  unfoldable pub insert_cache :
      Text × KvCache Tensor → Dict Text (KvCache Tensor) → Dict Text (KvCache Tensor)
  insert_cache p [] = p ∷ []
  insert_cache p (q ∷ qs) =
      let rest = insert_cache p qs in if text_before q.0 p.0 then q ∷ rest else p ∷ q ∷ qs

  -- `sorted(kv_caches.items())`; the names are distinct.
  unfoldable pub sort_caches : Dict Text (KvCache Tensor) → Dict Text (KvCache Tensor)
  unfolding insert_cache
  sort_caches [] = []
  sort_caches (p ∷ d) = insert_cache p (sort_caches d)

  abbrev pub tensors_of : KvCache Tensor → List Tensor
  tensors_of (single t) = t ∷ []
  tensors_of (tuple ts) = ts

  unfoldable pub flatten : Dict Text (KvCache Tensor) → List Tensor
  flatten [] = []
  flatten (p ∷ d) = tensors_of p.1 ++ flatten d

module _ (Tensor : Type 0) (shape : Tensor → List ℕ) (movedim : Tensor → Tensor)
    (block_bytes : Tensor → ℕ) (model : Text) (world_size rank chunk_size block_size : ℕ)
    (num_gpu_blocks : Option ℕ) where
  -- The announcement for the tensors in block-first layout.
  unfoldable pub announce : List Tensor → Worker → Option RegisterPayload
  announce [] w = none
  announce (t ∷ views) w = some (record {
    instance_id = w.instance_id;
    model = model;
    rank = rank;
    world_size = world_size;
    block_size = block_size;
    chunk_nbytes = length (t ∷ views) * (chunk_size / block_size) * block_bytes t;
  })

  -- The views that the transfer engine works on, and the payload of the REGISTER call.
  unfoldable pub register_kv_caches :
      Dict Text (KvCache Tensor) → Action Worker (List Tensor × RegisterPayload)
  unfolding sort_caches flatten announce
  register_kv_caches kv_caches w =
      elim (normalize Tensor shape movedim (flatten (sort_caches kv_caches)) num_gpu_blocks) [
        | none ↦ (raised value_error, w)
        | some views ↦
            if block_size == 0 then (raised zero_division_error, w) else elim (announce views w) [
              | none ↦ (raised value_error, w)
              | some payload ↦ (ok (views, payload), record w { has_transfer = true })
            ]
      ]
