-- ===== src/Tests/Storage.antt =====
-- The sessions of mini_llmcache/l1/prefetch_controller.py on the small cache.
use mini_llmcache.Base.{
  ◌≢◌, ap, Distinct, ℕ, ◌≡◌, refl, [], ◌∷◌, none, some, false, arith, ok, elem, not, ◌&&◌, ◌++◌,
}
use mini_llmcache.Base.Dict.{contains, erase}
use mini_llmcache.Protocol.{Text, text_dec, ChunkKey, key_dec}
use mini_llmcache.Storage.{Storage}
use mini_llmcache.Storage.Prefetch.{release, end_session, resolve, query, publish, forget, prefetch}
use mini_llmcache.Storage.Prefetch.Locks.{IsCounted, plus, keys_of}
use mini_llmcache.Storage.Prefetch.Release.{asked, release-IsCounted, end_session-IsCounted}
use mini_llmcache.Storage.Prefetch.Resolve.{resolve_waiting, resolve_ended, race_leaks}
use mini_llmcache.Storage.Prefetch.Round.{IsRound, prefetch-IsCounted}
use mini_llmcache.L2.{mock}
use mini_llmcache.L2.Loads.{mock-LoadsBack}
use mini_llmcache.Tests.Data.{key_c, key_b, key_a_ne, cache, cache-IsValid, b-Distinct}

abbrev request : Text
request = 7 ∷ []

-- The session holds the one read lock.
abbrev holding : Storage
holding = record {
  l1 = cache;
  l2s = [];
  jobs = [];
  hits = (request, some (1, 0)) ∷ [];
  held = (request, key_b ∷ []) ∷ [];
}

abbrev nobody : ChunkKey → ℕ
nobody k = 0

holding-IsCounted : IsCounted nobody holding
holding-IsCounted = record {
  valid = cache-IsValid;
  counted = λ k. ground (arith, key_a_ne);
  sessions = (refl, tt);
  distinct = ((refl, tt), tt);
}

-- The worker holds the read lock, for a session that waits.
abbrev waiting : Storage
waiting = record { l1 = cache; l2s = []; jobs = []; hits = (request, none) ∷ []; held = [] }

waiting-IsCounted : IsCounted (plus nobody ((key_b ∷ []) ++ [])) waiting
waiting-IsCounted = record {
  valid = cache-IsValid;
  counted = λ k. ground (arith, key_a_ne);
  sessions = tt;
  distinct = tt;
}

-- The same, for a session that has ended.
abbrev ended : Storage
ended = record { l1 = cache; l2s = []; jobs = []; hits = []; held = [] }

ended-IsCounted : IsCounted (plus nobody ((key_b ∷ []) ++ [])) ended
ended-IsCounted = record {
  valid = cache-IsValid;
  counted = λ k. ground (arith, key_a_ne);
  sessions = tt;
  distinct = tt;
}

release-IsCounted_example :
    (s' : Storage) × (release request (some (key_b ∷ [])) holding ≡ (ok tt, s'))
    × IsCounted nobody s'
    × ((k : ChunkKey)
        → elem key_dec k (keys_of request s'.held) ≡ (
            elem key_dec k (keys_of request holding.held)
            && not (elem key_dec k (asked (some (key_b ∷ [])) (keys_of request holding.held)))))
    × (s'.hits ≡ holding.hits)
release-IsCounted_example =
    release-IsCounted nobody request (some (key_b ∷ [])) holding holding-IsCounted b-Distinct

end_session-IsCounted_example :
    (s' : Storage) × (end_session request holding ≡ (ok tt, s'))
    × IsCounted nobody s'
    × (contains text_dec request s'.held ≡ false)
    × (s'.hits ≡ erase text_dec request holding.hits)
end_session-IsCounted_example = end_session-IsCounted nobody request holding holding-IsCounted

resolve_waiting_example :
    (s' : Storage) × (resolve request (key_b ∷ []) [] waiting ≡ (ok tt, s'))
    × IsCounted nobody s'
    × (query request s' ≡ some (1, 0))
    × (keys_of request s'.held ≡ (key_b ∷ []) ++ [])
resolve_waiting_example =
    resolve_waiting nobody request (key_b ∷ []) [] waiting waiting-IsCounted b-Distinct
      (ground arith) (λ k. refl)

resolve_ended_example :
    (s' : Storage) × (resolve request (key_b ∷ []) [] ended ≡ (ok tt, s'))
    × IsCounted nobody s'
    × (s'.held ≡ ended.held)
    × (s'.hits ≡ ended.hits)
resolve_ended_example =
    resolve_ended nobody request (key_b ∷ []) [] ended ended-IsCounted b-Distinct refl

race_leaks_example :
    (t : Storage) × (release request none waiting ≡ (ok tt, t))
    × (resolve request (key_b ∷ []) [] t ≡ (ok tt, publish request (key_b ∷ []) [] t))
    × (let s' = forget request (publish request (key_b ∷ []) [] t) in
        (contains text_dec request s'.hits ≡ false)
        × (contains text_dec request s'.held ≡ false)
        × IsCounted (plus nobody ((key_b ∷ []) ++ [])) s')
race_leaks_example =
    race_leaks nobody request (key_b ∷ []) [] waiting waiting-IsCounted b-Distinct (ground arith)
      (refl, tt)

-- The same, with a chunk in memory as secondary storage.
abbrev stocked : Storage
stocked = record waiting { l2s = mock (record { chunks = (key_c, 1 ∷ 2 ∷ 3 ∷ 4 ∷ []) ∷ [] }) ∷ [] }

stocked-IsCounted : IsCounted (plus nobody ((key_b ∷ []) ++ [])) stocked
stocked-IsCounted = record {
  valid = cache-IsValid;
  counted = λ k. ground (arith, key_a_ne);
  sessions = tt;
  distinct = tt;
}

key_b_ne : key_b ≢ key_c
key_b_ne h = ground (arith, ap (λ (k : ChunkKey). k.rank) h)

b_and_c-Distinct : Distinct key_dec (key_b ∷ key_c ∷ [])
b_and_c-Distinct = (ground (arith, key_b_ne), (refl, tt))

prefetch-IsCounted_example :
    (hits count : ℕ) × (bytes : ℕ → ℕ) × (s₁ s' : Storage) × (prefetch request
        (key_b ∷ key_c ∷ [])
        (some 4)
        stocked
      ≡ (ok tt, s'))
    × IsCounted (plus nobody ((key_b ∷ []) ++ [])) s'
    × IsRound request (key_b ∷ key_c ∷ []) 4 hits count bytes stocked s₁ s'
prefetch-IsCounted_example =
    prefetch-IsCounted (plus nobody ((key_b ∷ []) ++ [])) request (key_b ∷ key_c ∷ []) 4 stocked
      stocked-IsCounted b_and_c-Distinct
      (mock-LoadsBack 4 (record { chunks = (key_c, 1 ∷ 2 ∷ 3 ∷ 4 ∷ []) ∷ [] }) (refl, tt), tt)
      (ground arith) (λ k. refl)
