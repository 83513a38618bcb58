-- ===== src/Integration/Connector/Hooks.antt =====
-- The polling protocol of `get_num_new_matched_tokens` in
-- mini_llmcache/integration/vllm_connector.py, which vLLM calls until it is told a number.
use mini_llmcache.Base.{
  ℕ, ◌-◌, ◌≡◌, refl, if_pos, ap, ap₂, sym, ◌∙◌, map, List, [], ◌∷◌, ◌++◌, Option, none, some, Bool,
  true, false, inl, inr, arith, ltb, if◌then◌else◌, Option-cases, Bool-cases,
}
use mathlib.Core.List.{append-nil}
use mini_llmcache.Base.Dict.{lookup, insert, lookup-insert}
use mini_llmcache.Protocol.{Text, text_dec}
use mini_llmcache.Integration.Connector.{
  RequestTracker, Connector, Request, Message, Reply, fails, pending, hits, poll, lookup_message,
  get_num_new_matched_tokens, new_tracker, submit, set_tracker,
}

-- The tracker that the hook works on.
abbrev pub tracker_of : Request → Connector → RequestTracker
tracker_of r c = elim (lookup text_dec r.request_id c.trackers) [
  | none ↦ new_tracker r.all_token_ids
  | some t ↦ t
]

-- What a polled tracker becomes.
abbrev pub polled : ℕ → Reply → RequestTracker → RequestTracker
polled computed fails t = record t { lookup_resolved = true }
polled computed pending t = t
polled computed (hits n) t = record t {
  lookup_resolved = true;
  lmcache_hits = n;
  vllm_hits = computed;
  num_stored_tokens = n;
}

abbrev pub answer : ℕ → Reply → Option ℕ × Bool
answer computed fails = (some 0, false)
answer computed pending = (none, true)
answer computed (hits n) = if ltb computed n then (some (n - computed), true) else (some 0, false)

abbrev pub announced : Request → Connector → List Message
announced r c = elim (lookup text_dec r.request_id c.trackers) [
  | none ↦ lookup_message r c ∷ []
  | some _ ↦ []
]

poll_lem :
    (id : Text) (t : RequestTracker) (computed : ℕ) (reply : Reply) (c : Connector)
    → poll id t computed reply c
      ≡ (answer computed reply, set_tracker id (polled computed reply t) c)
unfolding poll
poll_lem id t computed fails c = refl
poll_lem id t computed pending c = refl
poll_lem id t computed (hits n) c = refl

call_new :
    (r : Request) (computed : ℕ) (reply : Reply) (c : Connector)
    → lookup text_dec r.request_id c.trackers ≡ none
    → get_num_new_matched_tokens r computed reply c
      ≡ poll r.request_id
          (new_tracker r.all_token_ids)
          computed
          reply
          (submit (lookup_message r c) c)
unfolding get_num_new_matched_tokens
call_new r computed reply c new = rw (new, get_num_new_matched_tokens)

call_known :
    (r : Request) (computed : ℕ) (reply : Reply) (c : Connector) (t : RequestTracker)
    → lookup text_dec r.request_id c.trackers ≡ some t
    → t.lookup_resolved ≡ false
    → get_num_new_matched_tokens r computed reply c ≡ poll r.request_id t computed reply c
unfolding get_num_new_matched_tokens
call_known r computed reply c t known waiting =
    rw (known, get_num_new_matched_tokens)
      (ap (λ b. if b then ((some 0, false), c) else poll r.request_id t computed reply c) waiting)

call_resolved :
    (r : Request) (computed : ℕ) (reply : Reply) (c : Connector) (t : RequestTracker)
    → lookup text_dec r.request_id c.trackers ≡ some t
    → t.lookup_resolved ≡ true
    → get_num_new_matched_tokens r computed reply c ≡ ((some 0, false), c)
unfolding get_num_new_matched_tokens
call_resolved r computed reply c t known resolved =
    rw (known, get_num_new_matched_tokens)
      (ap (λ b. if b then ((some 0, false), c) else poll r.request_id t computed reply c) resolved)

-- What a call of the hook has done.
record Calls (r : Request) (computed : ℕ) (reply : Reply) (c : Connector)
    (p : (Option ℕ × Bool) × Connector) : Type 0 where
  answered : p.0 ≡ answer computed reply
  trackers :
      p.1.trackers
      ≡ insert text_dec r.request_id (polled computed reply (tracker_of r c)) c.trackers
  sent : p.1.sent ≡ c.sent ++ announced r c
  geometry : lookup_message r p.1 ≡ lookup_message r c

unresolved_call :
    (r : Request) (computed : ℕ) (reply : Reply) (c : Connector)
    → (tracker_of r c).lookup_resolved ≡ false
    → Calls r computed reply c (get_num_new_matched_tokens r computed reply c)
unfolding lookup_message
unresolved_call r computed reply c waiting =
    elim (Option-cases (lookup text_dec r.request_id c.trackers)) [
      | inl new ↦
          rw (call_new r computed reply c new, poll_lem)
            (record {
              answered = refl;
              trackers = rw (new, tracker_of);
              sent = rw (new, announced);
              geometry = refl;
            })
      | inr (t, known) ↦
          rw (call_known r computed reply c t known (ground (arith, known)), poll_lem)
            (record {
              answered = refl;
              trackers = rw (known, tracker_of);
              sent = rw (known, announced) (sym (append-nil c.sent));
              geometry = refl;
            })
    ]

-- vLLM calls the hook again and again, and each call meets a reply of the server.
unfoldable pub poll_many : Request → ℕ → List Reply → Connector → List (Option ℕ × Bool) × Connector
poll_many r computed [] c = ([], c)
poll_many r computed (reply ∷ replies) c =
    let (result, c') = get_num_new_matched_tokens r computed reply c in
    let (results, c'') = poll_many r computed replies c' in (result ∷ results, c'')

abbrev pub is_pending : Reply → Bool
is_pending pending = true
is_pending fails = false
is_pending (hits n) = false

-- The answers that vLLM should see: those of the server up to the first that settles the lookup,
-- and no tokens from then on.
unfoldable pub expected : ℕ → List Reply → List (Option ℕ × Bool)
expected computed [] = []
expected computed (reply ∷ replies) =
    answer computed reply
    ∷ (if is_pending reply then expected computed replies else map (λ _. (some 0, false)) replies)

-- A resolved request is answered without a message.
settled :
    (r : Request) (computed : ℕ) (replies : List Reply) (c : Connector) (t : RequestTracker)
    → lookup text_dec r.request_id c.trackers ≡ some t
    → t.lookup_resolved ≡ true
    → poll_many r computed replies c ≡ (map (λ _. (some 0, false)) replies, c)
unfolding poll_many
settled r computed [] c t known resolved = refl
settled r computed (reply ∷ replies) c t known resolved = rw (
  call_resolved r computed reply c t known resolved,
  settled r computed replies c t known resolved,
)

polled-resolved :
    (computed : ℕ) (reply : Reply) (t : RequestTracker)
    → t.lookup_resolved ≡ false
    → (polled computed reply t).lookup_resolved ≡ (if is_pending reply then false else true)
polled-resolved computed fails t h = refl
polled-resolved computed pending t h = h
polled-resolved computed (hits n) t h = refl

-- The tracker that a call leaves.
left :
    (r : Request) (computed : ℕ) (reply : Reply) (c : Connector)
    → (tracker_of r c).lookup_resolved ≡ false
    → let c' = (get_num_new_matched_tokens r computed reply c).1 in
      lookup text_dec r.request_id c'.trackers ≡ some (polled computed reply (tracker_of r c))
left r computed reply c waiting =
    let call = unresolved_call r computed reply c waiting in
    rw call.trackers (
      lookup-insert text_dec r.request_id r.request_id (polled computed reply (tracker_of r c))
        c.trackers
      ∙ if_pos (text_dec r.request_id r.request_id) refl _ _)

-- A tracker that is there is the one that the next call works on, and no LOOKUP goes out for it.
found_tracker :
    (r : Request) (c : Connector) (t : RequestTracker)
    → lookup text_dec r.request_id c.trackers ≡ some t
    → (tracker_of r c ≡ t) × (announced r c ≡ [])
found_tracker r c t known = (rw (known, tracker_of), rw (known, announced))

-- However often vLLM polls a request that has no settled answer, it sees the server's replies up to
-- the first that settles the lookup and no tokens from then on, and one LOOKUP is sent if the
-- request was new, else none.
pub poll_many-expected :
    (r : Request) (computed : ℕ) (reply : Reply) (replies : List Reply) (c : Connector)
    → (tracker_of r c).lookup_resolved ≡ false
    → ((poll_many r computed (reply ∷ replies) c).0 ≡ expected computed (reply ∷ replies))
      × ((poll_many r computed (reply ∷ replies) c).1.sent ≡ c.sent ++ announced r c)
unfolding poll_many expected
poll_many-expected r computed reply [] c waiting =
    let call = unresolved_call r computed reply c waiting in
    elim (Bool-cases (is_pending reply)) [
      | inr settles ↦ (rw (call.answered, settles), call.sent)
      | inl again ↦ (rw (call.answered, again), call.sent)
    ]
poll_many-expected r computed reply (next ∷ replies) c waiting =
    let call = unresolved_call r computed reply c waiting in
    let known = left r computed reply c waiting in
    let c' : Connector = (get_num_new_matched_tokens r computed reply c).1 in
    let after = polled-resolved computed reply (tracker_of r c) waiting in
    elim (Bool-cases (is_pending reply)) [
      | inr settles ↦
          let rest =
            settled r computed (next ∷ replies) c' (polled computed reply (tracker_of r c)) known
              (after ∙ ap (λ b. if b then false else true) settles) in
          (
            rw settles (ap₂ ◌∷◌ call.answered (ap (λ q. q.0) rest)),
            ap (λ q. q.1.sent) rest ∙ call.sent,
          )
      | inl again ↦
          let (same, quiet) = found_tracker r c' (polled computed reply (tracker_of r c)) known in
          let rest = poll_many-expected r computed next replies c' (
            ap (λ u. u.lookup_resolved) same ∙ after ∙ ap (λ b. if b then false else true) again) in
          (
            rw again (ap₂ ◌∷◌ call.answered rest.0),
            rest.1 ∙ ap (λ l. c'.sent ++ l) quiet ∙ append-nil c'.sent ∙ call.sent,
          )
    ]
