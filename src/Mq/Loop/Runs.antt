-- ===== src/Mq/Loop/Runs.antt =====
-- The runs of the loop of mini_llmcache/mq.py among the threads that send.
use mini_llmcache.Base.{
  ℕ, zero, suc, ◌<◌, ◌≡◌, ◌≢◌, refl, arith, List, [], ◌∷◌, ◌++◌, none, some, Bool, true, false, ◌⊎◌,
  inl, inr, ap, ◌∙◌, sym, some_inj, Bool-cases, Option-cases, subst, ltb, ◌||◌, not,
}
use mini_llmcache.Mq.Loop.{
  Point, testing, polling, exited, polled, draining, locking, sending, receiving, Lock, free,
  io_thread, caller, SocketLoop, start, write_byte, lock_now, send_now, is_nil, step_at, io_step,
  poll, take_lock, send_first, receive, Event, puts, locks, arrives, writes, sends, stops, turns,
  step, run,
}
use mini_llmcache.Mq.Loop.Wakeup.{
  IsAwake, is_draining, is_taking, has_lock, is_ready, is_io, start-IsAwake, put-IsAwake,
  stop-IsAwake, arrive-IsAwake, step_at-IsAwake,
}

module _ {A : Type 0} where
  write_byte-IsAwake :
      (s s' : SocketLoop A) (n : ℕ)
      → s.writers ≡ n
      → write_byte s ≡ some s'
      → IsAwake s
      → IsAwake s'
  unfolding write_byte
  write_byte-IsAwake s s' zero is did h = absurd (ground (arith, is, did))
  write_byte-IsAwake s s' (suc n) is did h =
      let same : some (record s { writers = n; pipe = suc s.pipe }) ≡ some s' =
        rw (sym did, is) refl in
      subst IsAwake (some_inj same) (record {
        woken = λ p q. omega arith;
        queued = h.queued;
        holder = h.holder;
        ready = h.ready;
      })

  lock_now-IsAwake :
      (x : A) (s s' : SocketLoop A) (l : Lock A)
      → s.lock ≡ l
      → lock_now x s ≡ some s'
      → IsAwake s
      → IsAwake s'
  unfolding lock_now
  lock_now-IsAwake x s s' free is did h =
      let same : some (record s { lock = caller x }) ≡ some s' = rw (sym did, is) refl in
      subst IsAwake (some_inj same) (record {
        woken = h.woken;
        queued = h.queued;
        holder = ap is_io (sym is) ∙ h.holder;
        ready = h.ready;
      })
  lock_now-IsAwake x s s' io_thread is did h = absurd (ground (arith, is, did))
  lock_now-IsAwake x s s' (caller y) is did h = absurd (ground (arith, is, did))

  send_now-IsAwake :
      (s s' : SocketLoop A) (l : Lock A)
      → s.lock ≡ l
      → send_now s ≡ some s'
      → IsAwake s
      → IsAwake s'
  unfolding send_now
  send_now-IsAwake s s' free is did h = absurd (ground (arith, is, did))
  send_now-IsAwake s s' io_thread is did h = absurd (ground (arith, is, did))
  send_now-IsAwake s s' (caller x) is did h =
      let same : some (record s { lock = free; sent = s.sent ++ (x ∷ []) }) ≡ some s' =
        rw (sym did, is) refl in
      subst IsAwake (some_inj same) (record {
        woken = h.woken;
        queued = h.queued;
        holder = ap is_io (sym is) ∙ h.holder;
        ready = h.ready;
      })

  pub step-IsAwake :
      (e : Event A) (s s' : SocketLoop A) → step e s ≡ some s' → IsAwake s → IsAwake s'
  unfolding step io_step
  step-IsAwake (puts x) s s' did h = subst IsAwake (some_inj did) (put-IsAwake x s h)
  step-IsAwake (locks x) s s' did h = lock_now-IsAwake x s s' s.lock refl did h
  step-IsAwake (arrives x) s s' did h = subst IsAwake (some_inj did) (arrive-IsAwake x s h)
  step-IsAwake writes s s' did h = write_byte-IsAwake s s' s.writers refl did h
  step-IsAwake sends s s' did h = send_now-IsAwake s s' s.lock refl did h
  step-IsAwake stops s s' did h = subst IsAwake (some_inj did) (stop-IsAwake s h)
  step-IsAwake turns s s' did h = step_at-IsAwake s.point s s' refl did h

  pub run-IsAwake :
      (es : List (Event A)) (s s' : SocketLoop A) → run es s ≡ some s' → IsAwake s → IsAwake s'
  unfolding run
  run-IsAwake [] s s' did h = subst IsAwake (some_inj did) h
  run-IsAwake (e ∷ es) s s' did h = elim (Option-cases (step e s)) [
    | inl stuck ↦ absurd (ground (arith, stuck, did))
    | inr (s₁, stepped) ↦
        run-IsAwake es s₁ s' (rw (sym did, stepped, run) refl) (step-IsAwake e s s₁ stepped h)
  ]

  -- Why the I/O thread may have no step.
  abbrev pub Waits : SocketLoop A → Type 0
  Waits s =
      (s.point ≡ exited)
      ⊎ ((s.point ≡ polling)
          × (s.pipe ≡ 0)
          × (s.inbox ≡ [])
          × ((s.send_queue ≡ []) ⊎ (0 < s.writers)))
      ⊎ ((sock : Bool) × (x : A) × (s.point ≡ locking sock) × (s.lock ≡ caller x))

  pub is_nil-nil : (xs : List A) → is_nil xs ≡ true → xs ≡ []
  is_nil-nil [] h = refl
  is_nil-nil (x ∷ xs) h = absurd (cc)

  poll_waits :
      (s : SocketLoop A)
      → s.point ≡ polling
      → poll s ≡ none
      → IsAwake s
      → (s.pipe ≡ 0) × (s.inbox ≡ []) × ((s.send_queue ≡ []) ⊎ (0 < s.writers))
  unfolding poll
  poll_waits s at stuck h = elim (Bool-cases (ltb 0 s.pipe || not (is_nil s.inbox))) [
    | inl some_ready ↦ absurd (ground (arith, some_ready, stuck))
    | inr none_ready ↦
        let dry : s.pipe ≡ 0 = ground (arith, none_ready) in
        (
          dry,
          is_nil-nil s.inbox (ground (arith, none_ready)),
          elim (Bool-cases (is_nil s.send_queue)) [
            | inl done ↦ inl (is_nil-nil s.send_queue done)
            | inr left ↦ inr (omega (arith, dry, h.woken left (ap is_draining at)))
          ],
        )
  ]

  take_lock_waits :
      (sock : Bool) (s : SocketLoop A) (l : Lock A)
      → s.lock ≡ l
      → s.point ≡ locking sock
      → take_lock sock s ≡ none
      → IsAwake s
      → (x : A) × (s.lock ≡ caller x)
  unfolding take_lock
  take_lock_waits sock s free is at stuck h = absurd (ground (arith, is, stuck))
  take_lock_waits sock s io_thread is at stuck h =
      let own : true ≡ false = ap is_io (sym is) ∙ h.holder ∙ ap has_lock at in absurd (cc)
  take_lock_waits sock s (caller x) is at stuck h = (x, is)

  -- A thread that has found a message gets it.
  send_first_goes :
      (sock : Bool) (s : SocketLoop A) (q : List A)
      → s.send_queue ≡ q
      → is_nil s.send_queue ≡ false
      → send_first sock s ≢ none
  unfolding send_first
  send_first_goes sock s [] is left stuck = absurd (ground (arith, is, left))
  send_first_goes sock s (x ∷ q) is left stuck = absurd (ground (arith, is, stuck))

  receive_goes :
      (s : SocketLoop A) (q : List A) → s.inbox ≡ q → is_nil s.inbox ≡ false → receive s ≢ none
  unfolding receive
  receive_goes s [] is left stuck = absurd (ground (arith, is, left))
  receive_goes s (x ∷ q) is left stuck = absurd (ground (arith, is, stuck))

  Waits-step_at :
      (p : Point) (s : SocketLoop A) → s.point ≡ p → step_at p s ≡ none → IsAwake s → Waits s
  unfolding step_at
  Waits-step_at testing s at stuck h = absurd (cc)
  Waits-step_at polling s at stuck h =
      let (dry, nothing, left) = poll_waits s at stuck h in inr (inl (at, dry, nothing, left))
  Waits-step_at exited s at stuck h = inl at
  Waits-step_at (polled false sock) s at stuck h = absurd (cc)
  Waits-step_at (polled true sock) s at stuck h = absurd (cc)
  Waits-step_at (draining sock) s at stuck h = absurd (cc)
  Waits-step_at (locking sock) s at stuck h =
      let (x, held) = take_lock_waits sock s s.lock refl at stuck h in inr (inr (sock, x, at, held))
  Waits-step_at (sending sock) s at stuck h =
      absurd (send_first_goes sock s s.send_queue refl (h.queued (ap is_taking at)) stuck)
  Waits-step_at (receiving false) s at stuck h = absurd (cc)
  Waits-step_at (receiving true) s at stuck h =
      absurd (receive_goes s s.inbox refl (h.ready (ap is_ready at)) stuck)

  -- After any steps of the threads, the I/O thread has no step only if it has ended, if another
  -- thread is in `send_now`, or if it waits in `poll`, nothing has arrived and the queue is empty
  -- or a thread is about to write its byte.
  pub io_step-Waits :
      (es : List (Event A)) (s : SocketLoop A) → run es start ≡ some s → io_step s ≡ none → Waits s
  unfolding io_step
  io_step-Waits es s ran stuck =
      Waits-step_at s.point s refl stuck (run-IsAwake es start s ran start-IsAwake)
