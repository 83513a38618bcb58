-- ===== src/Mq/Loop/Flush.antt =====
-- The loop of mini_llmcache/mq.py sends what is in its queue.
use mini_llmcache.Base.{
  ℕ, zero, suc, ◌-◌, ◌<◌, ◌≡◌, refl, arith, List, [], ◌∷◌, ◌++◌, some, Bool, true, ap, ◌∙◌, sym,
  Bool-cases, ltb, not, inl, inr,
}
use mathlib.Core.List.{append_assoc, append-nil}
use mini_llmcache.Mq.Loop.{
  polling, polled, draining, locking, sending, free, io_thread, SocketLoop, start, is_nil, step_at,
  io_step, poll, take_lock, send_first, Event, turns, step, run,
}
use mini_llmcache.Mq.Loop.Wakeup.{is_draining, start-IsAwake}
use mini_llmcache.Mq.Loop.Runs.{run-IsAwake, is_nil-nil}

module _ {A : Type 0} where
  -- The I/O thread alone takes some steps.
  abbrev pub turns_of : ℕ → List (Event A)
  turns_of zero = []
  turns_of (suc n) = turns ∷ turns_of n

  -- The I/O thread alone sends all of the queue.
  abbrev pub Flushes : SocketLoop A → Type 0
  Flushes s =
      (n : ℕ) × (s' : SocketLoop A) × (run (turns_of n) s ≡ some s')
      × (s'.send_queue ≡ [])
      × (s'.sent ≡ s.sent ++ s.send_queue)

  run_next :
      (e : Event A) (es : List (Event A)) (s s₁ : SocketLoop A)
      → step e s ≡ some s₁
      → run (e ∷ es) s ≡ run es s₁
  unfolding run
  run_next e es s s₁ h = rw (h, run) refl

  turn_lem : (s s₁ : SocketLoop A) → io_step s ≡ some s₁ → step turns s ≡ some s₁
  unfolding step
  turn_lem s s₁ h = h

  turns_lem :
      (n : ℕ) (s s₁ : SocketLoop A)
      → io_step s ≡ some s₁
      → run (turns_of (suc n)) s ≡ run (turns_of n) s₁
  turns_lem n s s₁ h = run_next turns (turns_of n) s s₁ (turn_lem s s₁ h)

  turn-Flushes :
      (s s₁ : SocketLoop A)
      → io_step s ≡ some s₁
      → s₁.sent ++ s₁.send_queue ≡ s.sent ++ s.send_queue
      → Flushes s₁
      → Flushes s
  turn-Flushes s s₁ stepped same (n, s', ran, empty, all) =
      (suc n, s', turns_lem n s s₁ stepped ∙ ran, empty, all ∙ same)

  found_lem :
      (x : A) (q : List A) (sock : Bool) (s : SocketLoop A)
      → s.send_queue ≡ x ∷ q
      → s.point ≡ draining sock
      → io_step s ≡ some (record s { point = locking sock })
  unfolding io_step step_at
  found_lem x q sock s is at = rw (at, is) refl

  lock_lem :
      (sock : Bool) (s : SocketLoop A)
      → s.lock ≡ free
      → s.point ≡ locking sock
      → io_step s ≡ some (record s { lock = io_thread; point = sending sock })
  unfolding io_step step_at take_lock
  lock_lem sock s idle at = rw (at, idle) refl

  send_lem :
      (x : A) (q : List A) (sock : Bool) (s : SocketLoop A)
      → s.send_queue ≡ x ∷ q
      → s.point ≡ sending sock
      → io_step s
        ≡ some (record s {
          send_queue = q;
          sent = s.sent ++ (x ∷ []);
          lock = free;
          point = draining sock;
        })
  unfolding io_step step_at send_first
  send_lem x q sock s is at = rw (at, is) refl

  drain-Flushes :
      (q : List A) (sock : Bool) (s : SocketLoop A)
      → s.send_queue ≡ q
      → s.lock ≡ free
      → s.point ≡ draining sock
      → Flushes s
  unfolding run
  drain-Flushes [] sock s is idle at =
      (zero, s, refl, is, sym (ap (λ q. s.sent ++ q) is ∙ append-nil s.sent))
  drain-Flushes (x ∷ q) sock s is idle at =
      let s₁ = record s { point = locking sock } in
      let s₂ = record s { lock = io_thread; point = sending sock } in
      let s₃ = record s {
        send_queue = q;
        sent = s.sent ++ (x ∷ []);
        lock = free;
        point = draining sock;
      } in
      turn-Flushes s s₁ (found_lem x q sock s is at) refl (
        turn-Flushes s₁ s₂ (lock_lem sock s₁ idle refl) refl (
          turn-Flushes s₂ s₃ (send_lem x q sock s₂ is refl)
            (append_assoc s.sent (x ∷ []) q ∙ ap (λ l. s.sent ++ l) (sym is))
            (drain-Flushes q sock s₃ refl refl refl)))

  poll_lem :
      (s : SocketLoop A)
      → 0 < s.pipe
      → s.point ≡ polling
      → io_step s ≡ some (record s { point = polled true (not (is_nil s.inbox)) })
  unfolding io_step step_at poll
  poll_lem s h at = let woken : ltb 0 s.pipe ≡ true = ground (arith, h) in rw (at, woken) refl

  read_lem :
      (sock : Bool) (s : SocketLoop A)
      → s.point ≡ polled true sock
      → io_step s ≡ some (record s { point = draining sock; pipe = s.pipe - 4096 })
  unfolding io_step step_at
  read_lem sock s at = rw (at) refl

  -- In every state that the threads can reach in which the I/O thread is in `poll`, nobody is in
  -- `send_now` and every caller of `send` has written its byte, the I/O thread alone sends
  -- everything that is in the queue, in order.
  pub queue-Flushes :
      (es : List (Event A)) (s : SocketLoop A)
      → run es start ≡ some s
      → s.point ≡ polling
      → s.lock ≡ free
      → s.writers ≡ 0
      → Flushes s
  unfolding run
  queue-Flushes es s ran at idle none_left = elim (Bool-cases (is_nil s.send_queue)) [
    | inl done ↦
        let empty = is_nil-nil s.send_queue done in
        (zero, s, refl, empty, sym (ap (λ q. s.sent ++ q) empty ∙ append-nil s.sent))
    | inr left ↦
        let awake = run-IsAwake es start s ran start-IsAwake in
        let sock = not (is_nil s.inbox) in
        let s₁ = record s { point = polled true sock } in
        let s₂ = record s { point = draining sock; pipe = s.pipe - 4096 } in
        turn-Flushes s s₁
          (poll_lem s (omega (arith, none_left, awake.woken left (ap is_draining at))) at) refl
          (turn-Flushes s₁ s₂ (read_lem sock s₁ refl) refl
            (drain-Flushes s₂.send_queue sock s₂ refl idle refl))
  ]
