-- ===== src/Mq/Loop/Fifo.antt =====
-- The loop of mini_llmcache/mq.py sends and receives in order, whatever the threads do.
use mini_llmcache.Base.{
  ℕ, zero, suc, ◌≡◌, refl, arith, List, [], ◌∷◌, ◌++◌, some, Bool, true, false, inl, inr, ap, ◌∙◌,
  sym, some_inj, Bool-cases, Option-cases, subst, ltb, ◌||◌, not,
}
use mathlib.Core.List.{append_assoc, append-nil}
use mini_llmcache.Mq.Loop.{
  Point, testing, polling, exited, polled, draining, locking, sending, receiving, Lock, free,
  io_thread, caller, SocketLoop, start, put, stop, write_byte, arrive, is_nil, step_at, io_step,
  poll, take_lock, Event, puts, locks, arrives, writes, sends, stops, turns, step, run,
}
use mini_llmcache.Mq.Loop.Wakeup.{IsAwake, is_io, has_lock, start-IsAwake}
use mini_llmcache.Mq.Loop.Runs.{step-IsAwake}
use mini_llmcache.Mq.Loop.Order.{
  nothing, put_by, now_by, arrived_by, all_by, held_by, IsOrdered, reindex, same-IsOrdered,
  put-IsOrdered, arrive-IsOrdered, lock_now-IsOrdered, send_now-IsOrdered, send_first-IsOrdered,
  receive-IsOrdered,
}

module _ {A : Type 0} where
  -- A step of the I/O thread that only moves it.
  moved_lem :
      (ps ns rs : List A) (s s' : SocketLoop A) (p : Point) (n : ℕ)
      → some (record s { point = p; pipe = n }) ≡ some s'
      → IsOrdered ps ns rs s
      → IsOrdered ps ns rs s'
  moved_lem ps ns rs s s' p n did h = subst (IsOrdered ps ns rs) (some_inj did) h

  idle_lock : (l : Lock A) → is_io l ≡ true → held_by l ≡ []
  idle_lock free h = refl
  idle_lock io_thread h = refl
  idle_lock (caller x) h = absurd (cc)

  poll-IsOrdered :
      (ps ns rs : List A) (s s' : SocketLoop A)
      → poll s ≡ some s'
      → IsOrdered ps ns rs s
      → IsOrdered ps ns rs s'
  unfolding poll
  poll-IsOrdered ps ns rs s s' did h = elim (Bool-cases (ltb 0 s.pipe || not (is_nil s.inbox))) [
    | inl some_ready ↦
        let same : some (record s { point = polled (ltb 0 s.pipe) (not (is_nil s.inbox)) })
            ≡ some s' =
          ground (arith, some_ready, did) in
        subst (IsOrdered ps ns rs) (some_inj same) h
    | inr none_ready ↦ absurd (ground (arith, none_ready, did))
  ]

  take_lock-IsOrdered :
      (ps ns rs : List A) (sock : Bool) (s s' : SocketLoop A) (l : Lock A)
      → s.lock ≡ l
      → take_lock sock s ≡ some s'
      → IsOrdered ps ns rs s
      → IsOrdered ps ns rs s'
  unfolding take_lock
  take_lock-IsOrdered ps ns rs sock s s' free is did h =
      let same : some (record s { lock = io_thread; point = sending sock }) ≡ some s' =
        rw (sym did, is) refl in
      subst (IsOrdered ps ns rs) (some_inj same) (
        same-IsOrdered ps ns rs s (record s { lock = io_thread; point = sending sock }) refl
          (ap held_by (sym is)) refl refl refl h)
  take_lock-IsOrdered ps ns rs sock s s' io_thread is did h = absurd (ground (arith, is, did))
  take_lock-IsOrdered ps ns rs sock s s' (caller x) is did h = absurd (ground (arith, is, did))

  step_at-IsOrdered :
      (ps ns rs : List A) (p : Point) (s s' : SocketLoop A)
      → s.point ≡ p
      → step_at p s ≡ some s'
      → IsAwake s
      → IsOrdered ps ns rs s
      → IsOrdered ps ns rs s'
  unfolding step_at
  step_at-IsOrdered ps ns rs testing s s' at did awake h = moved_lem ps ns rs s s' _ _ did h
  step_at-IsOrdered ps ns rs polling s s' at did awake h = poll-IsOrdered ps ns rs s s' did h
  step_at-IsOrdered ps ns rs exited s s' at did awake h = absurd (cc)
  step_at-IsOrdered ps ns rs (polled false sock) s s' at did awake h =
      moved_lem ps ns rs s s' _ _ did h
  step_at-IsOrdered ps ns rs (polled true sock) s s' at did awake h =
      moved_lem ps ns rs s s' _ _ did h
  step_at-IsOrdered ps ns rs (draining sock) s s' at did awake h = moved_lem ps ns rs s s' _ _ did h
  step_at-IsOrdered ps ns rs (locking sock) s s' at did awake h =
      take_lock-IsOrdered ps ns rs sock s s' s.lock refl did h
  step_at-IsOrdered ps ns rs (sending sock) s s' at did awake h =
      send_first-IsOrdered ps ns rs sock s s' s.send_queue refl
        (idle_lock s.lock (awake.holder ∙ ap has_lock at)) did h
  step_at-IsOrdered ps ns rs (receiving false) s s' at did awake h =
      moved_lem ps ns rs s s' _ _ did h
  step_at-IsOrdered ps ns rs (receiving true) s s' at did awake h =
      receive-IsOrdered ps ns rs s s' s.inbox refl did h

  write_byte-IsOrdered :
      (ps ns rs : List A) (s s' : SocketLoop A) (n : ℕ)
      → s.writers ≡ n
      → write_byte s ≡ some s'
      → IsOrdered ps ns rs s
      → IsOrdered ps ns rs s'
  unfolding write_byte
  write_byte-IsOrdered ps ns rs s s' zero is did h = absurd (ground (arith, is, did))
  write_byte-IsOrdered ps ns rs s s' (suc n) is did h =
      let same : some (record s { writers = n; pipe = suc s.pipe }) ≡ some s' =
        rw (sym did, is) refl in
      subst (IsOrdered ps ns rs) (some_inj same) h

  step-IsOrdered :
      (ps ns rs : List A) (e : Event A) (s s' : SocketLoop A)
      → step e s ≡ some s'
      → IsAwake s
      → IsOrdered ps ns rs s
      → IsOrdered (ps ++ put_by e) (ns ++ now_by e) (rs ++ arrived_by e) s'
  unfolding step io_step stop
  step-IsOrdered ps ns rs (puts x) s s' did awake h = subst (IsOrdered _ _ _) (some_inj did) (
      reindex (put x s) refl (sym (append-nil ns)) (sym (append-nil rs))
        (put-IsOrdered ps ns rs x s h))
  step-IsOrdered ps ns rs (locks x) s s' did awake h =
      reindex s' (sym (append-nil ps)) refl (sym (append-nil rs))
        (lock_now-IsOrdered ps ns rs x s s' s.lock refl did h)
  step-IsOrdered ps ns rs (arrives x) s s' did awake h = subst (IsOrdered _ _ _) (some_inj did) (
      reindex (arrive x s) (sym (append-nil ps)) (sym (append-nil ns)) refl
        (arrive-IsOrdered ps ns rs x s h))
  step-IsOrdered ps ns rs writes s s' did awake h =
      reindex s' (sym (append-nil ps)) (sym (append-nil ns)) (sym (append-nil rs))
        (write_byte-IsOrdered ps ns rs s s' s.writers refl did h)
  step-IsOrdered ps ns rs sends s s' did awake h =
      reindex s' (sym (append-nil ps)) (sym (append-nil ns)) (sym (append-nil rs))
        (send_now-IsOrdered ps ns rs s s' s.lock refl did h)
  step-IsOrdered ps ns rs stops s s' did awake h =
      reindex s' (sym (append-nil ps)) (sym (append-nil ns)) (sym (append-nil rs))
        (subst (IsOrdered ps ns rs) (some_inj did) h)
  step-IsOrdered ps ns rs turns s s' did awake h =
      reindex s' (sym (append-nil ps)) (sym (append-nil ns)) (sym (append-nil rs))
        (step_at-IsOrdered ps ns rs s.point s s' refl did awake h)

  run-from :
      (ps ns rs : List A) (es : List (Event A)) (s s' : SocketLoop A)
      → run es s ≡ some s'
      → IsAwake s
      → IsOrdered ps ns rs s
      → IsOrdered (ps ++ all_by put_by es) (ns ++ all_by now_by es) (rs ++ all_by arrived_by es) s'
  unfolding run
  run-from ps ns rs [] s s' did awake h =
      subst (IsOrdered _ _ _) (some_inj did)
        (reindex s (sym (append-nil ps)) (sym (append-nil ns)) (sym (append-nil rs)) h)
  run-from ps ns rs (e ∷ es) s s' did awake h = elim (Option-cases (step e s)) [
    | inl stuck ↦ absurd (ground (arith, stuck, did))
    | inr (s₁, stepped) ↦
        reindex s' (append_assoc ps (put_by e) (all_by put_by es))
          (append_assoc ns (now_by e) (all_by now_by es))
          (append_assoc rs (arrived_by e) (all_by arrived_by es))
          (run-from (ps ++ put_by e) (ns ++ now_by e) (rs ++ arrived_by e) es s₁ s'
            (rw (sym did, stepped, run) refl) (step-IsAwake e s s₁ stepped awake)
            (step-IsOrdered ps ns rs e s s₁ stepped awake h))
  ]

  -- Whatever the threads do, what has gone out is made up of the first messages given to `send`,
  -- the others of which are still in the queue, and of the messages given to `send_now`, the last
  -- one perhaps still under way, each in the order given; what `on_recv` has got and what is still
  -- at the socket are the messages that arrived, in order.
  pub run-IsOrdered :
      (es : List (Event A)) (s : SocketLoop A)
      → run es start ≡ some s
      → IsOrdered (all_by put_by es) (all_by now_by es) (all_by arrived_by es) s
  unfolding start
  run-IsOrdered es s ran =
      run-from [] [] [] es start s ran start-IsAwake ([], [], refl, refl, nothing, refl)
