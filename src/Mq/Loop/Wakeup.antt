-- ===== src/Mq/Loop/Wakeup.antt =====
-- The loop of mini_llmcache/mq.py loses no wakeup, and never waits for good.
use mini_llmcache.Base.{
  ◌+◌, ◌<◌, ◌≡◌, refl, arith, List, [], ◌∷◌, ◌++◌, some, Bool, true, false, ltb, ◌||◌, not, inl,
  inr, ap, ◌∙◌, sym, some_inj, Bool-cases, subst,
}
use mini_llmcache.Mq.Loop.{
  Point, testing, polling, exited, polled, draining, locking, sending, receiving, Lock, free,
  io_thread, caller, SocketLoop, start, put, stop, arrive, is_nil, take_lock, send_first, receive,
  step_at,
}

-- The I/O thread is in the inner loop.
abbrev pub is_draining : Point → Bool
is_draining testing = false
is_draining polling = false
is_draining exited = false
is_draining (polled wake sock) = false
is_draining (draining sock) = true
is_draining (locking sock) = true
is_draining (sending sock) = true
is_draining (receiving sock) = false

-- It has found a message in the queue.
abbrev pub is_taking : Point → Bool
is_taking testing = false
is_taking polling = false
is_taking exited = false
is_taking (polled wake sock) = false
is_taking (draining sock) = false
is_taking (locking sock) = true
is_taking (sending sock) = true
is_taking (receiving sock) = false

abbrev pub has_lock : Point → Bool
has_lock testing = false
has_lock polling = false
has_lock exited = false
has_lock (polled wake sock) = false
has_lock (draining sock) = false
has_lock (locking sock) = false
has_lock (sending sock) = true
has_lock (receiving sock) = false

-- It has found the socket ready.
abbrev pub is_ready : Point → Bool
is_ready testing = false
is_ready polling = false
is_ready exited = false
is_ready (polled wake sock) = sock
is_ready (draining sock) = sock
is_ready (locking sock) = sock
is_ready (sending sock) = sock
is_ready (receiving sock) = sock

abbrev pub is_io : {A : Type 0} → Lock A → Bool
is_io free = false
is_io io_thread = true
is_io (caller _) = false

pub record IsAwake {A : Type 0} (s : SocketLoop A) : Type 0 where
  pub woken : is_nil s.send_queue ≡ false → is_draining s.point ≡ false → 0 < s.pipe + s.writers
  pub queued : is_taking s.point ≡ true → is_nil s.send_queue ≡ false
  pub holder : is_io s.lock ≡ has_lock s.point
  pub ready : is_ready s.point ≡ true → is_nil s.inbox ≡ false

module _ {A : Type 0} where
  pub start-IsAwake : IsAwake (start {A = A})
  unfolding start
  start-IsAwake = record { woken = λ h g. cc; queued = λ h. cc; holder = refl; ready = λ h. cc }

  is_nil-snoc : (xs : List A) (x : A) → is_nil (xs ++ (x ∷ [])) ≡ false
  is_nil-snoc [] x = refl
  is_nil-snoc (y ∷ xs) x = refl

  pub put-IsAwake : (x : A) (s : SocketLoop A) → IsAwake s → IsAwake (put x s)
  unfolding put
  put-IsAwake x s h = record {
    woken = λ p q. omega arith;
    queued = λ p. is_nil-snoc s.send_queue x;
    holder = h.holder;
    ready = h.ready;
  }

  pub stop-IsAwake : (s : SocketLoop A) → IsAwake s → IsAwake (stop s)
  unfolding stop
  stop-IsAwake s h = record {
    woken = λ p q. omega arith;
    queued = h.queued;
    holder = h.holder;
    ready = h.ready;
  }

  pub arrive-IsAwake : (x : A) (s : SocketLoop A) → IsAwake s → IsAwake (arrive x s)
  unfolding arrive
  arrive-IsAwake x s h = record {
    woken = h.woken;
    queued = h.queued;
    holder = h.holder;
    ready = λ p. is_nil-snoc s.inbox x;
  }

  take_lock-IsAwake :
      (sock : Bool) (s s' : SocketLoop A) (l : Lock A)
      → s.lock ≡ l
      → s.point ≡ locking sock
      → take_lock sock s ≡ some s'
      → IsAwake s
      → IsAwake s'
  unfolding take_lock
  take_lock-IsAwake sock s s' free is at did h =
      let same : some (record s { lock = io_thread; point = sending sock }) ≡ some s' =
        rw (sym did, is) refl in
      subst IsAwake (some_inj same) (record {
        woken = λ p q. cc;
        queued = λ p. h.queued (ap is_taking at);
        holder = refl;
        ready = λ p. h.ready (ap is_ready at ∙ p);
      })
  take_lock-IsAwake sock s s' io_thread is at did h = absurd (ground (arith, is, did))
  take_lock-IsAwake sock s s' (caller x) is at did h = absurd (ground (arith, is, did))

  send_first-IsAwake :
      (sock : Bool) (s s' : SocketLoop A) (q : List A)
      → s.send_queue ≡ q
      → s.point ≡ sending sock
      → send_first sock s ≡ some s'
      → IsAwake s
      → IsAwake s'
  unfolding send_first
  send_first-IsAwake sock s s' [] is at did h = absurd (ground (arith, is, did))
  send_first-IsAwake sock s s' (x ∷ q) is at did h =
      let same : some (record s {
        send_queue = q;
        sent = s.sent ++ (x ∷ []);
        lock = free;
        point = draining sock;
      })
          ≡ some s' =
        rw (sym did, is) refl in
      subst IsAwake (some_inj same) (record {
        woken = λ p q. cc;
        queued = λ p. cc;
        holder = refl;
        ready = λ p. h.ready (ap is_ready at ∙ p);
      })

  receive-IsAwake :
      (s s' : SocketLoop A) (q : List A)
      → s.inbox ≡ q
      → s.point ≡ receiving true
      → receive s ≡ some s'
      → IsAwake s
      → IsAwake s'
  unfolding receive
  receive-IsAwake s s' [] is at did h = absurd (ground (arith, is, did))
  receive-IsAwake s s' (x ∷ q) is at did h =
      let same : some (record s { inbox = q; received = s.received ++ (x ∷ []); point = testing })
          ≡ some s' =
        rw (sym did, is) refl in
      subst IsAwake (some_inj same) (record {
        woken = λ p q. h.woken p (ap is_draining at);
        queued = λ p. cc;
        holder = h.holder ∙ ap has_lock at;
        ready = λ p. cc;
      })

  pub step_at-IsAwake :
      (p : Point) (s s' : SocketLoop A)
      → s.point ≡ p
      → step_at p s ≡ some s'
      → IsAwake s
      → IsAwake s'
  unfolding step_at
  step_at-IsAwake testing s s' at did h = subst IsAwake (some_inj did) (record {
    woken = λ p q. h.woken p (ap is_draining at);
    queued = λ p. ground (arith, p);
    holder = h.holder ∙ ap has_lock at ∙ ground arith;
    ready = λ p. ground (arith, p);
  })
  step_at-IsAwake polling s s' at did h = elim (Bool-cases (ltb 0 s.pipe || not (is_nil s.inbox))) [
    | inl some_ready ↦
        let same : some (record s { point = polled (ltb 0 s.pipe) (not (is_nil s.inbox)) })
            ≡ some s' =
          ground (arith, some_ready, did) in
        subst IsAwake (some_inj same) (record {
          woken = λ p q. h.woken p (ap is_draining at);
          queued = λ p. cc;
          holder = h.holder ∙ ap has_lock at;
          ready = λ p. ground (arith, p);
        })
    | inr none_ready ↦ absurd (ground (arith, none_ready, did))
  ]
  step_at-IsAwake exited s s' at did h = absurd (cc)
  step_at-IsAwake (polled false sock) s s' at did h = subst IsAwake (some_inj did) (record {
    woken = λ p q. h.woken p (ap is_draining at);
    queued = λ p. cc;
    holder = h.holder ∙ ap has_lock at;
    ready = λ p. h.ready (ap is_ready at ∙ p);
  })
  step_at-IsAwake (polled true sock) s s' at did h = subst IsAwake (some_inj did) (record {
    woken = λ p q. cc;
    queued = λ p. cc;
    holder = h.holder ∙ ap has_lock at;
    ready = λ p. h.ready (ap is_ready at ∙ p);
  })
  step_at-IsAwake (draining sock) s s' at did h = subst IsAwake (some_inj did) (record {
    woken = λ p q. absurd (ground (arith, p, q));
    queued = λ p. ground (arith, p);
    holder = h.holder ∙ ap has_lock at ∙ ground arith;
    ready = λ p. h.ready (ap is_ready at ∙ ground (arith, p));
  })
  step_at-IsAwake (locking sock) s s' at did h = take_lock-IsAwake sock s s' s.lock refl at did h
  step_at-IsAwake (sending sock) s s' at did h =
      send_first-IsAwake sock s s' s.send_queue refl at did h
  step_at-IsAwake (receiving false) s s' at did h = subst IsAwake (some_inj did) (record {
    woken = λ p q. h.woken p (ap is_draining at);
    queued = λ p. cc;
    holder = h.holder ∙ ap has_lock at;
    ready = λ p. cc;
  })
  step_at-IsAwake (receiving true) s s' at did h = receive-IsAwake s s' s.inbox refl at did h
