-- ===== src/Mq/Loop/Order.antt =====
-- The loop of mini_llmcache/mq.py keeps the order of its messages.
use mini_llmcache.Base.{
  ◌≡◌, refl, arith, List, [], ◌∷◌, ◌++◌, some, Bool, ap, ap₂, ◌∙◌, sym, some_inj, subst,
}
use mathlib.Core.List.{append_assoc, append-nil}
use mini_llmcache.Mq.Loop.{
  testing, draining, Lock, free, io_thread, caller, SocketLoop, put, lock_now, send_now, arrive,
  send_first, receive, Event, puts, locks, arrives, writes, sends, stops, turns,
}

-- A list that is made up of two, each in its order.
pub data Interleaves {A : Type 0} : List A → List A → List A → Type 0 where
  nothing : Interleaves [] [] []
  left :
      {xs ys zs : List A} (x : A)
      → Interleaves xs ys zs
      → Interleaves (xs ++ (x ∷ [])) ys (zs ++ (x ∷ []))
  right :
      {xs ys zs : List A} (y : A)
      → Interleaves xs ys zs
      → Interleaves xs (ys ++ (y ∷ [])) (zs ++ (y ∷ []))

module _ {A : Type 0} where
  -- What an event gives to `send`, to `send_now` and to the socket.
  abbrev pub put_by : Event A → List A
  put_by (puts x) = x ∷ []
  put_by (locks x) = []
  put_by (arrives x) = []
  put_by writes = []
  put_by sends = []
  put_by stops = []
  put_by turns = []

  abbrev pub now_by : Event A → List A
  now_by (puts x) = []
  now_by (locks x) = x ∷ []
  now_by (arrives x) = []
  now_by writes = []
  now_by sends = []
  now_by stops = []
  now_by turns = []

  abbrev pub arrived_by : Event A → List A
  arrived_by (puts x) = []
  arrived_by (locks x) = []
  arrived_by (arrives x) = x ∷ []
  arrived_by writes = []
  arrived_by sends = []
  arrived_by stops = []
  arrived_by turns = []

  abbrev pub all_by : (Event A → List A) → List (Event A) → List A
  all_by f [] = []
  all_by f (e ∷ es) = f e ++ all_by f es

  -- The message of a thread in `send_now`.
  abbrev pub held_by : Lock A → List A
  held_by free = []
  held_by io_thread = []
  held_by (caller x) = x ∷ []

  -- Of the messages given to `send`, those taken from the queue have gone out, of those given to
  -- `send_now` all but one under way, and both in their order; what has arrived has been received
  -- but for what has not been read yet.
  abbrev pub IsOrdered : List A → List A → List A → SocketLoop A → Type 0
  IsOrdered ps ns rs s =
      (flushed : List A) × (done : List A) × (flushed ++ s.send_queue ≡ ps)
      × (done ++ held_by s.lock ≡ ns)
      × Interleaves flushed done s.sent
      × (s.received ++ s.inbox ≡ rs)

  pub reindex :
      {ps ps' ns ns' rs rs' : List A} (s : SocketLoop A)
      → ps ≡ ps'
      → ns ≡ ns'
      → rs ≡ rs'
      → IsOrdered ps ns rs s
      → IsOrdered ps' ns' rs' s
  reindex s a b c (flushed, done, p, n, mix, r) = (flushed, done, p ∙ a, n ∙ b, mix, r ∙ c)

  -- A state that differs only where the order is not concerned.
  pub same-IsOrdered :
      (ps ns rs : List A) (s s' : SocketLoop A)
      → s'.send_queue ≡ s.send_queue
      → held_by s'.lock ≡ held_by s.lock
      → s'.sent ≡ s.sent
      → s'.received ≡ s.received
      → s'.inbox ≡ s.inbox
      → IsOrdered ps ns rs s
      → IsOrdered ps ns rs s'
  same-IsOrdered ps ns rs s s' a b c d e (flushed, done, p, n, mix, r) = (
    flushed,
    done,
    ap (λ q. flushed ++ q) a ∙ p,
    ap (λ q. done ++ q) b ∙ n,
    subst (Interleaves flushed done) (sym c) mix,
    ap₂ (λ x y. x ++ y) d e ∙ r,
  )

  pub put-IsOrdered :
      (ps ns rs : List A) (x : A) (s : SocketLoop A)
      → IsOrdered ps ns rs s
      → IsOrdered (ps ++ (x ∷ [])) ns rs (put x s)
  unfolding put
  put-IsOrdered ps ns rs x s (flushed, done, p, n, mix, r) = (
    flushed,
    done,
    sym (append_assoc flushed s.send_queue (x ∷ [])) ∙ ap (λ q. q ++ (x ∷ [])) p,
    n,
    mix,
    r,
  )

  pub arrive-IsOrdered :
      (ps ns rs : List A) (x : A) (s : SocketLoop A)
      → IsOrdered ps ns rs s
      → IsOrdered ps ns (rs ++ (x ∷ [])) (arrive x s)
  unfolding arrive
  arrive-IsOrdered ps ns rs x s (flushed, done, p, n, mix, r) = (
    flushed,
    done,
    p,
    n,
    mix,
    sym (append_assoc s.received s.inbox (x ∷ [])) ∙ ap (λ q. q ++ (x ∷ [])) r,
  )

  pub lock_now-IsOrdered :
      (ps ns rs : List A) (x : A) (s s' : SocketLoop A) (l : Lock A)
      → s.lock ≡ l
      → lock_now x s ≡ some s'
      → IsOrdered ps ns rs s
      → IsOrdered ps (ns ++ (x ∷ [])) rs s'
  unfolding lock_now
  lock_now-IsOrdered ps ns rs x s s' free is did (flushed, done, p, n, mix, r) =
      let same : some (record s { lock = caller x }) ≡ some s' = rw (sym did, is) refl in
      subst (IsOrdered ps (ns ++ (x ∷ [])) rs) (some_inj same) (
        flushed,
        done,
        p,
        ap (λ q. q ++ (x ∷ [])) (sym (append-nil done) ∙ ap (λ l. done ++ held_by l) (sym is) ∙ n),
        mix,
        r,
      )
  lock_now-IsOrdered ps ns rs x s s' io_thread is did h = absurd (ground (arith, is, did))
  lock_now-IsOrdered ps ns rs x s s' (caller y) is did h = absurd (ground (arith, is, did))

  pub send_now-IsOrdered :
      (ps ns rs : List A) (s s' : SocketLoop A) (l : Lock A)
      → s.lock ≡ l
      → send_now s ≡ some s'
      → IsOrdered ps ns rs s
      → IsOrdered ps ns rs s'
  unfolding send_now
  send_now-IsOrdered ps ns rs s s' free is did h = absurd (ground (arith, is, did))
  send_now-IsOrdered ps ns rs s s' io_thread is did h = absurd (ground (arith, is, did))
  send_now-IsOrdered ps ns rs s s' (caller x) is did (flushed, done, p, n, mix, r) =
      let same : some (record s { lock = free; sent = s.sent ++ (x ∷ []) }) ≡ some s' =
        rw (sym did, is) refl in
      subst (IsOrdered ps ns rs) (some_inj same) (
        flushed,
        done ++ (x ∷ []),
        p,
        append-nil (done ++ (x ∷ [])) ∙ ap (λ l. done ++ held_by l) (sym is) ∙ n,
        right x mix,
        r,
      )

  pub send_first-IsOrdered :
      (ps ns rs : List A) (sock : Bool) (s s' : SocketLoop A) (q : List A)
      → s.send_queue ≡ q
      → held_by s.lock ≡ []
      → send_first sock s ≡ some s'
      → IsOrdered ps ns rs s
      → IsOrdered ps ns rs s'
  unfolding send_first
  send_first-IsOrdered ps ns rs sock s s' [] is idle did h = absurd (ground (arith, is, did))
  send_first-IsOrdered ps ns rs sock s s' (x ∷ q) is idle did (flushed, done, p, n, mix, r) =
      let same : some (record s {
        send_queue = q;
        sent = s.sent ++ (x ∷ []);
        lock = free;
        point = draining sock;
      })
          ≡ some s' =
        rw (sym did, is) refl in
      subst (IsOrdered ps ns rs) (some_inj same) (
        flushed ++ (x ∷ []),
        done,
        append_assoc flushed (x ∷ []) q ∙ ap (λ l. flushed ++ l) (sym is) ∙ p,
        ap (λ l. done ++ l) (sym idle) ∙ n,
        left x mix,
        r,
      )

  pub receive-IsOrdered :
      (ps ns rs : List A) (s s' : SocketLoop A) (q : List A)
      → s.inbox ≡ q
      → receive s ≡ some s'
      → IsOrdered ps ns rs s
      → IsOrdered ps ns rs s'
  unfolding receive
  receive-IsOrdered ps ns rs s s' [] is did h = absurd (ground (arith, is, did))
  receive-IsOrdered ps ns rs s s' (x ∷ q) is did (flushed, done, p, n, mix, r) =
      let same : some (record s { inbox = q; received = s.received ++ (x ∷ []); point = testing })
          ≡ some s' =
        rw (sym did, is) refl in
      subst (IsOrdered ps ns rs) (some_inj same) (
        flushed,
        done,
        p,
        n,
        mix,
        append_assoc s.received (x ∷ []) q ∙ ap (λ l. s.received ++ l) (sym is) ∙ r,
      )
