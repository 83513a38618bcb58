-- ===== src/Mq/Loop.antt =====
-- The class `SocketLoop` of mini_llmcache/mq.py: the I/O thread of a socket and the threads that
-- send through it. The socket, the pipe and the queue keep what is put into them in order, and
-- `poll` waits until one of the two can be read. `A` is what a message is. A write to a pipe that is
-- full waits: the pipe is unbounded here, which only allows more.
pub mod Wakeup
pub mod Runs
pub mod Order
pub mod Fifo
pub mod Flush
use mini_llmcache.Base.{
  ℕ, zero, suc, ◌-◌, List, [], ◌∷◌, ◌++◌, Option, none, some, Bool, true, false, if◌then◌else◌, not,
  ◌||◌, ltb,
}

-- Where the I/O thread is in `run`: at the test of the outer loop, in `poll`, at the two tests of
-- what is ready, in the inner loop before its test, before it takes the lock and with the lock.
pub data Point : Type 0 where
  testing polling exited : Point
  polled : Bool → Bool → Point
  draining locking sending receiving : Bool → Point

-- Who has `send_lock`: nobody, the I/O thread, or a thread in `send_now` with its message.
pub data Lock (A : Type 0) : Type 0 where
  free io_thread : Lock A
  caller : A → Lock A

-- `pipe` is the number of bytes in the pipe, `writers` that of the threads that are about to write
-- their byte; `inbox` is what has arrived at the socket, `received` what `on_recv` got, and `sent`
-- what has gone out.
pub record SocketLoop (A : Type 0) : Type 0 where
  pub send_queue : List A
  pub pipe : ℕ
  pub writers : ℕ
  pub stopped : Bool
  pub lock : Lock A
  pub point : Point
  pub inbox : List A
  pub received : List A
  pub sent : List A

module _ {A : Type 0} where
  unfoldable pub start : SocketLoop A
  start = record {
    send_queue = [];
    pipe = 0;
    writers = 0;
    stopped = false;
    lock = free;
    point = testing;
    inbox = [];
    received = [];
    sent = [];
  }

  -- `send` puts its message into the queue, and has its byte to write.
  unfoldable pub put : A → SocketLoop A → SocketLoop A
  put frames s = record s { send_queue = s.send_queue ++ (frames ∷ []); writers = suc s.writers }

  -- `close` up to its byte.
  unfoldable pub stop : SocketLoop A → SocketLoop A
  stop s = record s { stopped = true; writers = suc s.writers }

  -- `os.write(self.wake_write, b"x")`
  unfoldable pub write_byte : SocketLoop A → Option (SocketLoop A)
  write_byte s = elim s.writers [
    | zero ↦ none
    | suc n ↦ some (record s { writers = n; pipe = suc s.pipe })
  ]

  -- `send_now`: it waits for the lock, and then sends and releases it.
  unfoldable pub lock_now : A → SocketLoop A → Option (SocketLoop A)
  lock_now frames s = elim s.lock [
    | free ↦ some (record s { lock = caller frames })
    | io_thread ↦ none
    | caller _ ↦ none
  ]

  unfoldable pub send_now : SocketLoop A → Option (SocketLoop A)
  send_now s = elim s.lock [
    | free ↦ none
    | io_thread ↦ none
    | caller frames ↦ some (record s { lock = free; sent = s.sent ++ (frames ∷ []) })
  ]

  unfoldable pub arrive : A → SocketLoop A → SocketLoop A
  arrive frames s = record s { inbox = s.inbox ++ (frames ∷ []) }

  abbrev pub is_nil : List A → Bool
  is_nil [] = true
  is_nil (x ∷ xs) = false

  -- `poller.poll()`
  unfoldable pub poll : SocketLoop A → Option (SocketLoop A)
  poll s =
      let wake = ltb 0 s.pipe in
      let sock = not (is_nil s.inbox) in
      if wake || sock then some (record s { point = polled wake sock }) else none

  -- `self.send_lock`, `self.send_queue.get()` and `self.sock.send_multipart`
  unfoldable pub take_lock : Bool → SocketLoop A → Option (SocketLoop A)
  take_lock sock s = elim s.lock [
    | free ↦ some (record s { lock = io_thread; point = sending sock })
    | io_thread ↦ none
    | caller _ ↦ none
  ]

  unfoldable pub send_first : Bool → SocketLoop A → Option (SocketLoop A)
  send_first sock s = elim s.send_queue [
    | [] ↦ none
    | frames ∷ queue ↦ some (record s {
      send_queue = queue;
      sent = s.sent ++ (frames ∷ []);
      lock = free;
      point = draining sock;
    })
  ]

  -- `self.on_recv(self.sock.recv_multipart())`
  unfoldable pub receive : SocketLoop A → Option (SocketLoop A)
  receive s = elim s.inbox [
    | [] ↦ none
    | frames ∷ inbox ↦
        some (record s { inbox = inbox; received = s.received ++ (frames ∷ []); point = testing })
  ]

  -- The next step of `run`, from where it is; none, if it waits or has ended.
  unfoldable pub step_at : Point → SocketLoop A → Option (SocketLoop A)
  unfolding poll take_lock send_first receive
  step_at testing s = some (record s { point = if s.stopped then exited else polling })
  step_at polling s = poll s
  step_at exited s = none
  step_at (polled false sock) s = some (record s { point = receiving sock })
  step_at (polled true sock) s = some (record s { point = draining sock; pipe = s.pipe - 4096 })
  step_at (draining sock) s =
      some (record s { point = if is_nil s.send_queue then receiving sock else locking sock })
  step_at (locking sock) s = take_lock sock s
  step_at (sending sock) s = send_first sock s
  step_at (receiving false) s = some (record s { point = testing })
  step_at (receiving true) s = receive s

  unfoldable pub io_step : SocketLoop A → Option (SocketLoop A)
  unfolding step_at
  io_step s = step_at s.point s

-- What the threads do, one step each: `puts`, `writes`, `locks`, `sends` and `stops` are those of
-- the callers of `send`, `send_now` and `close`, `arrives` is the network's and `turns` that of `run`.
pub data Event (A : Type 0) : Type 0 where
  puts locks arrives : A → Event A
  writes sends stops turns : Event A

module _ {A : Type 0} where
  unfoldable pub step : Event A → SocketLoop A → Option (SocketLoop A)
  unfolding io_step put stop write_byte lock_now send_now arrive
  step (puts frames) s = some (put frames s)
  step (locks frames) s = lock_now frames s
  step (arrives frames) s = some (arrive frames s)
  step writes s = write_byte s
  step sends s = send_now s
  step stops s = some (stop s)
  step turns s = io_step s

  unfoldable pub run : List (Event A) → SocketLoop A → Option (SocketLoop A)
  unfolding step
  run [] s = some s
  run (e ∷ es) s = elim (step e s) [ none ↦ none | some s' ↦ run es s' ]
