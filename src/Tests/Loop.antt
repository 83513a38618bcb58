-- ===== src/Tests/Loop.antt =====
-- Two senders and the loop of mini_llmcache/mq.py; a message is a number.
use mini_llmcache.Base.{ℕ, ◌≡◌, refl, [], ◌∷◌, some, false}
use mini_llmcache.Mq.Loop.{
  SocketLoop, puts, locks, writes, sends, turns, testing, polling, free, start, run, io_step,
}
use mini_llmcache.Mq.Loop.Runs.{Waits, io_step-Waits}
use mini_llmcache.Mq.Loop.Order.{IsOrdered}
use mini_llmcache.Mq.Loop.Fifo.{run-IsOrdered}
use mini_llmcache.Mq.Loop.Flush.{Flushes, queue-Flushes}

-- The message 3 is in the queue, its byte is not written yet, and the I/O thread is in `poll`.
abbrev before_byte : SocketLoop ℕ
before_byte = record {
  send_queue = 3 ∷ [];
  pipe = 0;
  writers = 1;
  stopped = false;
  lock = free;
  point = polling;
  inbox = [];
  received = [];
  sent = [];
}

before_byte_reached : run (puts 3 ∷ turns ∷ []) start ≡ some before_byte
unfolding run start
before_byte_reached = refl

io_step-Waits_example : Waits before_byte
io_step-Waits_example =
    io_step-Waits (puts 3 ∷ turns ∷ []) before_byte before_byte_reached (unfold io_step in refl)

-- A second thread has overtaken it with the message 4, by `send_now`.
abbrev overtaken : SocketLoop ℕ
overtaken = record before_byte { sent = 4 ∷ []; point = testing }

overtaken_reached : run (puts 3 ∷ locks 4 ∷ sends ∷ []) start ≡ some overtaken
unfolding run start
overtaken_reached = refl

run-IsOrdered_example : IsOrdered (3 ∷ []) (4 ∷ []) [] overtaken
run-IsOrdered_example = run-IsOrdered (puts 3 ∷ locks 4 ∷ sends ∷ []) overtaken overtaken_reached

abbrev woken : SocketLoop ℕ
woken = record before_byte { pipe = 1; writers = 0 }

woken_reached : run (puts 3 ∷ turns ∷ writes ∷ []) start ≡ some woken
unfolding run start
woken_reached = refl

queue-Flushes_example : Flushes woken
queue-Flushes_example =
    queue-Flushes (puts 3 ∷ turns ∷ writes ∷ []) woken woken_reached refl refl refl
