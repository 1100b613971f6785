-- ===== src/Thrplhttp/Tests.antt =====
-- Runs of the queue of sessions and of bstream_write, and their theorems at concrete states.
use trivia.Prelude.{
  ℕ, ◌+◌, ◌≤◌, ◌≡◌, refl, ◌⊎◌, length, true, false, none, some, List, [], ◌∷◌, ◌++◌, arith,
}
use trivia.Thrplhttp.Sessions.{
  PerCpuCtx, Server, Reach, begin, next, queue, dequeue, begin_idle, sig_int, broadcast, start,
}
use trivia.Thrplhttp.Sessions.Ring.{Holds}
use trivia.Thrplhttp.Sessions.Promises.{session_order, no_lost_wakeup}
use trivia.Thrplhttp.Stream.{failed, sent, bstream_write, write_loop}
use trivia.Thrplhttp.Stream.Writing.{Sends, complete, progress, bstream_write_resends}

-- One place is taken.
abbrev one_queued : PerCpuCtx
one_queued = record { qsize = 2; rqpos = 0; wqpos = 1; qcount = 1; qwait = 0; squeue = 7 ∷ 0 ∷ [] }

-- A thread waited for a session, and session 7 was queued.
abbrev woken_up : Server
woken_up = record {
  pcx = one_queued;
  stopsvr = false;
  to_idle = 0;
  to_held = 0;
  idle = 0;
  woken = 1;
  held = 0;
  called = 0;
  queued = 7 ∷ [];
  served = [];
}

reached : Reach 2 woken_up
reached =
    next (next (next begin (dequeue (refl, refl) refl)) (begin_idle (omega arith)))
      (queue 7 (refl, refl) refl)

-- Between its test of `stopsvr` and its wait, a thread misses the signal and the broadcast: it sleeps, the
-- server is stopped, and no one will wake it.
abbrev missed : Server
missed = record (start 2) { stopsvr = true; idle = 1 }

lost_broadcast : Reach 2 missed
lost_broadcast =
    next (next (next (next begin (dequeue (refl, refl) refl)) sig_int) (broadcast refl))
      (begin_idle (omega arith))

session_order_example : (q : List ℕ) × Holds one_queued q × (7 ∷ [] ≡ [] ++ q)
session_order_example = session_order (omega arith) reached

no_lost_wakeup_example : ((woken_up.idle ≡ 0) ⊎ (1 ≤ 1)) × ((woken_up.held ≡ 0) ⊎ (2 ≤ 1 + 0))
no_lost_wakeup_example = no_lost_wakeup (omega arith) reached

abbrev hello : List ℕ
hello = 104 ∷ 101 ∷ 108 ∷ 108 ∷ 111 ∷ []

hello-Sends : Sends (length hello) [] 0 (sent 2 ∷ sent 3 ∷ [])
hello-Sends =
    progress 2 (omega arith) (omega arith) (progress 3 (omega arith) (omega arith) complete)

from_one-Sends : Sends (length hello) [] 1 (sent 4 ∷ [])
from_one-Sends = progress 4 (omega arith) (omega arith) complete

sends_on : bstream_write (sent 2 ∷ []) hello ≡ none
unfolding write_loop
sends_on = refl

bstream_write_resends_example :
    bstream_write (sent 2 ∷ failed ∷ sent 4 ∷ []) hello
    ≡ some (5, 104 ∷ 101 ∷ 101 ∷ 108 ∷ 108 ∷ 111 ∷ [], [])
bstream_write_resends_example =
    bstream_write_resends hello 1 (omega arith) (omega arith) from_one-Sends
