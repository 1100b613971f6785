-- ===== src/Thrplhttp/Sessions/Promises.antt =====
-- What the threads can rely on in every state that the server reaches.
use trivia.Prelude.{
  ℕ, zero, suc, ◌+◌, ◌-◌, ◌≤◌, ◌<◌, ◌≡◌, refl, ◌⊎◌, inl, inr, Bool, Option, some, List, ◌++◌, arith,
}
use trivia.Thrplhttp.Sessions.{
  Pass, dequeue_client_session, queue_client_session, queue_again, Server, Reach,
}
use trivia.Thrplhttp.Sessions.Ring.{Holds, Holds-qwait}
use trivia.Thrplhttp.Sessions.Passes.{dequeue_pass, queue_pass}
use trivia.Thrplhttp.Sessions.Monitor.{Reach-IsValid}

-- In every reachable state, with a queue of at least one place, the array holds the sessions that were
-- queued and not yet served, in the order in which they were queued, and no more than fit: the
-- sessions queued so far are those served so far, in order, and behind them those of the array.
pub session_order :
    {qsize : ℕ} {s : Server}
    → 0 < qsize
    → Reach qsize s
    → (q : List ℕ) × Holds s.pcx q × (s.queued ≡ s.served ++ q)
session_order h r = let v = Reach-IsValid h r in (v.sessions, v.holds, v.fifo)

-- In every reachable state, with a queue of at least one place, no wake-up is lost: while threads
-- sleep for a session, as many others are awake as there are sessions, and while threads
-- sleep for a free place, as many others are awake as there are free places.
pub no_lost_wakeup :
    {qsize : ℕ} {s : Server}
    → 0 < qsize
    → Reach qsize s
    → ((s.idle ≡ 0) ⊎ (s.pcx.qcount ≤ s.woken))
      × ((s.held ≡ 0) ⊎ (s.pcx.qsize ≤ s.pcx.qcount + s.called))
no_lost_wakeup {s} h r =
    let v = Reach-IsValid h r in
    (unless (λ lt. omega (arith, v.consumers lt)), unless (λ lt. omega (arith, v.producers lt)))
  where
    unless : {n : ℕ} {P : Type 0} → (0 < n → P) → (n ≡ 0) ⊎ P
    unless {n = zero} f = inl refl
    unless {n = suc n} f = inr (f (omega arith))

-- In every reachable state, with a queue of at least one place, each operation ends: it waits or
-- returns, and accesses nothing outside the array.
passes_defined :
    {qsize : ℕ} {s : Server}
    → 0 < qsize
    → Reach qsize s
    → (c : ℕ)
    → ((p : Pass (Option ℕ)) × (dequeue_client_session s.stopsvr s.pcx ≡ some p))
      × ((p : Pass Bool) × (queue_client_session s.stopsvr s.pcx c ≡ some p))
      × ((p : Pass Bool) × (queue_again s.stopsvr s.pcx c ≡ some p))
passes_defined {s} h r c =
    let v = Reach-IsValid h r in
    let (p, e, d) = dequeue_pass s.stopsvr v.sessions v.holds in
    let (p', e', d') = queue_pass s.stopsvr v.sessions c v.holds in
    let (p'', e'', d'') =
      queue_pass s.stopsvr v.sessions c (Holds-qwait (s.pcx.qwait - 1) v.holds) in
    ((p, e), (p', e'), (p'', e''))
