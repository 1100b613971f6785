-- ===== src/Thrplhttp/Sessions/Monitor.antt =====
-- Every step of the server keeps the invariant of the queue of sessions.
use trivia.Prelude.{ℕ, ◌-◌, ◌<◌, ◌≡◌, refl, Bool, Option, some, [], arith}
use mathlib.Core.Path.{subst}
use trivia.Thrplhttp.Sessions.{
  PerCpuCtx, Pass, dequeue_client_session, queue_client_session, Server, IsFree, after_dequeue,
  after_queue, Step, dequeue, dequeue_woken, queue, queue_called, begin_idle, begin_held, wake_idle,
  wake_held, sig_int, broadcast, start, Reach, begin, next,
}
use trivia.Thrplhttp.Sessions.Ring.{Holds-qwait, init_per_cpu_ctx-Holds}
use trivia.Thrplhttp.Sessions.Passes.{Dequeued, dequeue_pass, Queued, queue_pass}
use trivia.Thrplhttp.Sessions.Slack.{
  Slack, IsValid, weaken, after_dequeue-IsValid, after_queue-IsValid,
}

same_pass : {R : Type 0} {o : Option (Pass R)} {p p' : Pass R} → o ≡ some p → o ≡ some p' → p ≡ p'
same_pass e e' = ground (arith, e, e')

dequeues :
    (s : Server) {p : Pass (Option ℕ)}
    → Slack 1 0 s
    → IsFree s
    → dequeue_client_session s.stopsvr s.pcx ≡ some p
    → IsValid (after_dequeue s p)
dequeues s v free e =
    let (p, e', d) = dequeue_pass s.stopsvr v.sessions v.holds in
    after_dequeue-IsValid s v free (subst (Dequeued s.pcx v.sessions) (same_pass e' e) d)

queues :
    (s : Server) (pcx : PerCpuCtx) (c : ℕ) {p : Pass Bool}
    → Slack 0 1 (record s { pcx = pcx })
    → IsFree s
    → queue_client_session s.stopsvr pcx c ≡ some p
    → IsValid (after_queue s c p)
queues s pcx c v free e =
    let (p, e', d) = queue_pass s.stopsvr v.sessions c v.holds in
    after_queue-IsValid s pcx c v free (subst (Queued pcx v.sessions c) (same_pass e' e) d)

Step-IsValid : {s t : Server} → IsValid s → Step s t → IsValid t
Step-IsValid {s} v (dequeue free e) = dequeues s (weaken s v) free e
Step-IsValid {s} v (dequeue_woken free lt e) =
    dequeues (record s { woken = s.woken - 1 })
      (record {
        sessions = v.sessions;
        holds = v.holds;
        fifo = v.fifo;
        entering_idle = v.entering_idle;
        entering_held = v.entering_held;
        asleep = v.asleep;
        consumers = λ sleep. omega (arith, lt, v.consumers sleep);
        producers = v.producers;
      })
      free e
Step-IsValid {s} v (queue c free e) =
    queues s s.pcx c
      (record {
        sessions = v.sessions;
        holds = v.holds;
        fifo = v.fifo;
        entering_idle = v.entering_idle;
        entering_held = v.entering_held;
        asleep = v.asleep;
        consumers = v.consumers;
        producers = λ sleep. omega (arith, v.producers sleep);
      })
      free e
Step-IsValid {s} v (queue_called c free lt e) =
    queues (record s { called = s.called - 1 }) (record s.pcx { qwait = s.pcx.qwait - 1 }) c
      (record {
        sessions = v.sessions;
        holds = Holds-qwait (s.pcx.qwait - 1) v.holds;
        fifo = v.fifo;
        entering_idle = v.entering_idle;
        entering_held = v.entering_held;
        asleep = omega (arith, lt, v.asleep);
        consumers = v.consumers;
        producers = λ sleep. omega (arith, lt, v.producers sleep);
      })
      free e
Step-IsValid v (begin_idle lt) = record {
  sessions = v.sessions;
  holds = v.holds;
  fifo = v.fifo;
  entering_idle = λ more. v.entering_idle lt;
  entering_held = v.entering_held;
  asleep = v.asleep;
  consumers = λ sleep. omega (arith, v.entering_idle lt);
  producers = v.producers;
}
Step-IsValid v (begin_held lt) = record {
  sessions = v.sessions;
  holds = v.holds;
  fifo = v.fifo;
  entering_idle = v.entering_idle;
  entering_held = λ more. v.entering_held lt;
  asleep = omega (arith, lt, v.asleep);
  consumers = v.consumers;
  producers = λ sleep. omega (arith, v.entering_held lt);
}
Step-IsValid v (wake_idle lt) = record {
  sessions = v.sessions;
  holds = v.holds;
  fifo = v.fifo;
  entering_idle = v.entering_idle;
  entering_held = v.entering_held;
  asleep = v.asleep;
  consumers = λ sleep. omega (arith, lt, v.consumers lt);
  producers = v.producers;
}
Step-IsValid v (wake_held lt) = record {
  sessions = v.sessions;
  holds = v.holds;
  fifo = v.fifo;
  entering_idle = v.entering_idle;
  entering_held = v.entering_held;
  asleep = omega (arith, lt, v.asleep);
  consumers = v.consumers;
  producers = λ sleep. omega (arith, v.producers lt);
}
Step-IsValid v sig_int = record {
  sessions = v.sessions;
  holds = v.holds;
  fifo = v.fifo;
  entering_idle = v.entering_idle;
  entering_held = v.entering_held;
  asleep = v.asleep;
  consumers = v.consumers;
  producers = v.producers;
}
Step-IsValid v (broadcast stopped) = record {
  sessions = v.sessions;
  holds = v.holds;
  fifo = v.fifo;
  entering_idle = v.entering_idle;
  entering_held = v.entering_held;
  asleep = v.asleep;
  consumers = λ sleep. absurd (omega (arith, sleep));
  producers = v.producers;
}

start-IsValid : (qsize : ℕ) → 0 < qsize → IsValid (start qsize)
start-IsValid qsize h = record {
  sessions = [];
  holds = init_per_cpu_ctx-Holds qsize h;
  fifo = refl;
  entering_idle = λ lt. absurd (omega (arith, lt));
  entering_held = λ lt. absurd (omega (arith, lt));
  asleep = refl;
  consumers = λ sleep. absurd (omega (arith, sleep));
  producers = λ sleep. absurd (omega (arith, sleep));
}

pub Reach-IsValid : {qsize : ℕ} {s : Server} → 0 < qsize → Reach qsize s → IsValid s
Reach-IsValid {qsize} h begin = start-IsValid qsize h
Reach-IsValid h (next r st) = Step-IsValid (Reach-IsValid h r) st
