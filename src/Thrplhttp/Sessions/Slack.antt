-- ===== src/Thrplhttp/Sessions/Slack.antt =====
-- The invariant of the queue of sessions, and that a pass keeps it: the order of the sessions, and
-- enough threads awake.
use trivia.Prelude.{
  ◌&&◌, ℕ, ◌+◌, ◌-◌, ◌≤◌, ◌<◌, ◌≡◌, refl, sym, ap, ◌∙◌, Bool, true, false, Option, List, [], ◌∷◌,
  ◌++◌, arith, ltb, if◌then◌else◌, append_assoc,
}
use mathlib.Core.Bool.{false≢true}
use trivia.Thrplhttp.Sessions.{
  PerCpuCtx, Pass, Server, IsFree, after_dequeue, after_queue, signal_cnd, signal_dqcnd,
}
use trivia.Thrplhttp.Sessions.Ring.{Holds, Holds-qwait}
use trivia.Thrplhttp.Sessions.Passes.{Dequeued, sleeps, takes, stops, Queued, puts}

-- While a thread sleeps, the others that were woken suffice for all there is to do, but for `spare`
-- of them that are just running.
pub record Slack (spare_idle spare_held : ℕ) (s : Server) : Type 0 where
  pub sessions : List ℕ
  pub holds : Holds s.pcx sessions
  pub fifo : s.queued ≡ s.served ++ sessions
  pub asleep : s.pcx.qwait ≡ s.held + s.called + s.to_held
  pub consumers : 0 < s.idle → s.pcx.qcount ≤ s.woken + spare_idle
  pub producers : 0 < s.held → s.pcx.qsize ≤ s.pcx.qcount + s.called + spare_held
  pub entering_idle : 0 < s.to_idle → s.pcx.qcount ≡ 0
  pub entering_held : 0 < s.to_held → s.pcx.qsize ≤ s.pcx.qcount

abbrev pub IsValid : Server → Type 0
IsValid s = Slack 0 0 s

pub signal_dqcnd-IsValid :
    (signal : Bool) (s : Server)
    → (0 < s.held → signal ≡ true)
    → Slack 0 1 s
    → IsValid (signal_dqcnd signal s)
signal_dqcnd-IsValid signal s h v = on (signal && ltb 0 s.held) refl
  where
    on :
        (b : Bool)
        → (signal && ltb 0 s.held) ≡ b
        → IsValid (if b then record s { held = s.held - 1; called = s.called + 1 } else s)
    on true e = record {
      sessions = v.sessions;
      holds = v.holds;
      fifo = v.fifo;
      entering_idle = v.entering_idle;
      entering_held = v.entering_held;
      consumers = v.consumers;
      asleep = ground (arith, v.asleep, e);
      producers = λ lt. ground (arith, v.producers);
    }
    on false e = record {
      sessions = v.sessions;
      holds = v.holds;
      fifo = v.fifo;
      entering_idle = v.entering_idle;
      entering_held = v.entering_held;
      asleep = v.asleep;
      consumers = v.consumers;
      producers = λ lt. absurd (false≢true (sym e ∙ ground (arith, h lt)));
    }

signal_cnd-IsValid : (s : Server) → Slack 1 0 s → IsValid (signal_cnd true s)
signal_cnd-IsValid s v = on (ltb 0 s.idle) refl
  where
    on :
        (b : Bool)
        → ltb 0 s.idle ≡ b
        → IsValid (if b then record s { idle = s.idle - 1; woken = s.woken + 1 } else s)
    on true e = record {
      sessions = v.sessions;
      holds = v.holds;
      fifo = v.fifo;
      entering_idle = v.entering_idle;
      entering_held = v.entering_held;
      asleep = v.asleep;
      producers = v.producers;
      consumers = λ lt. ground (arith, v.consumers);
    }
    on false e = record {
      sessions = v.sessions;
      holds = v.holds;
      fifo = v.fifo;
      entering_idle = v.entering_idle;
      entering_held = v.entering_held;
      asleep = v.asleep;
      producers = v.producers;
      consumers = λ lt. absurd (false≢true (sym e ∙ ground (arith, lt)));
    }

snoc_served :
    (all served : List ℕ) (c : ℕ) (rest : List ℕ)
    → all ≡ served ++ (c ∷ rest)
    → all ≡ (served ++ (c ∷ [])) ++ rest
snoc_served all served c rest e = e ∙ sym (append_assoc served (c ∷ []) rest)

pub after_dequeue-IsValid :
    (s : Server) {p : Pass (Option ℕ)} (v : Slack 1 0 s)
    → IsFree s
    → Dequeued s.pcx v.sessions p
    → IsValid (after_dequeue s p)
after_dequeue-IsValid s v free (sleeps empty) = record {
  sessions = v.sessions;
  holds = v.holds;
  fifo = v.fifo;
  entering_idle = λ lt. empty;
  entering_held = v.entering_held;
  asleep = v.asleep;
  producers = v.producers;
  consumers = λ lt. omega (arith, empty);
}
after_dequeue-IsValid s v free (stops empty) = record {
  sessions = v.sessions;
  holds = v.holds;
  fifo = v.fifo;
  entering_idle = v.entering_idle;
  entering_held = v.entering_held;
  asleep = v.asleep;
  producers = v.producers;
  consumers = λ lt. omega (arith, empty);
}
after_dequeue-IsValid s v free (takes {c} {rest} {pcx'} e h size wait less) =
    signal_dqcnd-IsValid (ltb 0 s.pcx.qwait)
      (record s { pcx = pcx'; served = s.served ++ (c ∷ []) }) (λ lt. ground (arith, v.asleep))
      (record {
        sessions = rest;
        holds = h;
        fifo = snoc_served s.queued s.served c rest (v.fifo ∙ ap (λ q. s.served ++ q) e);
        entering_idle = λ lt. absurd (omega (arith, lt, free.0));
        entering_held = λ lt. absurd (omega (arith, lt, free.1));
        asleep = wait ∙ v.asleep;
        consumers = λ lt. omega (arith, v.consumers lt, less);
        producers = λ lt. omega (arith, v.producers lt, less, size);
      })

pub after_queue-IsValid :
    (s : Server) (pcx : PerCpuCtx) (c : ℕ) {p : Pass Bool} (v : Slack 0 1 (record s { pcx = pcx }))
    → IsFree s
    → Queued pcx v.sessions c p
    → IsValid (after_queue s c p)
after_queue-IsValid s pcx c v free (sleeps full) = record {
  sessions = v.sessions;
  holds = Holds-qwait (pcx.qwait + 1) v.holds;
  fifo = v.fifo;
  entering_idle = v.entering_idle;
  entering_held = λ lt. full;
  asleep = omega (arith, v.asleep);
  consumers = v.consumers;
  producers = λ lt. omega (arith, full);
}
after_queue-IsValid s pcx c v free (stops full) = record {
  sessions = v.sessions;
  holds = v.holds;
  fifo = v.fifo;
  entering_idle = v.entering_idle;
  entering_held = v.entering_held;
  asleep = v.asleep;
  consumers = v.consumers;
  producers = λ lt. omega (arith, full);
}
after_queue-IsValid s pcx c v free (puts {pcx'} h size wait more) =
    signal_cnd-IsValid (record s { pcx = pcx'; queued = s.queued ++ (c ∷ []) })
      (record {
        sessions = v.sessions ++ (c ∷ []);
        holds = h;
        fifo = ap (λ q. q ++ (c ∷ [])) v.fifo ∙ append_assoc s.served v.sessions (c ∷ []);
        entering_idle = λ lt. absurd (omega (arith, lt, free.0));
        entering_held = λ lt. absurd (omega (arith, lt, free.1));
        asleep = wait ∙ v.asleep;
        consumers = λ lt. omega (arith, v.consumers lt, more);
        producers = λ lt. omega (arith, v.producers lt, more, size);
      })

pub weaken : (s : Server) → IsValid s → Slack 1 0 s
weaken s v = record {
  sessions = v.sessions;
  holds = v.holds;
  fifo = v.fifo;
  entering_idle = v.entering_idle;
  entering_held = v.entering_held;
  asleep = v.asleep;
  consumers = λ lt. omega (arith, v.consumers lt);
  producers = v.producers;
}
