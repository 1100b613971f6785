-- ===== src/Thrplhttp/Service.antt =====
-- thrplhttp.c, service_thproc: the loop of a service thread that runs alone, over the queue of sessions and
-- process_session. `socket` gives for each session what its calls of recv and send give.
pub mod Draining
mod Tests
use trivia.Prelude.{ℕ, zero, suc, ◌+◌, Bool, true, Option, none, some, List, [], ◌∷◌}
use trivia.Prelude.Int.{ℤ}
use trivia.Thrplhttp.Connection.{Connection, Run, returns, waits, faults, exits, unfinished}
use trivia.Thrplhttp.Connection.Pending.{total}
use trivia.Thrplhttp.Http.{Host}
use trivia.Thrplhttp.Http.Session.{process_session}
use trivia.Thrplhttp.Sessions.{PerCpuCtx, Pass, dequeue_client_session}

-- What becomes of the thread, with the sessions that it has processed: its loop ends, with the counters;
-- it waits for a session; process_session does not return for the next session; the array is accessed
-- outside its bounds; or the rounds are used up.
pub data Service : Type 0 where
  ends : (processed : List ℕ) (tbytes reqs : ℕ) → Service
  sleeps : (processed : List ℕ) → Service
  halts : (processed : List ℕ) (cfd : ℕ) → Service
  outside : Service
  no_rounds : Service

abbrev pub also_processed : ℕ → Service → Service
also_processed cfd (ends processed tbytes reqs) = ends (cfd ∷ processed) tbytes reqs
also_processed cfd (sleeps processed) = sleeps (cfd ∷ processed)
also_processed cfd (halts processed cfd') = halts (cfd ∷ processed) cfd'
also_processed cfd outside = outside
also_processed cfd no_rounds = no_rounds

-- Behind process_session, whose result is dropped.
abbrev pub after_session : (ℕ → ℕ → Service) → ℕ → Run (Unit {0}) → Service
after_session again cfd (returns u c) = also_processed cfd (again c.tbytes c.reqs)
after_session again cfd waits = halts [] cfd
after_session again cfd faults = halts [] cfd
after_session again cfd (exits c) = halts [] cfd
after_session again cfd unfinished = no_rounds

module _ (atol atoi : List ℕ → ℤ) (h : Host) (memory : ℕ → List ℕ) (socket : ℕ → Connection) where
  -- process_session for a session, with the counters of the context so far. It has a round for each byte
  -- and result of recv.
  abbrev pub session : Bool → ℕ → ℕ → ℕ → Run (Unit {0})
  session stopsvr cfd tbytes reqs =
      process_session atol atoi h (λ _. stopsvr) (total (socket cfd).incoming + 1) (memory cfd)
        (record (socket cfd) { tbytes = tbytes; reqs = reqs })

  abbrev pub after_pass :
      (PerCpuCtx → ℕ → ℕ → Service) → Bool → ℕ → ℕ → Option (Pass (Option ℕ)) → Service
  after_pass again stopsvr tbytes reqs none = outside
  after_pass again stopsvr tbytes reqs (some (Pass.waits pcx)) = sleeps []
  after_pass again stopsvr tbytes reqs (some (Pass.returns none signal pcx)) = ends [] tbytes reqs
  after_pass again stopsvr tbytes reqs (some (Pass.returns (some cfd) signal pcx)) =
      after_session (again pcx) cfd (session stopsvr cfd tbytes reqs)

  unfoldable pub service_thproc : ℕ → Bool → PerCpuCtx → ℕ → ℕ → Service
  service_thproc zero stopsvr pcx tbytes reqs = no_rounds
  service_thproc (suc fuel) stopsvr pcx tbytes reqs =
      after_pass (service_thproc fuel stopsvr) stopsvr tbytes reqs
        (dequeue_client_session stopsvr pcx)
