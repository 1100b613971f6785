-- ===== src/Thrplhttp/Service/Draining.antt =====
-- What a service thread does with the sessions that are left when the server stops.
use trivia.Prelude.{
  ℕ, suc, ◌+◌, ◌≡◌, refl, sym, true, false, none, some, List, [], ◌∷◌, length, ltb, arith,
}
use mathlib.Core.Path.{subst}
use trivia.Prelude.Int.{ℤ}
use trivia.Thrplhttp.Connection.{Connection, Run, returns, waits, faults, exits, unfinished}
use trivia.Thrplhttp.Http.{Host}
use trivia.Thrplhttp.Http.Session.{process_session}
use trivia.Thrplhttp.Http.Session.Termination.{process_session_ends}
use trivia.Thrplhttp.Sessions.{PerCpuCtx, Pass, dequeue_client_session}
use trivia.Thrplhttp.Sessions.Ring.{Holds, take_session-Holds}
use trivia.Thrplhttp.Connection.Pending.{total}
use trivia.Thrplhttp.Service.{
  Service, ends, halts, also_processed, after_session, session, after_pass, service_thproc,
}

-- The run waits for ever, faults or ends the program.
pub data Stays : Run (Unit {0}) → Type 0 where
  for_ever : Stays waits
  by_fault : Stays faults
  by_exit : {c : Connection} → Stays (exits c)

module _ (atol atoi : List ℕ → ℤ) (h : Host) (memory : ℕ → List ℕ) (socket : ℕ → Connection) where
  -- The run of process_session once the server is stopped.
  abbrev pub Returns : ℕ → ℕ → ℕ → Run (Unit {0}) → Type 0
  Returns cfd tbytes reqs r =
      process_session atol atoi h (λ _. true) (total (socket cfd).incoming + 1) (memory cfd)
        (record (socket cfd) { tbytes = tbytes; reqs = reqs })
      ≡ r

  -- The sessions are processed in order, each with the counters that those before leave, up to the
  -- first for which process_session does not return.
  pub data Serves : List ℕ → ℕ → ℕ → Service → Type 0 where
    none_left : {tbytes reqs : ℕ} → Serves [] tbytes reqs (ends [] tbytes reqs)
    one_returns :
        {cfd tbytes reqs : ℕ} {q : List ℕ} {c : Connection} {r : Service}
        → Returns cfd tbytes reqs (returns tt c)
        → Serves q c.tbytes c.reqs r
        → Serves (cfd ∷ q) tbytes reqs (also_processed cfd r)
    one_stays :
        {cfd tbytes reqs : ℕ} {q : List ℕ} {r : Run (Unit {0})}
        → Returns cfd tbytes reqs r
        → Stays r
        → Serves (cfd ∷ q) tbytes reqs (halts [] cfd)

  one_session :
      (cfd tbytes reqs : ℕ) (q : List ℕ) (again : ℕ → ℕ → Service)
      → ((tbytes' reqs' : ℕ) → Serves q tbytes' reqs' (again tbytes' reqs'))
      → (r : Run (Unit {0})) → session atol atoi h memory socket true cfd tbytes reqs ≡ r
      → Serves (cfd ∷ q) tbytes reqs (after_session again cfd r)
  one_session cfd tbytes reqs q again go (returns u c) e = one_returns e (go c.tbytes c.reqs)
  one_session cfd tbytes reqs q again go waits e = one_stays e for_ever
  one_session cfd tbytes reqs q again go faults e = one_stays e by_fault
  one_session cfd tbytes reqs q again go (exits c) e = one_stays e by_exit
  one_session cfd tbytes reqs q again go unfinished e = absurd (
      process_session_ends atol atoi h (λ _. true) (total (socket cfd).incoming + 1) (memory cfd)
        (record (socket cfd) { tbytes = tbytes; reqs = reqs }) (omega arith) e)

  drains :
      (q : List ℕ) {pcx : PerCpuCtx} (tbytes reqs : ℕ)
      → Holds pcx q
      → Serves q tbytes reqs
          (service_thproc atol atoi h memory socket (suc (length q)) true pcx tbytes reqs)
  unfolding service_thproc
  drains [] {pcx} tbytes reqs v =
      subst
        (λ o. Serves [] tbytes reqs (
          after_pass atol atoi h memory socket (service_thproc atol atoi h memory socket 0 true)
            true tbytes reqs o))
        (sym stopped) none_left
    where
      stopped : dequeue_client_session true pcx ≡ some (Pass.returns none false pcx)
      stopped = ground (arith, v.count)
  drains (cfd ∷ q) {pcx} tbytes reqs v =
      let (pcx', e, v', size, wait, less) = take_session-Holds v in
      let taken : dequeue_client_session true pcx
          ≡ some (Pass.returns (some cfd) (ltb 0 pcx.qwait) pcx') =
        ground (arith, v.count, e) in
      subst
        (λ o.
          Serves (cfd ∷ q) tbytes reqs
            (after_pass atol atoi h memory socket again true tbytes reqs o))
        (sym taken)
        (one_session cfd tbytes reqs q (again pcx') (λ tbytes' reqs'. drains q tbytes' reqs' v')
          (session atol atoi h memory socket true cfd tbytes reqs) refl)
    where
      again : PerCpuCtx → ℕ → ℕ → Service
      again = service_thproc atol atoi h memory socket (suc (length q)) true

  -- Once `stopsvr` is set, a service thread that runs alone takes the sessions of the queue in order and
  -- calls process_session for each, with the counters that those before it leave. If each call
  -- returns, the loop ends behind the last session; else the thread stays in the first call that waits for
  -- ever, faults or ends the program. One round for each session and one for the end are enough.
  pub service_thproc-Serves :
      (q : List ℕ) {pcx : PerCpuCtx} (tbytes reqs : ℕ)
      → Holds pcx q
      → Serves q tbytes reqs
          (service_thproc atol atoi h memory socket (length q + 1) true pcx tbytes reqs)
  service_thproc-Serves q {pcx} tbytes reqs v =
      subst
        (λ k.
          Serves q tbytes reqs (service_thproc atol atoi h memory socket k true pcx tbytes reqs))
        one_more (drains q tbytes reqs v)
    where
      one_more : suc (length q) ≡ length q + 1
      one_more = omega arith
