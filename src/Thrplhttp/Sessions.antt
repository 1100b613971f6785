-- ===== src/Thrplhttp/Sessions.antt =====
-- thrplhttp.c, the queue of sessions in struct per_cpu_ctx: queue_client_session and
-- dequeue_client_session, and the threads that call them. `Ring` is its array, `Monitor` the proof.
pub mod Ring
pub mod Passes
pub mod Slack
pub mod Monitor
pub mod Promises
use trivia.Prelude.{
  ℕ, zero, suc, ◌+◌, ◌-◌, ◌%◌, ◌<◌, ◌≡◌, Bool, true, false, ◌&&◌, not, Option, none, some, List, [],
  ◌∷◌, ◌++◌, length, get_elem?, set, replicate, ◌==◌, ltb, leb, if◌then◌else◌,
}

pub record PerCpuCtx : Type 0 where
  pub qsize : ℕ
  pub rqpos : ℕ
  pub wqpos : ℕ
  pub qcount : ℕ
  pub qwait : ℕ
  pub squeue : List ℕ

abbrev pub init_per_cpu_ctx : ℕ → PerCpuCtx
init_per_cpu_ctx qsize = record {
  qsize = qsize;
  rqpos = 0;
  wqpos = 0;
  qcount = 0;
  qwait = 0;
  squeue = replicate qsize 0;
}

-- What a thread does from where it takes the mutex to where it gives it back: it waits for its
-- condition, or it returns, after a signal to the other side or without one.
pub data Pass (R : Type 0) : Type 0 where
  waits : (pcx : PerCpuCtx) → Pass R
  returns : (result : R) (signal : Bool) (pcx : PerCpuCtx) → Pass R

-- `pcx->squeue[pcx->rqpos]` and what follows; an access outside the array is `none`.
abbrev pub take_session : PerCpuCtx → Option ℕ → Option (Pass (Option ℕ))
take_session pcx none = none
take_session pcx (some cfd) = some (
    returns (some cfd) (ltb 0 pcx.qwait)
      (record pcx { rqpos = (pcx.rqpos + 1) % pcx.qsize; qcount = pcx.qcount - 1 }))

-- From the lock, or from the return of pthread_cond_wait, on. The result -1 is `none`.
abbrev pub dequeue_client_session : Bool → PerCpuCtx → Option (Pass (Option ℕ))
dequeue_client_session stopsvr pcx =
    if not stopsvr && pcx.qcount == 0
    then some (waits pcx)
    else if ltb 0 pcx.qcount
    then take_session pcx (get_elem? pcx.squeue pcx.rqpos)
    else some (returns none false pcx)

abbrev pub put_session : PerCpuCtx → ℕ → Option (Pass Bool)
put_session pcx cfd =
    if ltb pcx.wqpos (length pcx.squeue)
    then some (
        returns true true (record pcx {
          qcount = pcx.qcount + 1;
          squeue = set pcx.squeue pcx.wqpos cfd;
          wqpos = (pcx.wqpos + 1) % pcx.qsize;
        }))
    else none

-- From the lock on. The result tells if the session was queued.
abbrev pub queue_client_session : Bool → PerCpuCtx → ℕ → Option (Pass Bool)
queue_client_session stopsvr pcx cfd =
    if not stopsvr && leb pcx.qsize pcx.qcount
    then some (waits (record pcx { qwait = pcx.qwait + 1 }))
    else if ltb pcx.qcount pcx.qsize
    then put_session pcx cfd
    else some (returns false false pcx)

-- From the return of pthread_cond_wait on.
abbrev pub queue_again : Bool → PerCpuCtx → ℕ → Option (Pass Bool)
queue_again stopsvr pcx cfd =
    queue_client_session stopsvr (record pcx { qwait = pcx.qwait - 1 }) cfd

-- The context and its threads: those that sleep in pthread_cond_wait on `cnd` (`idle`) and on `dqcnd`
-- (`held`), those that have found that they must wait and hold the mutex up to there (`to_idle`, `to_held`),
-- those that were woken and have not yet got the mutex back (`woken`, `called`), and all sessions
-- queued and served so far.
pub record Server : Type 0 where
  pub pcx : PerCpuCtx
  pub stopsvr : Bool
  pub to_idle : ℕ
  pub to_held : ℕ
  pub idle : ℕ
  pub woken : ℕ
  pub held : ℕ
  pub called : ℕ
  pub queued : List ℕ
  pub served : List ℕ

-- pthread_cond_signal (dqcnd)
abbrev pub signal_dqcnd : Bool → Server → Server
signal_dqcnd signal s =
    if signal && ltb 0 s.held then record s { held = s.held - 1; called = s.called + 1 } else s

-- pthread_cond_signal (cnd)
abbrev pub signal_cnd : Bool → Server → Server
signal_cnd signal s =
    if signal && ltb 0 s.idle then record s { idle = s.idle - 1; woken = s.woken + 1 } else s

abbrev pub after_dequeue : Server → Pass (Option ℕ) → Server
after_dequeue s (waits pcx) = record s { pcx = pcx; to_idle = s.to_idle + 1 }
after_dequeue s (returns none signal pcx) = signal_dqcnd signal (record s { pcx = pcx })
after_dequeue s (returns (some cfd) signal pcx) =
    signal_dqcnd signal (record s { pcx = pcx; served = s.served ++ (cfd ∷ []) })

abbrev pub after_queue : Server → ℕ → Pass Bool → Server
after_queue s cfd (waits pcx) = record s { pcx = pcx; to_held = s.to_held + 1 }
after_queue s cfd (returns false signal pcx) = signal_cnd signal (record s { pcx = pcx })
after_queue s cfd (returns true signal pcx) =
    signal_cnd signal (record s { pcx = pcx; queued = s.queued ++ (cfd ∷ []) })

-- No thread holds the mutex.
abbrev pub IsFree : Server → Type 0
IsFree s = (s.to_idle ≡ 0) × (s.to_held ≡ 0)

-- One thread runs while it holds the mutex, up to where it gives it back or has found that it must wait; or
-- such a thread begins to wait, which gives the mutex back; or a thread wakes up by itself; or
-- sig_int sets `stopsvr`; or main calls pthread_cond_broadcast (cnd) behind it. The last two do not
-- take the mutex, and may come between the test of `stopsvr` and the wait.
pub data Step (s : Server) : Server → Type 0 where
  dequeue :
      {p : Pass (Option ℕ)}
      → IsFree s
      → dequeue_client_session s.stopsvr s.pcx ≡ some p
      → Step s (after_dequeue s p)
  dequeue_woken :
      {p : Pass (Option ℕ)}
      → IsFree s
      → 0 < s.woken
      → dequeue_client_session s.stopsvr s.pcx ≡ some p
      → Step s (after_dequeue (record s { woken = s.woken - 1 }) p)
  queue :
      (cfd : ℕ) {p : Pass Bool}
      → IsFree s
      → queue_client_session s.stopsvr s.pcx cfd ≡ some p
      → Step s (after_queue s cfd p)
  queue_called :
      (cfd : ℕ) {p : Pass Bool}
      → IsFree s
      → 0 < s.called
      → queue_again s.stopsvr s.pcx cfd ≡ some p
      → Step s (after_queue (record s { called = s.called - 1 }) cfd p)
  begin_idle : 0 < s.to_idle → Step s (record s { to_idle = s.to_idle - 1; idle = s.idle + 1 })
  begin_held : 0 < s.to_held → Step s (record s { to_held = s.to_held - 1; held = s.held + 1 })
  wake_idle : 0 < s.idle → Step s (record s { idle = s.idle - 1; woken = s.woken + 1 })
  wake_held : 0 < s.held → Step s (record s { held = s.held - 1; called = s.called + 1 })
  sig_int : Step s (record s { stopsvr = true })
  broadcast : s.stopsvr ≡ true → Step s (record s { idle = 0; woken = s.woken + s.idle })

abbrev pub start : ℕ → Server
start qsize = record {
  pcx = init_per_cpu_ctx qsize;
  stopsvr = false;
  to_idle = 0;
  to_held = 0;
  idle = 0;
  woken = 0;
  held = 0;
  called = 0;
  queued = [];
  served = [];
}

pub data Reach (qsize : ℕ) : Server → Type 0 where
  begin : Reach qsize (start qsize)
  next : {s t : Server} → Reach qsize s → Step s t → Reach qsize t
