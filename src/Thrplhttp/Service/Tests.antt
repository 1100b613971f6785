-- ===== src/Thrplhttp/Service/Tests.antt =====
-- Runs of a service thread, and its theorem at one.
use trivia.Prelude.{
  ℕ, zero, suc, ◌+◌, ◌%◌, ◌<◌, ◌≡◌, refl, true, false, none, some, List, [], ◌∷◌, length, replicate,
  get_elem?, arith,
}
use trivia.Prelude.Int.{ℤ, pos}
use trivia.Prelude.Text.{ascii}
use trivia.Thrplhttp.Connection.{Connection, Received, received, memchr, bstream_readln}
use trivia.Thrplhttp.Http.{Host, tx_sendfile}
use trivia.Thrplhttp.Http.Session.{session_loop}
use trivia.Thrplhttp.Sessions.{PerCpuCtx}
use trivia.Thrplhttp.Sessions.Ring.{Holds}
use trivia.Thrplhttp.Service.{ends, sleeps, halts, service_thproc}
use trivia.Thrplhttp.Service.Draining.{Serves, service_thproc-Serves}

abbrev number : List ℕ → ℤ
number text = pos 0

abbrev host : Host
host = record {
  rootfs = ascii "/srv";
  files = λ path. none;
  sendfile = λ path. some 0;
  mmaps = λ n. true;
  malloc = λ n. true;
  txmode = tx_sendfile;
}

abbrev memory : ℕ → List ℕ
memory cfd = replicate 4096 0

abbrev socket_of : List Received → ℕ → Connection
socket_of rs cfd = record {
  ridx = 0;
  bcnt = 0;
  buf = [];
  incoming = rs;
  results = [];
  wire = [];
  tbytes = 0;
  reqs = 0;
}

-- The other side has closed its end.
abbrev closed : ℕ → Connection
closed = socket_of (received [] ∷ [])

-- It sends nothing.
abbrev silent : ℕ → Connection
silent = socket_of []

-- One place is taken.
abbrev one_queued : PerCpuCtx
one_queued = record { qsize = 2; rqpos = 0; wqpos = 1; qcount = 1; qwait = 0; squeue = 7 ∷ 0 ∷ [] }

drained : service_thproc number number host memory closed 2 true one_queued 5 6 ≡ ends (7 ∷ []) 5 6
unfolding service_thproc session_loop bstream_readln memchr
drained = refl

stays : service_thproc number number host memory silent 2 true one_queued 5 6 ≡ halts [] 7
unfolding service_thproc session_loop bstream_readln memchr
stays = refl

blocked : service_thproc number number host memory closed 2 false one_queued 5 6 ≡ sleeps (7 ∷ [])
unfolding service_thproc session_loop bstream_readln memchr
blocked = refl

first : (k : ℕ) → k < 1 → get_elem? one_queued.squeue ((0 + k) % 2) ≡ get_elem? {A = ℕ} (7 ∷ []) k
first zero lt = refl
first (suc k) lt = absurd (omega arith)

one_queued-Holds : Holds one_queued (7 ∷ [])
one_queued-Holds = record {
  size = refl;
  read = omega arith;
  write = refl;
  count = refl;
  fits = omega arith;
  entry = first;
}

service_thproc-Serves_example : Serves number number host memory closed (7 ∷ []) 5 6 (
    service_thproc number number host memory closed
      (length {A = ℕ} (7 ∷ []) + 1)
      true
      one_queued
      5
      6)
service_thproc-Serves_example =
    service_thproc-Serves number number host memory closed (7 ∷ []) 5 6 one_queued-Holds
