-- ===== src/Qspins/TicketLock.antt =====
-- qspins.c, tspin_lock_init, tspin_lock and tspin_unlock on one lock, a shared access at a time.
use trivia.Prelude.{ℕ, ◌+◌, ◌%◌, ◌^◌, ◌<◌, ◌≡◌, ◌≢◌, Bool, true, false}
use trivia.Qspins.Threads.{move_to}

-- Where a thread stands: outside; in the loop of tspin_lock with its position; in the critical
-- section; in tspin_unlock with the tail that it has read (`addw` is not locked).
pub data Pc : Type 0 where
  outside : Pc
  waiting : (pos : ℕ) → Pc
  inside : Pc
  leaving : (tail : ℕ) → Pc

-- `tspin_type` is a 16-bit unsigned number.
abbrev pub u16 : ℕ → ℕ
u16 n = n % 2 ^ 16

pub record Lock : Type 0 where
  pub qhead : ℕ
  pub qtail : ℕ

abbrev pub tspin_lock_init : Lock
tspin_lock_init = record { qhead = 0; qtail = 0 }

-- One access by one thread.
pub data Access (l : Lock) : Pc → Lock → Pc → Type 0 where
  xadd : Access l outside (record l { qhead = u16 (l.qhead + 1) }) (waiting l.qhead)
  relax : {pos : ℕ} → pos ≢ l.qtail → Access l (waiting pos) l (waiting pos)
  enter : {pos : ℕ} → pos ≡ l.qtail → Access l (waiting pos) l inside
  load : Access l inside l (leaving l.qtail)
  store : {tail : ℕ} → Access l (leaving tail) (record l { qtail = u16 (tail + 1) }) outside

pub record System : Type 0 where
  pub lock : Lock
  pub pc : ℕ → Pc

pub data Step (n : ℕ) (s : System) : System → Type 0 where
  run :
      (i : ℕ) {l : Lock} {p : Pc}
      → i < n
      → Access s.lock (s.pc i) l p
      → Step n s (record { lock = l; pc = move_to s.pc i p })

abbrev pub start : System
start = record { lock = tspin_lock_init; pc = λ _. outside }

pub data Reach (n : ℕ) : System → Type 0 where
  begin : Reach n start
  next : {s t : System} → Reach n s → Step n s t → Reach n t

abbrev pub critical : Pc → Bool
critical outside = false
critical (waiting pos) = false
critical inside = true
critical (leaving tail) = true

abbrev pub busy : Pc → Bool
busy outside = false
busy (waiting pos) = true
busy inside = true
busy (leaving tail) = true
