-- ===== src/Qspins/SpinLock.antt =====
-- qspins.c, spin_lock_init, spin_lock and spin_unlock on one lock, a shared access at a time.
-- `Holder` is the proof.
pub mod Holder
use trivia.Prelude.{ℕ, ◌+◌, ◌-◌, ◌%◌, ◌^◌, ◌≤◌, ◌<◌, ◌≡◌, ◌⊎◌, Bool, true, false}
use trivia.Qspins.Threads.{move_to}

-- Where a thread stands: outside; at label 1; at label 3; behind label 2.
pub data SpinPc : Type 0 where
  outside : SpinPc
  trying : SpinPc
  polling : SpinPc
  holding : SpinPc

abbrev pub spin_lock_init : ℕ
spin_lock_init = 1

-- `decl` on 32 bits, and the sign flag that it leaves for `jns`.
abbrev pub decl : ℕ → ℕ
decl slock = (slock + 2 ^ 32 - 1) % 2 ^ 32

abbrev pub Negative : ℕ → Type 0
Negative value = 2 ^ 31 ≤ value

-- One access by one thread; `cmpl` and `jle` compare with a sign.
pub data SpinAccess (slock : ℕ) : SpinPc → ℕ → SpinPc → Type 0 where
  call : SpinAccess slock outside slock trying
  acquire : decl slock < 2 ^ 31 → SpinAccess slock trying (decl slock) holding
  refuse : Negative (decl slock) → SpinAccess slock trying (decl slock) polling
  relax : (slock ≡ 0) ⊎ Negative slock → SpinAccess slock polling slock polling
  again : 0 < slock → slock < 2 ^ 31 → SpinAccess slock polling slock trying
  unlock : SpinAccess slock holding 1 outside

pub record SpinSystem : Type 0 where
  pub slock : ℕ
  pub pc : ℕ → SpinPc

pub data SpinStep (n : ℕ) (s : SpinSystem) : SpinSystem → Type 0 where
  run :
      (i : ℕ) {l : ℕ} {p : SpinPc}
      → i < n
      → SpinAccess s.slock (s.pc i) l p
      → SpinStep n s (record { slock = l; pc = move_to s.pc i p })

abbrev pub spin_start : SpinSystem
spin_start = record { slock = spin_lock_init; pc = λ _. outside }

pub data SpinReach (n : ℕ) : SpinSystem → Type 0 where
  begin : SpinReach n spin_start
  next : {s t : SpinSystem} → SpinReach n s → SpinStep n s t → SpinReach n t

abbrev pub holds : SpinPc → Bool
holds outside = false
holds trying = false
holds polling = false
holds holding = true

-- It has decremented the lock and not gone back.
abbrev pub counted : SpinPc → Bool
counted outside = false
counted trying = false
counted polling = true
counted holding = true
