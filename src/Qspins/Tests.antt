-- ===== src/Qspins/Tests.antt =====
-- Runs of both locks, and their theorems at concrete states.
use trivia.Prelude.{ℕ, ◌≡◌, ◌-◌, ◌^◌, refl, ◌⊎◌, true, List, arith}
use trivia.Qspins.Threads.{move_to}
use trivia.Qspins.TicketLock.{
  waiting, inside, System, Step, Reach, begin, next, run, xadd, enter, start, critical,
}
use trivia.Qspins.Queue.{Models, QueueStep}
use trivia.Qspins.Fifo.{Reach-Models, Step-Models}
use trivia.Qspins.Exclusion.{mutual_exclusion, no_deadlock}
use trivia.Qspins.SpinLock
use trivia.Qspins.SpinLock.{
  SpinSystem, SpinReach, spin_start, call, acquire, refuse, holds, Negative,
}
use trivia.Qspins.SpinLock.Holder.{spin_exclusion}

-- The threads 0 and 1 have taken a position, and 0 is in the critical section.
abbrev entered : System
entered = record {
  lock = record { qhead = 2; qtail = 0 };
  pc = move_to (move_to (move_to start.pc 0 (waiting 0)) 1 (waiting 1)) 0 inside;
}

reached : Reach 3 entered
reached =
    next (next (next begin (run 0 (omega arith) xadd)) (run 1 (omega arith) xadd))
      (run 0 (omega arith) (enter refl))

third_joins :
    Step 3 entered
      (record { lock = record { qhead = 3; qtail = 0 }; pc = move_to entered.pc 2 (waiting 2) })
third_joins = run 2 (omega arith) xadd

Step-Models_example :
    (q : List ℕ) × QueueStep (Reach-Models (omega arith) reached).0 q
    × Models 3
        (record { lock = record { qhead = 3; qtail = 0 }; pc = move_to entered.pc 2 (waiting 2) })
        q
Step-Models_example =
    Step-Models (Reach-Models (omega arith) reached).0 (omega arith)
      (Reach-Models (omega arith) reached).1 third_joins

mutual_exclusion_example : ◌≡◌ {A = ℕ} 0 0
mutual_exclusion_example = mutual_exclusion (omega arith) reached 0 0 refl refl

no_deadlock_example : (j : ℕ) × ((critical (entered.pc j) ≡ true) ⊎ (entered.pc j ≡ waiting 0))
no_deadlock_example = no_deadlock (omega arith) reached 1 refl

-- Thread 0 holds the spin lock, and thread 1 was refused: the value is -1.
abbrev contended : SpinSystem
contended = record {
  slock = 2 ^ 32 - 1;
  pc =
      move_to
        (move_to (move_to (move_to spin_start.pc 0 SpinLock.trying) 1 SpinLock.trying) 0
          SpinLock.holding)
        1 SpinLock.polling;
}

contended-SpinReach : SpinReach 2 contended
contended-SpinReach =
    SpinLock.next
      (SpinLock.next
        (SpinLock.next (SpinLock.next SpinLock.begin (SpinLock.run 0 (omega arith) call))
          (SpinLock.run 1 (omega arith) call))
        (SpinLock.run 0 (omega arith) (acquire (omega arith))))
      (SpinLock.run 1 (omega arith) (refuse (omega arith)))

spin_exclusion_example : ◌≡◌ {A = ℕ} 0 0
spin_exclusion_example =
    spin_exclusion (omega arith) contended-SpinReach 0 0 (omega arith) (omega arith) refl refl
