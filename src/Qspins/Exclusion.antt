-- ===== src/Qspins/Exclusion.antt =====
-- What the queue of the ticket lock guarantees: mutual exclusion, and no deadlock.
use trivia.Prelude.{
  ℕ, ◌^◌, ◌<◌, ◌≡◌, refl, ap, ◌⊎◌, inl, inr, true, some, List, [], ◌∷◌, get_elem?, arith,
}
use mathlib.Core.Path.{subst}
use trivia.Qspins.TicketLock.{
  Pc, outside, waiting, inside, leaving, Lock, System, Reach, critical, busy,
}
use trivia.Qspins.Queue.{At, Models, same_item}
use trivia.Qspins.Fifo.{Reach-Models}

first_only : (l : Lock) (k : ℕ) (p : Pc) → critical p ≡ true → At l k p → k ≡ 0
first_only l k outside c h = absurd h
first_only l k (waiting pos) c h = cc
first_only l k inside c h = h
first_only l k (leaving tail) c h = h.0

critical-busy : (p : Pc) → critical p ≡ true → busy p ≡ true
critical-busy outside c = c
critical-busy (waiting pos) c = refl
critical-busy inside c = refl
critical-busy (leaving tail) c = refl

-- Only the thread at the front of the queue can be in the critical section.
at_front :
    {n : ℕ} {s : System} (q : List ℕ)
    → Models n s q
    → (i : ℕ) → critical (s.pc i) ≡ true
    → get_elem? q 0 ≡ some i
at_front {s} q m i c =
    let (k, h) = m.queued i (critical-busy (s.pc i) c) in
    subst (λ k. get_elem? q k ≡ some i) (first_only s.lock k (s.pc i) c (m.place k i h)) h

-- With less than 2 ^ 16 threads, no two threads are ever in the critical section together.
pub mutual_exclusion :
    {n : ℕ} {s : System}
    → n < 2 ^ 16
    → Reach n s
    → (i j : ℕ) → critical (s.pc i) ≡ true
    → critical (s.pc j) ≡ true
    → i ≡ j
mutual_exclusion few r i j ci cj =
    let (q, m) = Reach-Models few r in same_item (at_front q m i ci) (at_front q m j cj)

front_moves :
    (l : Lock) (p : Pc) → l.qtail < 2 ^ 16 → At l 0 p → (critical p ≡ true) ⊎ (p ≡ waiting l.qtail)
front_moves l outside t h = absurd h
front_moves l (waiting pos) t h = inr (ap waiting (omega arith))
front_moves l inside t h = inl refl
front_moves l (leaving tail) t h = inl refl

front_exists :
    (q : List ℕ) (k : ℕ) {i : ℕ} → get_elem? q k ≡ some i → (j : ℕ) × (get_elem? q 0 ≡ some j)
front_exists [] k e = cc
front_exists (x ∷ q) k e = (x, refl)

-- With less than 2 ^ 16 threads the lock never blocks all threads: while one waits, some thread is in
-- the critical section or holds the position that is let in next.
pub no_deadlock :
    {n pos : ℕ} {s : System}
    → n < 2 ^ 16
    → Reach n s
    → (i : ℕ) → s.pc i ≡ waiting pos
    → (j : ℕ) × ((critical (s.pc j) ≡ true) ⊎ (s.pc j ≡ waiting s.lock.qtail))
no_deadlock {s} few r i e =
    let (q, m) = Reach-Models few r in
    let (k, h) = m.queued i (rw e) in
    let (j, first) = front_exists q k h in
    (j, front_moves s.lock (s.pc j) m.tail (m.place 0 j first))
