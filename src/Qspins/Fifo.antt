-- ===== src/Qspins/Fifo.antt =====
-- The ticket lock implements a queue of threads: a thread joins at the end, only the first is let
-- in, and it leaves from the front.
use trivia.Prelude.{
  ℕ, zero, suc, ◌+◌, ◌^◌, ◌≤◌, ◌<◌, ◌≡◌, refl, sym, ap, ◌∙◌, ◌≢◌, ◌⊎◌, inl, inr, true, some, List,
  [], ◌∷◌, ◌++◌, length, get_elem?, length-append, arith, ℕ_discrete,
}
use mathlib.Core.Path.{subst}
use mathlib.Core.Bool.{false≢true}
use trivia.Qspins.Threads.{move_to, count-le, count-move_to, count_none, move_to_self, move_to_ne}
use trivia.Qspins.TicketLock.{
  Pc, outside, waiting, inside, leaving, Lock, Access, xadd, relax, enter, load, store, System,
  Step, run, start, Reach, begin, next, busy, u16,
}
use trivia.Qspins.Queue.{
  At, Models, QueueStep, get_elem?-lt, get_elem?-append_last, get_elem?-append_front,
  get_elem?-append_self, same_item, rest, get_elem?-rest, left, length-rest, advance, join, stay,
}

module _ {n : ℕ} {s : System} {q : List ℕ} (few : n < 2 ^ 16) (m : Models n s q) (i : ℕ)
    (lt : i < n) where
  bounded : length q ≤ n
  bounded = omega (arith, m.size, count-le busy n s.pc)

  -- The thread that has nothing in the queue is not one of those in it.
  absent : s.pc i ≡ outside → (k j : ℕ) → get_elem? q k ≡ some j → j ≢ i
  absent e k j h same = subst (At s.lock k) (ap s.pc same ∙ e) (m.place k j h)

  -- A thread other than `i` at place `k`, after `i` has moved.
  other_place :
      (p : Pc) (k j : ℕ) → j ≢ i → get_elem? q k ≡ some j → At s.lock k (move_to s.pc i p j)
  other_place p k j ne h = rw (move_to_ne s.pc i j p ne) (m.place k j h)

  abbrev Simulated : Lock → Pc → Type 0
  Simulated l p =
      (q' : List ℕ) × QueueStep q q' × Models n (record { lock = l; pc = move_to s.pc i p }) q'

  joins :
      s.pc i ≡ outside
      → Simulated (record s.lock { qhead = u16 (s.lock.qhead + 1) }) (waiting s.lock.qhead)
  joins e = (
    q ++ (i ∷ []),
    join i,
    record {
      tail = m.tail;
      head = omega (arith, m.head, length-append q (i ∷ []));
      size = ground (
        arith,
        m.size,
        length-append q (i ∷ []),
        count-move_to busy n s.pc i (waiting s.lock.qhead) lt,
      );
      place = λ k j h. joined k j (get_elem?-append_last q i k j h);
      queued = λ j h. joiner j h (ℕ_discrete j i);
    },
  )
    where
      p : Pc
      p = waiting s.lock.qhead

      joined :
          (k j : ℕ)
          → (get_elem? q k ≡ some j) ⊎ ((k ≡ length q) × (j ≡ i))
          → At s.lock k (move_to s.pc i p j)
      joined k j (inl old) = other_place p k j (absent e k j old) old
      joined k j (inr (last, self)) = rw (self, move_to_self s.pc i p, last) m.head

      joiner :
          (j : ℕ)
          → busy (move_to s.pc i p j) ≡ true
          → Dec (j ≡ i)
          → (k : ℕ) × (get_elem? (q ++ (i ∷ [])) k ≡ some j)
      joiner j h (yes self) = (length q, rw self (get_elem?-append_self q i))
      joiner j h (no other) =
          let (k, old) = m.queued j (rw (move_to_ne s.pc i j p other) at h) in
          (k, get_elem?-append_front q i k old)

  -- A thread goes from `p` to `p'` and keeps its place.
  stays :
      (p p' : Pc)
      → s.pc i ≡ p
      → busy p ≡ true
      → busy p' ≡ true
      → ((k : ℕ) → k < 2 ^ 16 → At s.lock k p → At s.lock k p')
      → Simulated s.lock p'
  stays p p' e b b' moves = (
    q,
    stay,
    record {
      tail = m.tail;
      head = m.head;
      size = ground (arith, m.size, count-move_to busy n s.pc i p' lt);
      place = λ k j h. kept k j h (ℕ_discrete j i);
      queued = λ j h. still j h (ℕ_discrete j i);
    },
  )
    where
      kept : (k j : ℕ) → get_elem? q k ≡ some j → Dec (j ≡ i) → At s.lock k (move_to s.pc i p' j)
      kept k j h (yes self) =
          rw (self, move_to_self s.pc i p')
            (moves k (omega (arith, get_elem?-lt q k h, bounded, few))
              (subst (At s.lock k) (ap s.pc self ∙ e) (m.place k j h)))
      kept k j h (no other) = other_place p' k j other h

      still :
          (j : ℕ)
          → busy (move_to s.pc i p' j) ≡ true
          → Dec (j ≡ i)
          → (k : ℕ) × (get_elem? q k ≡ some j)
      still j h (yes self) = m.queued j (rw (self, e) b)
      still j h (no other) = m.queued j (rw (move_to_ne s.pc i j p' other) at h)

  -- The thread that leaves is the first.
  leaves :
      (tail : ℕ)
      → s.pc i ≡ leaving tail
      → Simulated (record s.lock { qtail = u16 (tail + 1) }) outside
  leaves tail e = (
    rest q,
    left q first,
    record {
      tail = omega arith;
      head = omega (arith, m.head, length-rest q first, here.1, m.tail);
      size = ground (arith, m.size, length-rest q first, count-move_to busy n s.pc i outside lt);
      place = λ k j h. moved k j (rw (get_elem?-rest q k) at h);
      queued = λ j h. still j h (ℕ_discrete j i);
    },
  )
    where
      mine : (k : ℕ) × (get_elem? q k ≡ some i)
      mine = m.queued i (rw e)

      here : (mine.0 ≡ 0) × (tail ≡ s.lock.qtail)
      here = subst (At s.lock mine.0) e (m.place mine.0 i mine.1)

      first : get_elem? q 0 ≡ some i
      first = subst (λ k. get_elem? q k ≡ some i) here.0 mine.1

      moved :
          (k j : ℕ)
          → get_elem? q (suc k) ≡ some j
          → At (record s.lock { qtail = u16 (tail + 1) }) k (move_to s.pc i outside j)
      moved k j h =
          let other : j ≢ i = λ same. absurd (
            omega
              (arith, (subst (At s.lock (suc k)) (ap s.pc same ∙ e) (m.place (suc k) j h)).0)) in
          rw (here.1, move_to_ne s.pc i j outside other)
            (advance s.lock k (s.pc j) (m.place (suc k) j h))

      behind :
          (j k : ℕ) → j ≢ i → get_elem? q k ≡ some j → (k' : ℕ) × (get_elem? (rest q) k' ≡ some j)
      behind j zero other h = absurd (other (same_item h first))
      behind j (suc k) other h = (k, get_elem?-rest q k ∙ h)

      still :
          (j : ℕ)
          → busy (move_to s.pc i outside j) ≡ true
          → Dec (j ≡ i)
          → (k : ℕ) × (get_elem? (rest q) k ≡ some j)
      still j h (yes self) = absurd (false≢true (rw (self, move_to_self s.pc i outside) at h))
      still j h (no other) =
          let (k, old) = m.queued j (rw (move_to_ne s.pc i j outside other) at h) in
          behind j k other old

  access : {l : Lock} {p p' : Pc} → s.pc i ≡ p → Access s.lock p l p' → Simulated l p'
  access e xadd = joins e
  access e (relax {pos} differs) = stays (waiting pos) (waiting pos) e refl refl (λ k h at. at)
  access e (enter {pos} same) =
      stays (waiting pos) inside e refl refl (λ k h at. omega (arith, m.tail, at, same))
  access e load = stays inside (leaving s.lock.qtail) e refl refl (λ k h at. (at, refl))
  access e (store {tail}) = leaves tail e

-- With less than 2 ^ 16 threads, every step of the lock is a step of the queue: a thread joins behind
-- all others, or the queue stays, or its first thread leaves.
pub Step-Models :
    {n : ℕ} {s t : System} (q : List ℕ)
    → n < 2 ^ 16
    → Models n s q
    → Step n s t
    → (q' : List ℕ) × QueueStep q q' × Models n t q'
Step-Models q few m (run i lt a) = access few m i lt refl a

start-Models : (n : ℕ) → Models n start []
start-Models n = record {
  tail = omega arith;
  head = omega arith;
  size = sym (count_none busy n (λ _. outside) (λ i. refl));
  place = λ k i h. cc;
  queued = λ i h. cc;
}

-- With less than 2 ^ 16 threads, every reachable state of the lock is that of some queue.
pub Reach-Models : {n : ℕ} {s : System} → n < 2 ^ 16 → Reach n s → (q : List ℕ) × Models n s q
Reach-Models {n} few begin = ([], start-Models n)
Reach-Models few (next r st) =
    let (q, m) = Reach-Models few r in let (q', step, m') = Step-Models q few m st in (q', m')
