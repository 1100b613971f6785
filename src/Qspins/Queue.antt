-- ===== src/Qspins/Queue.antt =====
-- The queue of threads that the ticket lock stands for, and what its places say of the threads.
use trivia.Prelude.{
  ℕ, zero, suc, ◌+◌, ◌^◌, ◌<◌, ◌≡◌, refl, ap, ◌⊎◌, inl, inr, true, Option, some, List, [], ◌∷◌,
  ◌++◌, length, get_elem?, arith,
}
use trivia.Qspins.Threads.{count}
use trivia.Qspins.TicketLock.{Pc, outside, waiting, inside, leaving, Lock, System, busy, u16}

-- What a thread at place `k` of the queue may be doing.
abbrev pub At : Lock → ℕ → Pc → Type 0
At l k outside = ⊥
At l k (waiting pos) = pos ≡ u16 (l.qtail + k)
At l k inside = k ≡ 0
At l k (leaving tail) = (k ≡ 0) × (tail ≡ l.qtail)

pub record Models (n : ℕ) (s : System) (q : List ℕ) : Type 0 where
  pub tail : s.lock.qtail < 2 ^ 16
  pub head : s.lock.qhead ≡ u16 (s.lock.qtail + length q)
  pub size : length q ≡ count busy n s.pc
  pub place : (k i : ℕ) → get_elem? q k ≡ some i → At s.lock k (s.pc i)
  pub queued : (i : ℕ) → busy (s.pc i) ≡ true → (k : ℕ) × (get_elem? q k ≡ some i)

-- The abstract lock: what a step may do to the queue.
pub data QueueStep : List ℕ → List ℕ → Type 0 where
  join : {q : List ℕ} (i : ℕ) → QueueStep q (q ++ (i ∷ []))
  stay : {q : List ℕ} → QueueStep q q
  leave : {q : List ℕ} (i : ℕ) → QueueStep (i ∷ q) q

pub get_elem?-lt : (q : List ℕ) (k : ℕ) {i : ℕ} → get_elem? q k ≡ some i → k < length q
get_elem?-lt [] k e = cc
get_elem?-lt (x ∷ q) zero e = omega arith
get_elem?-lt (x ∷ q) (suc k) e = omega (arith, get_elem?-lt q k e)

pub get_elem?-append_last :
    (q : List ℕ) (i k j : ℕ)
    → get_elem? (q ++ (i ∷ [])) k ≡ some j
    → (get_elem? q k ≡ some j) ⊎ ((k ≡ length q) × (j ≡ i))
get_elem?-append_last [] i zero j e = inr (refl, cc)
get_elem?-append_last [] i (suc k) j e = cc
get_elem?-append_last (x ∷ q) i zero j e = inl e
get_elem?-append_last (x ∷ q) i (suc k) j e = shifted (get_elem?-append_last q i k j e)
  where
    shifted :
        (get_elem? q k ≡ some j) ⊎ ((k ≡ length q) × (j ≡ i))
        → (get_elem? q k ≡ some j) ⊎ ((suc k ≡ suc (length q)) × (j ≡ i))
    shifted (inl old) = inl old
    shifted (inr (k', j')) = inr (ap suc k', j')

pub get_elem?-append_front :
    (q : List ℕ) (i k : ℕ) {j : ℕ} → get_elem? q k ≡ some j → get_elem? (q ++ (i ∷ [])) k ≡ some j
get_elem?-append_front [] i k e = cc
get_elem?-append_front (x ∷ q) i zero e = e
get_elem?-append_front (x ∷ q) i (suc k) e = get_elem?-append_front q i k e

pub get_elem?-append_self : (q : List ℕ) (i : ℕ) → get_elem? (q ++ (i ∷ [])) (length q) ≡ some i
get_elem?-append_self [] i = refl
get_elem?-append_self (x ∷ q) i = get_elem?-append_self q i

pub same_item : {o : Option ℕ} {i j : ℕ} → o ≡ some j → o ≡ some i → j ≡ i
same_item p q = ground arith

abbrev pub rest : List ℕ → List ℕ
rest [] = []
rest (x ∷ q) = q

pub get_elem?-rest : (q : List ℕ) (k : ℕ) → get_elem? (rest q) k ≡ get_elem? q (suc k)
get_elem?-rest [] k = refl
get_elem?-rest (x ∷ q) k = refl

pub left : (q : List ℕ) {i : ℕ} → get_elem? q 0 ≡ some i → QueueStep q (rest q)
left [] e = cc
left (x ∷ q) e = leave x

pub length-rest : (q : List ℕ) {i : ℕ} → get_elem? q 0 ≡ some i → length q ≡ length (rest q) + 1
length-rest [] e = cc
length-rest (x ∷ q) e = omega arith

-- Once the first thread has left, all others are one place further.
pub advance :
    (l : Lock) (k : ℕ) (p : Pc) → At l (suc k) p → At (record l { qtail = u16 (l.qtail + 1) }) k p
advance l k outside h = h
advance l k (waiting pos) h = omega arith
advance l k inside h = absurd (omega arith)
advance l k (leaving tail) h = absurd (omega arith)
