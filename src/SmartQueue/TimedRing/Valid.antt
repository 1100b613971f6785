-- ===== src/SmartQueue/TimedRing/Valid.antt =====
-- The bitmap marks exactly the slots that hold tasks, and both operations keep it so.
use trivia.Prelude.{
  ℕ, ◌+◌, ◌-◌, ◌*◌, ◌/◌, ◌%◌, ◌^◌, ◌<◌, ◌≡◌, refl, sym, ap, ◌≢◌, ◌∙◌, List, [], ◌∷◌, ◌++◌, arith,
  get_or, set, length, length-set, get_or-set_self, get_or-set_ne, get_or-replicate,
  length-replicate, ℕ_discrete, inl, inr, ==_iff, ==_ne, bit_and,
}
use trivia.Prelude.Bits.{bit-zero, bit_and_mask}
use trivia.SmartQueue.TimedRing.{
  Task, Ring, unmark_empty, tr_rqinit, set_bit, rel_ffs, take_first, Reply, null, fault, task,
  reply, tr_dequeue, queue_base, queue_slot, tr_queue, u32, ns_slot,
}
use trivia.SmartQueue.TimedRing.Bitmap.{
  mark, Words, mark-set_bit_self, mark-set_bit_ne, mark-clear_bit_self, mark-clear_bit_ne,
  set_bit-Words, clear_bit-Words,
}
use trivia.SmartQueue.TimedRing.Scan.{distance, IsBlind, First, Scanned, rel_ffs_lem}

abbrev pub filled : List Task → ℕ
filled [] = 0
filled (tsk ∷ others) = 1

abbrev pub slot : Ring → ℕ → List Task
slot rq i = get_or rq.slots i []

pub record IsValid (rq : Ring) : Type 0 where
  pub base : rq.ibase < 256
  pub words : Words rq.bitmap
  pub count : length rq.slots ≡ 256
  pub marks : (i : ℕ) → i < 256 → mark rq.bitmap i ≡ filled (slot rq i)

pub tr_rqinit-IsValid : IsValid tr_rqinit
unfolding tr_rqinit
tr_rqinit-IsValid = record {
  base = omega arith;
  words = (refl, λ i. rw (get_or-replicate {A = ℕ} 4 i 0) (omega arith));
  count = length-replicate {A = List Task} 256 [];
  marks = λ i h.
      rw (get_or-replicate {A = ℕ} 4 (i / 64) 0, get_or-replicate {A = List Task} 256 i [])
        (bit-zero (i % 64));
}

pub queue_slot-lt : (ibase tbase t : ℕ) → queue_slot ibase tbase t < 256
queue_slot-lt ibase tbase t = rw (bit_and_mask 8) (omega arith)

filled-append : (xs : List Task) (tsk : Task) → filled (xs ++ (tsk ∷ [])) ≡ 1
filled-append [] tsk = refl
filled-append (x ∷ xs) tsk = refl

-- Marks and slots agree again after both have changed at `idx`.
marks_again :
    (slots : List (List Task)) (bitmap bitmap' : List ℕ) (idx : ℕ) (v : List Task)
    → idx < length slots
    → ((i : ℕ) → i < 256 → mark bitmap i ≡ filled (get_or slots i []))
    → mark bitmap' idx ≡ filled v
    → ((i : ℕ) → i < 256 → idx ≢ i → mark bitmap' i ≡ mark bitmap i)
    → (i : ℕ) → i < 256
    → mark bitmap' i ≡ filled (get_or (set slots idx v) i [])
marks_again slots bitmap bitmap' idx v h before here others i hi = elim (ℕ_discrete idx i) [
  | yes same ↦ rw (← same, get_or-set_self slots idx v [] h) here
  | no other ↦ rw (get_or-set_ne slots idx i v [] other) (others i hi other ∙ before i hi)
]

-- Queueing a task keeps the ring valid.
pub tr_queue-IsValid : (tsk : Task) (rq : Ring) (t : ℕ) → IsValid rq → IsValid (tr_queue tsk rq t)
unfolding tr_queue
tr_queue-IsValid tsk rq t v =
    let idx : ℕ = queue_slot rq.ibase (queue_base tsk rq) t in
    let lt : idx < 256 = queue_slot-lt rq.ibase (queue_base tsk rq) t in
    record {
      base = v.base;
      words = set_bit-Words idx rq.bitmap lt v.words;
      count = length-set rq.slots idx _ ∙ v.count;
      marks =
          marks_again rq.slots rq.bitmap (set_bit idx rq.bitmap) idx _ (omega (arith, v.count))
            v.marks
            (mark-set_bit_self idx rq.bitmap lt v.words ∙ sym (filled-append (slot rq idx) _))
            (mark-set_bit_ne idx rq.bitmap lt v.words);
    }

empty_of_filled : (xs : List Task) → filled xs ≡ 0 → xs ≡ []
empty_of_filled [] h = refl
empty_of_filled (x ∷ xs) h = absurd (omega arith)

-- What the reply of `tr_dequeue` is to say of the ring before, in each of its forms.
abbrev pub Served : Ring → Reply → Type 0
Served rq (null rq') =
    (rq' ≡ record rq { tbase = 0 })
    × ((i : ℕ) → i < 256 → ¬ IsBlind rq.ibase i → slot rq i ≡ [])
    × IsValid rq'
Served rq fault = ⊥
Served rq (task tsk rq') =
    (others : List Task) × (slot rq rq'.ibase ≡ tsk ∷ others)
    × (rq'.slots ≡ set rq.slots rq'.ibase others)
    × ((i : ℕ) → i < 256 → distance rq.ibase i < distance rq.ibase rq'.ibase → slot rq i ≡ [])
    × (¬ IsBlind rq.ibase rq'.ibase)
    × (rq'.tbase ≡ (rq.tbase + ns_slot * distance rq.ibase rq'.ibase) % 2 ^ 64)
    × IsValid rq'

-- One task leaves the slot `idx`.
module _ (rq : Ring) (v : IsValid rq) (idx : ℕ) (lt : idx < 256) where
  unmark_empty-Words : (others : List Task) → Words (unmark_empty idx rq.bitmap others)
  unmark_empty-Words [] = clear_bit-Words idx rq.bitmap lt v.words
  unmark_empty-Words (x ∷ xs) = v.words

  mark-unmark_empty :
      (tsk : Task) (others : List Task)
      → slot rq idx ≡ tsk ∷ others
      → mark (unmark_empty idx rq.bitmap others) idx ≡ filled others
  mark-unmark_empty tsk [] e = mark-clear_bit_self idx rq.bitmap lt v.words
  mark-unmark_empty tsk (x ∷ xs) e = v.marks idx lt ∙ ap filled e

  mark-unmark_empty_ne :
      (others : List Task) (i : ℕ)
      → i < 256
      → idx ≢ i
      → mark (unmark_empty idx rq.bitmap others) i ≡ mark rq.bitmap i
  mark-unmark_empty_ne [] i h ne = mark-clear_bit_ne idx rq.bitmap lt v.words i h ne
  mark-unmark_empty_ne (x ∷ xs) i h ne = refl

  take_first-IsValid :
      (tsk : Task) (others : List Task) (tbase : ℕ)
      → slot rq idx ≡ tsk ∷ others
      → IsValid (record {
        ibase = idx;
        tbase = tbase;
        slots = set rq.slots idx others;
        bitmap = unmark_empty idx rq.bitmap others;
      })
  take_first-IsValid tsk others tbase e = record {
    base = lt;
    words = unmark_empty-Words others;
    count = length-set rq.slots idx others ∙ v.count;
    marks =
        marks_again rq.slots rq.bitmap (unmark_empty idx rq.bitmap others) idx others
          (omega (arith, v.count)) v.marks (mark-unmark_empty tsk others e)
          (mark-unmark_empty_ne others);
  }

-- `(idx - rq->ibase) & RQ_MASK` is the distance of the slot.
mask-distance :
    (ibase idx : ℕ)
    → ibase < 256
    → idx < 256
    → bit_and (u32 (idx + 2 ^ 32 - ibase)) (2 ^ 8 - 1) ≡ distance ibase idx
mask-distance ibase idx hb hi = rw (bit_and_mask 8) (omega arith)

Served-task :
    (rq : Ring) (v : IsValid rq) (idx : ℕ)
    → First rq.ibase rq.bitmap idx
    → (tasks : List Task) → slot rq idx ≡ tasks
    → Served rq (reply (take_first rq idx tasks))
Served-task rq v idx f [] e = absurd (omega (arith, f.marked, v.marks idx f.small, ap filled e))
Served-task rq v idx f (tsk ∷ others) e = (
  others,
  e,
  refl,
  λ i h near. empty_of_filled (slot rq i) (sym (v.marks i h) ∙ f.first i h near),
  f.sees,
  rw (mask-distance rq.ibase idx v.base f.small),
  take_first-IsValid rq v idx f.small tsk others _ e,
)

-- On a valid ring `tr_dequeue` never faults and leaves a valid ring. It serves the first task of a slot,
-- which the blind spot does not hold, no slot nearer to the base index holding any task, removes that task alone, and moves the base
-- index to the slot and the base time by as many slots; or it returns NULL, and then no slot holds a
-- task but those of the base index's own long that lie below the base index.
pub tr_dequeue-Served : (rq : Ring) → IsValid rq → Served rq (tr_dequeue rq)
unfolding tr_dequeue
tr_dequeue-Served rq v = served (rel_ffs_lem rq v.base v.words)
  where
    served : Scanned rq.ibase rq.bitmap (rel_ffs rq) → Served rq (tr_dequeue rq)
    served (inl (none_left, clear)) = rw ((==_iff (rel_ffs rq) 256).1 none_left) (
      refl,
      λ i h sees. empty_of_filled (slot rq i) (sym (v.marks i h) ∙ clear i h sees),
      record { base = v.base; words = v.words; count = v.count; marks = v.marks },
    )
    served (inr f) =
        rw (==_ne (rel_ffs rq) 256 (omega (arith, f.small)))
          (Served-task rq v (rel_ffs rq) f (slot rq (rel_ffs rq)) refl)
