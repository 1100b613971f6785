-- ===== src/SmartQueue/TimedRing/Order.antt =====
-- Where a task is queued, what leaves the ring, and the blind spot of `rel_ffs`.
use trivia.Prelude.{
  ℕ, zero, suc, ◌+◌, ◌-◌, ◌*◌, ◌/◌, ◌^◌, ◌≤◌, ◌<◌, ◌≡◌, ap, List, [], ◌∷◌, ◌++◌, arith, get_or, set,
  length, min, append_assoc,
}
use mathlib.Core.List.{flatten, Perm, perm_middle}
use mathlib.Core.List.Perm
use trivia.Prelude.Bits.{bit_and_mask}
use trivia.SmartQueue.TimedRing.{
  Task, Ring, Reply, null, fault, task, tr_dequeue, queue_base, queue_slot, tr_queue, u32, u64,
  ns_slot, max_rq,
}
use trivia.SmartQueue.TimedRing.Scan.{distance, IsBlind}
use trivia.SmartQueue.TimedRing.Valid.{slot, IsValid, Served, tr_dequeue-Served, queue_slot-lt}

-- A task whose time is not before the base time goes to the slot of that time, counted in slots of
-- 5 milliseconds from the base index, and to the last slot if that is further than 255.
queue_slot-distance :
    (ibase tbase t : ℕ)
    → ibase < 256
    → tbase ≤ t
    → t < 2 ^ 64
    → t - tbase < 2 ^ 32 * ns_slot
    → distance ibase (queue_slot ibase tbase t) ≡ min ((t - tbase) / ns_slot) 255
queue_slot-distance ibase tbase t hb h ht near =
    let q : u32 (u64 (t + 2 ^ 64 - tbase) / ns_slot) ≡ (t - tbase) / ns_slot = omega arith in
    rw (bit_and_mask 8, q) (ground arith)

-- A task that is overdue, up to 200 days, goes to the last slot too, behind all others.
queue_slot_overdue :
    (ibase tbase t : ℕ)
    → ibase < 256
    → tbase < 2 ^ 64
    → t < tbase
    → tbase - t ≤ 200 * 24 * 60 * 60 * 1000000000
    → distance ibase (queue_slot ibase tbase t) ≡ 255
queue_slot_overdue ibase tbase t hb ht late bound =
    let far : max_rq ≤ u32 (u64 (t + 2 ^ 64 - tbase) / ns_slot) = omega arith in
    rw bit_and_mask (ground (arith, far))

-- Only the blind spot holds tasks: `tr_dequeue` returns NULL, however many there are.
pub tr_dequeue_blind :
    (rq : Ring)
    → IsValid rq
    → ((i : ℕ) → i < 256 → ¬ IsBlind rq.ibase i → slot rq i ≡ [])
    → tr_dequeue rq ≡ null (record rq { tbase = 0 })
tr_dequeue_blind rq v empty = blind (tr_dequeue rq) (tr_dequeue-Served rq v)
  where
    blind : (r : Reply) → Served rq r → r ≡ null (record rq { tbase = 0 })
    blind (null rq') s = ap null s.0
    blind fault s = absurd s
    blind (task tsk rq') (others, e, changed, first, sees, moved, v') =
        cc (empty rq'.ibase v'.base sees)

flatten-set_append :
    (slots : List (List Task)) (i : ℕ) (tsk : Task)
    → i < length slots
    → Perm (flatten (set slots i (get_or slots i [] ++ (tsk ∷ [])))) (tsk ∷ flatten slots)
unfolding flatten
flatten-set_append [] i tsk h = absurd (omega arith)
flatten-set_append (x ∷ xs) zero tsk h = rw append_assoc (perm_middle x (flatten xs))
flatten-set_append (x ∷ xs) (suc i) tsk h =
    Perm.trans (Perm.append_left x (flatten-set_append xs i tsk (omega arith)))
      (perm_middle x (flatten xs))

-- On a valid ring `tr_queue` adds the task, with its new time, to those queued, and loses none.
tr_queue-perm :
    (tsk : Task) (rq : Ring) (t : ℕ)
    → IsValid rq
    → Perm (flatten (tr_queue tsk rq t).slots) (record tsk { time = t } ∷ flatten rq.slots)
unfolding tr_queue
tr_queue-perm tsk rq t v =
    flatten-set_append rq.slots (queue_slot rq.ibase (queue_base tsk rq) t)
      (record tsk { time = t })
      (omega (arith, v.count, queue_slot-lt rq.ibase (queue_base tsk rq) t))
