-- ===== src/SmartQueue/TimedRing.antt =====
-- smart-queue.c, the timed ring: `tr_rqinit`, `tr_queue`, `tr_dequeue` and the bitmap under them.
-- A slot's doubly linked list is the list of its tasks in order; an unsigned int is a number below
-- 2 ^ 32, an unsigned long or an nstime_t one below 2 ^ 64.
pub mod Bitmap
pub mod Scan
pub mod Valid
pub mod Order
mod Tests
use trivia.Prelude.{
  ℕ, zero, suc, ◌+◌, ◌-◌, ◌*◌, ◌/◌, ◌%◌, ◌^◌, bit_and, bit_or, Bool, true, false, Option, none,
  some, List, [], ◌∷◌, ◌++◌, ltb, leb, ◌==◌, if◌then◌else◌, get_or, set, replicate,
}

abbrev pub bits_per_long : ℕ
bits_per_long = 64

abbrev pub max_rq : ℕ
max_rq = 256

abbrev pub map_longs : ℕ
map_longs = 4

abbrev pub ns_slot : ℕ
ns_slot = 5 * 1000000

abbrev pub u32 : ℕ → ℕ
u32 n = n % 2 ^ 32

abbrev pub u64 : ℕ → ℕ
u64 n = n % 2 ^ 64

-- A task is told apart by its address.
pub record Task : Type 0 where
  pub address : ℕ
  pub time : ℕ

pub record Ring : Type 0 where
  pub ibase : ℕ
  pub tbase : ℕ
  pub slots : List (List Task)
  pub bitmap : List ℕ

unfoldable pub tr_rqinit : Ring
tr_rqinit = record {
  ibase = 0;
  tbase = 0;
  slots = replicate max_rq [];
  bitmap = replicate map_longs 0;
}

unfoldable pub set_bit : ℕ → List ℕ → List ℕ
set_bit nr addr =
    set addr (nr / bits_per_long)
      (bit_or (get_or addr (nr / bits_per_long) 0) (2 ^ (nr % bits_per_long)))

unfoldable pub clear_bit : ℕ → List ℕ → List ℕ
clear_bit nr addr =
    set addr (nr / bits_per_long)
      (bit_and (get_or addr (nr / bits_per_long) 0) (2 ^ 64 - 1 - 2 ^ (nr % bits_per_long)))

-- `bsf`: the number of zero bits below the lowest one bit, among the first `width` bits.
unfoldable pub ffs : ℕ → ℕ → ℕ
ffs zero word = 0
ffs (suc width) word = let more = suc (ffs width (word / 2)) in if word % 2 == 1 then 0 else more

-- The loop of `rel_ffs`, with `n` rounds left.
unfoldable pub scan : List ℕ → ℕ → ℕ → ℕ → ℕ
scan bitmap zero i mask = max_rq
scan bitmap (suc n) i mask =
    let v = bit_and (get_or bitmap i 0) mask in
    let more = scan bitmap n ((i + 1) % map_longs) (2 ^ 64 - 1) in
    if v == 0 then more else i * bits_per_long + ffs bits_per_long v

-- `~((1UL << b) - 1)`
abbrev pub base_mask : ℕ → ℕ
base_mask b = 2 ^ 64 - 1 - (2 ^ b - 1)

unfoldable pub rel_ffs : Ring → ℕ
rel_ffs rq =
    scan rq.bitmap map_longs (rq.ibase / bits_per_long) (base_mask (rq.ibase % bits_per_long))

-- `if (list_empty(&rq->tsks[idx])) __clear_bit(idx, rq->map)`, with `others` left in the slot.
abbrev pub unmark_empty : ℕ → List ℕ → List Task → List ℕ
unmark_empty idx bitmap [] = clear_bit idx bitmap
unmark_empty idx bitmap (tsk ∷ others) = bitmap

-- What `tr_dequeue` does with the slot `idx`; on an empty slot `list_entry` makes a task of the
-- list's own head, and that fault is `none`.
abbrev pub take_first : Ring → ℕ → List Task → Option (Task × Ring)
take_first rq idx [] = none
take_first rq idx (tsk ∷ others) =
    let d = bit_and (u32 (idx + 2 ^ 32 - rq.ibase)) (2 ^ 8 - 1) in
    some (
      tsk,
      record {
        ibase = idx;
        tbase = u64 (rq.tbase + ns_slot * d);
        slots = set rq.slots idx others;
        bitmap = unmark_empty idx rq.bitmap others;
      },
    )

-- What comes back: NULL, a task, or a fault.
pub data Reply : Type 0 where
  null : Ring → Reply
  fault : Reply
  task : Task → Ring → Reply

abbrev pub reply : Option (Task × Ring) → Reply
reply none = fault
reply (some (tsk, rq)) = task tsk rq

unfoldable pub tr_dequeue : Ring → Reply
tr_dequeue rq =
    let idx = rel_ffs rq in
    if idx == max_rq
    then null (record rq { tbase = 0 })
    else reply (take_first rq idx (get_or rq.slots idx []))

-- The base time of an empty ring is the time that the task had before.
abbrev pub queue_base : Task → Ring → ℕ
queue_base tsk rq = if rq.tbase == 0 then tsk.time else rq.tbase

-- `(t - rq->tbase) / NS_SLOT`, at most `MAX_RQ - 1`, behind the base index.
abbrev pub queue_slot : ℕ → ℕ → ℕ → ℕ
queue_slot ibase tbase t =
    let idx = u32 (u64 (t + 2 ^ 64 - tbase) / ns_slot) in
    bit_and (u32 ((if leb max_rq idx then max_rq - 1 else idx) + ibase)) (2 ^ 8 - 1)

unfoldable pub tr_queue : Task → Ring → ℕ → Ring
tr_queue tsk rq t =
    let tbase = queue_base tsk rq in
    let idx = queue_slot rq.ibase tbase t in
    record rq {
      tbase = tbase;
      slots = set rq.slots idx (get_or rq.slots idx [] ++ (record tsk { time = t } ∷ []));
      bitmap = set_bit idx rq.bitmap;
    }
