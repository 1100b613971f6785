-- ===== src/SmartQueue/TimedRing/Tests.antt =====
-- Runs of the timed ring, and its theorems at concrete rings.
use trivia.Prelude.{
  ℕ, ◌<◌, ◌≡◌, refl, [], ◌∷◌, arith, replicate, get_or-set_ne, get_or-replicate, ◌∙◌,
}
use trivia.SmartQueue.TimedRing.{
  Task, Ring, tr_rqinit, tr_queue, tr_dequeue, Reply, null, task, set_bit, clear_bit, ffs, scan,
  rel_ffs,
}
use trivia.SmartQueue.TimedRing.Scan.{IsBlind}
use trivia.SmartQueue.TimedRing.Valid.{
  slot, IsValid, Served, tr_rqinit-IsValid, tr_queue-IsValid, tr_dequeue-Served,
}
use trivia.SmartQueue.TimedRing.Order.{tr_dequeue_blind}

abbrev early : Task
early = record { address = 1; time = 1000 }

abbrev late : Task
late = record { address = 2; time = 0 }

-- The base time becomes 1000; the first task goes to slot 3, the second to slot 10.
abbrev two_tasks : Ring
two_tasks = tr_queue late (tr_queue early tr_rqinit 15001000) 50001000

two_tasks-IsValid : IsValid two_tasks
two_tasks-IsValid =
    tr_queue-IsValid late (tr_queue early tr_rqinit 15001000) 50001000
      (tr_queue-IsValid early tr_rqinit 15001000 tr_rqinit-IsValid)

-- The earlier task is served, and the base moves by its three slots.
abbrev after_first : Reply → Ring
after_first (null rq) = rq
after_first Reply.fault = tr_rqinit
after_first (task tsk rq) = rq

abbrev served : Reply → ℕ
served (task tsk rq) = tsk.address
served _ = 0

serves_early :
    (served (tr_dequeue two_tasks) ≡ 1) × ((after_first (tr_dequeue two_tasks)).ibase ≡ 3)
unfolding tr_dequeue tr_queue tr_rqinit set_bit clear_bit rel_ffs scan ffs
serves_early = (refl, refl)

tr_queue-IsValid_example : IsValid (tr_queue late (tr_queue early tr_rqinit 15001000) 50001000)
tr_queue-IsValid_example =
    tr_queue-IsValid late (tr_queue early tr_rqinit 15001000) 50001000
      (tr_queue-IsValid early tr_rqinit 15001000 tr_rqinit-IsValid)

tr_dequeue-Served_example : Served two_tasks (tr_dequeue two_tasks)
tr_dequeue-Served_example = tr_dequeue-Served two_tasks two_tasks-IsValid

-- An idle ring whose base has moved to slot 3, where a task far in the future goes to slot 2.
abbrev idle_ring : Ring
idle_ring = record { ibase = 3; tbase = 15001000; slots = replicate 256 []; bitmap = replicate 4 0 }

idle_ring-IsValid : IsValid idle_ring
unfolding tr_rqinit
idle_ring-IsValid = record {
  base = omega arith;
  words = tr_rqinit-IsValid.words;
  count = tr_rqinit-IsValid.count;
  marks = tr_rqinit-IsValid.marks;
}

abbrev blind_ring : Ring
blind_ring = tr_queue late idle_ring 1290001000

holds_task : slot blind_ring 2 ≡ record late { time = 1290001000 } ∷ []
unfolding tr_queue
holds_task = refl

others_empty : (i : ℕ) → i < 256 → ¬ IsBlind 3 i → slot blind_ring i ≡ []
unfolding tr_queue
others_empty i h sees =
    get_or-set_ne (replicate 256 []) 2 i _ [] (λ e. sees (omega arith, omega arith))
    ∙ get_or-replicate 256 i []

tr_dequeue_blind_example : tr_dequeue blind_ring ≡ null (record blind_ring { tbase = 0 })
unfolding tr_queue
tr_dequeue_blind_example =
    tr_dequeue_blind blind_ring (tr_queue-IsValid late idle_ring 1290001000 idle_ring-IsValid)
      others_empty
