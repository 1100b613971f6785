-- ===== src/SmartQueue/Cfs/Queue.antt =====
-- The CFS queue is a queue of tasks in the order of their times.
use trivia.Prelude.{
  ℕ, ◌≡◌, refl, sym, ap, ◌∙◌, ◌⊎◌, inl, inr, Bool, true, false, Option, none, some, List, [], ◌∷◌,
  ltb, ◌==◌, if◌then◌else◌, arith,
}
use mathlib.Core.Path.{subst}
use trivia.SmartQueue.Cfs.{
  CfsTask, inorder, Fresh, first, RbOps, CfsRq, cfs_rqinit, link, cfs_queue, same_node,
  dequeue_task_fair, cached_or_first, first_fair, taken, cfs_dequeue,
}
use trivia.SmartQueue.Cfs.Order.{
  enqueue, IsSorted, Distinct, enqueue-IsSorted, enqueue-Distinct, goes_first, link-enqueue,
}

-- The tree holds exactly the tasks `xs`, sorted, each once, and the cache is empty or holds the first.
pub record Holds (rq : CfsRq) (xs : List CfsTask) : Type 0 where
  pub order : inorder rq.tasks_timeline ≡ xs
  pub sorted : IsSorted xs
  pub distinct : Distinct xs
  pub cache : (rq.rb_leftmost ≡ none) ⊎ (rq.rb_leftmost ≡ first xs)

pub rqinit-Holds : Holds cfs_rqinit []
unfolding cfs_rqinit
rqinit-Holds = record { order = refl; sorted = tt; distinct = tt; cache = inl refl }

-- What is first behind an enqueue.
first-enqueue :
    (x : CfsTask) (xs : List CfsTask)
    → first (enqueue x xs) ≡ (if goes_first x xs then some x else first xs)
first-enqueue x [] = refl
first-enqueue x (y ∷ ys) = by_time (ltb x.t y.t)
  where
    by_time :
        (b : Bool)
        → first (if b then x ∷ (y ∷ ys) else y ∷ enqueue x ys) ≡ (if b then some x else some y)
    by_time true = refl
    by_time false = refl

module _ (ops : RbOps) where
  pub cfs_queue-Holds :
      (tsk : CfsTask) (t : ℕ) (rq : CfsRq) (xs : List CfsTask)
      → Fresh tsk.address xs
      → Holds rq xs
      → Holds (cfs_queue ops tsk rq t) (enqueue (record tsk { t = t }) xs)
  unfolding cfs_queue
  cfs_queue-Holds tsk t rq xs fresh v =
      let (linked_in, flag) =
        link-enqueue x true rq.tasks_timeline (subst IsSorted (sym v.order) v.sorted) in
      record {
        order =
            ops.insert_color-inorder x (link x true rq.tasks_timeline).0
            ∙ linked_in
            ∙ ap (enqueue x) v.order;
        sorted = enqueue-IsSorted x xs v.sorted;
        distinct = enqueue-Distinct x xs fresh v.distinct;
        cache = cached (link x true rq.tasks_timeline).1 (flag ∙ ap (goes_first x) v.order) v.cache;
      }
    where
      x : CfsTask
      x = record tsk { t = t }

      cached :
          (b : Bool)
          → b ≡ goes_first x xs
          → ((rq.rb_leftmost ≡ none) ⊎ (rq.rb_leftmost ≡ first xs))
          → (((if b then some x else rq.rb_leftmost) ≡ none)
              ⊎ ((if b then some x else rq.rb_leftmost) ≡ first (enqueue x xs)))
      cached true e c =
          inr (sym (first-enqueue x xs ∙ ap (λ q. if q then some x else first xs) (sym e)))
      cached false e (inl c) = inl c
      cached false e (inr c) =
          inr (c ∙ sym (first-enqueue x xs ∙ ap (λ q. if q then some x else first xs) (sym e)))

  -- The first task, from the cache or from the tree.
  first_fair-Holds : (rq : CfsRq) (xs : List CfsTask) → Holds rq xs → first_fair ops rq ≡ first xs
  first_fair-Holds rq xs v = elim v.cache [
    | inl c ↦ ap (λ o. cached_or_first ops o rq.tasks_timeline) c ∙ from_tree
    | inr c ↦ ap (λ o. cached_or_first ops o rq.tasks_timeline) c ∙ from_cache xs v.order
  ]
    where
      from_tree : ops.rb_first rq.tasks_timeline ≡ first xs
      from_tree = ops.first-inorder rq.tasks_timeline ∙ ap first v.order

      from_cache :
          (ys : List CfsTask)
          → inorder rq.tasks_timeline ≡ ys
          → cached_or_first ops (first ys) rq.tasks_timeline ≡ first ys
      from_cache [] e = ops.first-inorder rq.tasks_timeline ∙ ap first e
      from_cache (y ∷ ys) e = refl

  pub cfs_dequeue_empty : (rq : CfsRq) → Holds rq [] → cfs_dequeue ops rq ≡ (none, rq)
  unfolding cfs_dequeue
  cfs_dequeue_empty rq v = ap (taken ops rq) (first_fair-Holds rq [] v)

  pub cfs_dequeue-Holds :
      (rq : CfsRq) (x : CfsTask) (xs : List CfsTask)
      → Holds rq (x ∷ xs)
      → (rq' : CfsRq) × (cfs_dequeue ops rq ≡ (some x, rq')) × Holds rq' xs
  unfolding cfs_dequeue
  cfs_dequeue-Holds rq x xs v = (
    dequeue_task_fair ops rq x,
    ap (taken ops rq) (first_fair-Holds rq (x ∷ xs) v),
    record {
      order = ops.erase-inorder x rq.tasks_timeline [] xs v.order tt v.distinct.0;
      sorted = v.sorted.1;
      distinct = v.distinct.1;
      cache = inl (emptied v.cache);
    },
  )
    where
      rest_of : Option CfsTask → Option CfsTask
      rest_of o = if same_node ops o x then none else o

      same_address : (x.address == x.address) ≡ true
      same_address = ground arith

      emptied :
          ((rq.rb_leftmost ≡ none) ⊎ (rq.rb_leftmost ≡ some x)) → rest_of rq.rb_leftmost ≡ none
      emptied (inl c) = ap rest_of c
      emptied (inr c) = ap rest_of c ∙ ap (λ b. if b then none else some x) same_address

-- What a client does with the queue.
pub data Call : Type 0 where
  queue : (tsk : CfsTask) (t : ℕ) → Call
  dequeue : Call

-- No task is queued while it is in the queue.
abbrev pub Allowed : List Call → List CfsTask → Type 0
Allowed [] xs = Unit
Allowed (queue tsk t ∷ cs) xs =
    Fresh tsk.address xs × Allowed cs (enqueue (record tsk { t = t }) xs)
Allowed (dequeue ∷ cs) [] = Allowed cs []
Allowed (dequeue ∷ cs) (x ∷ xs) = Allowed cs xs

-- What a list sorted by time hands out.
abbrev pub handed_out : List Call → List CfsTask → List (Option CfsTask)
handed_out [] xs = []
handed_out (queue tsk t ∷ cs) xs = handed_out cs (enqueue (record tsk { t = t }) xs)
handed_out (dequeue ∷ cs) [] = none ∷ handed_out cs []
handed_out (dequeue ∷ cs) (x ∷ xs) = some x ∷ handed_out cs xs

module _ (ops : RbOps) where
  -- What cfs_dequeue returns.
  abbrev pub answers : List Call → CfsRq → List (Option CfsTask)
  answers [] rq = []
  answers (queue tsk t ∷ cs) rq = answers cs (cfs_queue ops tsk rq t)
  answers (dequeue ∷ cs) rq = (cfs_dequeue ops rq).0 ∷ answers cs (cfs_dequeue ops rq).1

  answers-Holds :
      (cs : List Call) (rq : CfsRq) (xs : List CfsTask)
      → Allowed cs xs
      → Holds rq xs
      → answers cs rq ≡ handed_out cs xs
  answers-Holds [] rq xs a v = refl
  answers-Holds (queue tsk t ∷ cs) rq xs (fresh, a) v =
      answers-Holds cs (cfs_queue ops tsk rq t) (enqueue (record tsk { t = t }) xs) a
        (cfs_queue-Holds ops tsk t rq xs fresh v)
  answers-Holds (dequeue ∷ cs) rq [] a v =
      ap (λ q. q.0 ∷ answers cs q.1) (cfs_dequeue_empty ops rq v)
      ∙ ap (λ q. none ∷ q) (answers-Holds cs rq [] a v)
  answers-Holds (dequeue ∷ cs) rq (x ∷ xs) a v =
      let (rq', e, v') = cfs_dequeue-Holds ops rq x xs v in
      ap (λ q. q.0 ∷ answers cs q.1) e ∙ ap (λ q. some x ∷ q) (answers-Holds cs rq' xs a v')

  -- From an empty queue on, if no task is queued while it is in the queue, cfs_dequeue hands out what a list
  -- of the tasks would that each queued task joins behind all whose time is not later: the earliest task, of
  -- several with one time the one queued first, and NULL when there is none.
  pub answers-handed_out :
      (cs : List Call) → Allowed cs [] → answers cs cfs_rqinit ≡ handed_out cs []
  answers-handed_out cs a = answers-Holds cs cfs_rqinit [] a rqinit-Holds
