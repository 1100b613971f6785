-- ===== src/SmartQueue/Cfs.antt =====
-- smart-queue.c, the CFS queue: cfs_rqinit, cfs_queue, __dequeue_task_fair, first_fair, cfs_dequeue.
-- The red-black tree under it is the kernel's library: its operations are the fields of `RbOps`, with
-- the laws that the queue relies on.
pub mod Order
pub mod Queue
mod Tests
use trivia.Prelude.{
  ℕ, ◌≡◌, Bool, true, false, Option, none, some, List, [], ◌∷◌, ◌++◌, ltb, ◌==◌, if◌then◌else◌,
}

-- A task is told apart by its address.
pub record CfsTask : Type 0 where
  pub address : ℕ
  pub t : ℕ

-- The nodes of the tree, each with its colour, red or not, and the task around it.
pub data RbTree : Type 0 where
  leaf : RbTree
  node : (red : Bool) (rb_left : RbTree) (entry : CfsTask) (rb_right : RbTree) → RbTree

-- The tasks in the order of the tree.
abbrev pub inorder : RbTree → List CfsTask
inorder leaf = []
inorder (node red l e r) = inorder l ++ (e ∷ inorder r)

-- No task of the list has the address.
abbrev pub Fresh : ℕ → List CfsTask → Type 0
Fresh a [] = Unit
Fresh a (x ∷ xs) = ((x.address == a) ≡ false) × Fresh a xs

abbrev pub first : List CfsTask → Option CfsTask
first [] = none
first (x ∷ xs) = some x

-- rb_insert_color, rb_erase and rb_first: balancing keeps the order, a node of the tree is taken out, and
-- the first node is that of the order.
pub record RbOps : Type 0 where
  pub rb_insert_color : CfsTask → RbTree → RbTree
  pub rb_erase : CfsTask → RbTree → RbTree
  pub rb_first : RbTree → Option CfsTask
  pub insert_color-inorder :
      (x : CfsTask) (tree : RbTree) → inorder (rb_insert_color x tree) ≡ inorder tree
  pub erase-inorder :
      (x : CfsTask) (tree : RbTree) (xs ys : List CfsTask)
      → inorder tree ≡ xs ++ (x ∷ ys)
      → Fresh x.address xs
      → Fresh x.address ys
      → inorder (rb_erase x tree) ≡ xs ++ ys
  pub first-inorder : (tree : RbTree) → rb_first tree ≡ first (inorder tree)

pub record CfsRq : Type 0 where
  pub tasks_timeline : RbTree
  pub rb_leftmost : Option CfsTask

unfoldable pub cfs_rqinit : CfsRq
cfs_rqinit = record { tasks_timeline = leaf; rb_leftmost = none }

abbrev pub in_left : Bool → CfsTask → RbTree → RbTree × Bool → RbTree × Bool
in_left red e r (l, leftmost) = (node red l e r, leftmost)

abbrev pub in_right : Bool → RbTree → CfsTask → RbTree × Bool → RbTree × Bool
in_right red l e (r, leftmost) = (node red l e r, leftmost)

-- The search for the place, with `leftmost`, and rb_link_node there: a red node without children.
unfoldable pub link : CfsTask → Bool → RbTree → RbTree × Bool
link tsk leftmost leaf = (node true leaf tsk leaf, leftmost)
link tsk leftmost (node red l e r) =
    let left = link tsk leftmost l in
    let right = link tsk false r in
    if ltb tsk.t e.t then in_left red e r left else in_right red l e right

module _ (ops : RbOps) where
  -- Behind the search.
  abbrev pub linked : CfsTask → CfsRq → RbTree × Bool → CfsRq
  linked tsk rq (tree, leftmost) = record {
    tasks_timeline = ops.rb_insert_color tsk tree;
    rb_leftmost = if leftmost then some tsk else rq.rb_leftmost;
  }

  unfoldable pub cfs_queue : CfsTask → CfsRq → ℕ → CfsRq
  cfs_queue tsk rq t =
      linked (record tsk { t = t }) rq (link (record tsk { t = t }) true rq.tasks_timeline)

  abbrev pub same_node : Option CfsTask → CfsTask → Bool
  same_node none p = false
  same_node (some x) p = x.address == p.address

  abbrev pub dequeue_task_fair : CfsRq → CfsTask → CfsRq
  dequeue_task_fair rq p = record {
    tasks_timeline = ops.rb_erase p rq.tasks_timeline;
    rb_leftmost = if same_node rq.rb_leftmost p then none else rq.rb_leftmost;
  }

  abbrev pub cached_or_first : Option CfsTask → RbTree → Option CfsTask
  cached_or_first (some x) tree = some x
  cached_or_first none tree = ops.rb_first tree

  abbrev pub first_fair : CfsRq → Option CfsTask
  first_fair rq = cached_or_first rq.rb_leftmost rq.tasks_timeline

  abbrev pub taken : CfsRq → Option CfsTask → Option CfsTask × CfsRq
  taken rq none = (none, rq)
  taken rq (some next) = (some next, dequeue_task_fair rq next)

  unfoldable pub cfs_dequeue : CfsRq → Option CfsTask × CfsRq
  cfs_dequeue rq = taken rq (first_fair rq)
