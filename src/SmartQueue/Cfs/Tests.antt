-- ===== src/SmartQueue/Cfs/Tests.antt =====
-- The CFS queue over a tree that stands in for the library's, and its theorem for some calls.
use trivia.Prelude.{
  ℕ, ◌≡◌, refl, ap, ◌∙◌, true, false, none, some, List, [], ◌∷◌, ◌++◌, ◌==◌, if◌then◌else◌, arith,
}
use trivia.SmartQueue.Cfs.{CfsTask, RbTree, leaf, node, inorder, Fresh, first, RbOps, cfs_rqinit}
use trivia.SmartQueue.Cfs.Queue.{Call, queue, dequeue, answers, handed_out, answers-handed_out}

-- A tree that leans to the right.
spine : List CfsTask → RbTree
spine [] = leaf
spine (x ∷ xs) = node false leaf x (spine xs)

inorder-spine : (xs : List CfsTask) → inorder (spine xs) ≡ xs
unfolding spine
inorder-spine [] = refl
inorder-spine (x ∷ xs) = ap (λ q. x ∷ q) (inorder-spine xs)

abbrev without : ℕ → List CfsTask → List CfsTask
without a [] = []
without a (x ∷ xs) = let rest = without a xs in if x.address == a then xs else x ∷ rest

without-Fresh :
    (x : CfsTask) (xs ys : List CfsTask)
    → Fresh x.address xs
    → without x.address (xs ++ (x ∷ ys)) ≡ xs ++ ys
without-Fresh x [] ys f = ap (λ b. if b then ys else x ∷ without x.address ys) same
  where
    same : (x.address == x.address) ≡ true
    same = ground arith
without-Fresh x (z ∷ zs) ys (f, fs) =
    ap (λ b. if b then zs ++ (x ∷ ys) else z ∷ without x.address (zs ++ (x ∷ ys))) f
    ∙ ap (λ q. z ∷ q) (without-Fresh x zs ys fs)

-- Balancing leaves the tree as it is, and what is left behind an erase leans to the right.
abbrev plain : RbOps
plain = record {
  rb_insert_color = λ x tree. tree;
  rb_erase = λ x tree. spine (without x.address (inorder tree));
  rb_first = λ tree. first (inorder tree);
  insert_color-inorder = λ x tree. refl;
  erase-inorder = λ x tree xs ys e f g.
      inorder-spine (without x.address (inorder tree))
      ∙ ap (without x.address) e
      ∙ without-Fresh x xs ys f;
  first-inorder = λ tree. refl;
}

abbrev task : ℕ → CfsTask
task a = record { address = a; t = 0 }

-- Two tasks with one time, an earlier one, and the first one once more.
abbrev calls : List Call
calls =
    queue (task 1) 7
    ∷ queue (task 2) 7
    ∷ queue (task 3) 5
    ∷ dequeue
    ∷ dequeue
    ∷ queue (task 1) 6
    ∷ dequeue
    ∷ dequeue
    ∷ dequeue
    ∷ []

answers-handed_out_example : answers plain calls cfs_rqinit ≡ handed_out calls []
answers-handed_out_example =
    answers-handed_out plain calls (tt, ((refl, tt), ((refl, (refl, tt)), ((refl, tt), tt))))

handed_out_run :
    handed_out calls []
    ≡ some (record { address = 3; t = 5 })
      ∷ some (record { address = 1; t = 7 })
      ∷ some (record { address = 1; t = 6 })
      ∷ some (record { address = 2; t = 7 })
      ∷ none
      ∷ []
handed_out_run = refl
