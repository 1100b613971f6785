-- ===== src/SmartQueue/Cfs/Order.antt =====
-- Lists of tasks in the order of their times, and the place that the search of cfs_queue finds.
use trivia.Prelude.{
  ℕ, ◌≤◌, ◌<◌, ◌≡◌, refl, sym, ap, ◌∙◌, Bool, true, false, ◌&&◌, List, [], ◌∷◌, ◌++◌, ltb, ◌==◌,
  if◌then◌else◌, arith,
}
use trivia.SmartQueue.Cfs.{CfsTask, RbTree, leaf, node, inorder, Fresh, link, in_left, in_right}

-- A task joins behind all whose time is not later.
abbrev pub enqueue : CfsTask → List CfsTask → List CfsTask
enqueue x [] = x ∷ []
enqueue x (y ∷ ys) = let rest = enqueue x ys in if ltb x.t y.t then x ∷ (y ∷ ys) else y ∷ rest

-- No time is later than `n`, or earlier.
abbrev pub UpTo : ℕ → List CfsTask → Type 0
UpTo n [] = Unit
UpTo n (x ∷ xs) = (x.t ≤ n) × UpTo n xs

abbrev pub From : ℕ → List CfsTask → Type 0
From n [] = Unit
From n (x ∷ xs) = (n ≤ x.t) × From n xs

abbrev pub IsSorted : List CfsTask → Type 0
IsSorted [] = Unit
IsSorted (x ∷ xs) = From x.t xs × IsSorted xs

abbrev pub Distinct : List CfsTask → Type 0
Distinct [] = Unit
Distinct (x ∷ xs) = Fresh x.address xs × Distinct xs

not_below : (a b : ℕ) → b ≤ a → ltb a b ≡ false
not_below a b h = ground arith

below : (a b : ℕ) → ltb a b ≡ true → a < b
below a b h = ground arith

not_less : (a b : ℕ) → ltb a b ≡ false → b ≤ a
not_less a b h = ground arith

From-weaken : (m n : ℕ) (xs : List CfsTask) → m ≤ n → From n xs → From m xs
From-weaken m n [] h f = tt
From-weaken m n (x ∷ xs) h (f, fs) = (omega arith, From-weaken m n xs h fs)

-- A statement about an `if`, by its test.
if_cases :
    {A : Type 0} (P : A → Type 0) (b : Bool) (x y : A)
    → (b ≡ true → P x)
    → (b ≡ false → P y)
    → P (if b then x else y)
if_cases P true x y f g = f refl
if_cases P false x y f g = g refl

From-enqueue :
    (n : ℕ) (x : CfsTask) (xs : List CfsTask) → n ≤ x.t → From n xs → From n (enqueue x xs)
From-enqueue n x [] h f = (h, tt)
From-enqueue n x (y ∷ ys) h (f, fs) =
    if_cases (From n) (ltb x.t y.t) (x ∷ (y ∷ ys)) (y ∷ enqueue x ys) (λ e. (h, (f, fs)))
      (λ e. (f, From-enqueue n x ys h fs))

pub enqueue-IsSorted : (x : CfsTask) (xs : List CfsTask) → IsSorted xs → IsSorted (enqueue x xs)
enqueue-IsSorted x [] s = (tt, tt)
enqueue-IsSorted x (y ∷ ys) (f, s) =
    if_cases IsSorted (ltb x.t y.t) (x ∷ (y ∷ ys)) (y ∷ enqueue x ys)
      (λ e.
        let lt = below x.t y.t e in
        ((omega (arith, lt), From-weaken x.t y.t ys (omega (arith, lt)) f), (f, s)))
      (λ e. (From-enqueue y.t x ys (not_less x.t y.t e) f, enqueue-IsSorted x ys s))

pub Fresh-enqueue :
    (a : ℕ) (x : CfsTask) (xs : List CfsTask)
    → (x.address == a) ≡ false
    → Fresh a xs
    → Fresh a (enqueue x xs)
Fresh-enqueue a x [] h f = (h, tt)
Fresh-enqueue a x (y ∷ ys) h (f, fs) =
    if_cases (Fresh a) (ltb x.t y.t) (x ∷ (y ∷ ys)) (y ∷ enqueue x ys) (λ e. (h, (f, fs)))
      (λ e. (f, Fresh-enqueue a x ys h fs))

swapped : (a b : ℕ) → (a == b) ≡ false → (b == a) ≡ false
swapped a b h = ground arith

pub enqueue-Distinct :
    (x : CfsTask) (xs : List CfsTask) → Fresh x.address xs → Distinct xs → Distinct (enqueue x xs)
enqueue-Distinct x [] f d = (tt, tt)
enqueue-Distinct x (y ∷ ys) (f, fs) (g, d) =
    if_cases Distinct (ltb x.t y.t) (x ∷ (y ∷ ys)) (y ∷ enqueue x ys) (λ e. ((f, fs), (g, d)))
      (λ e. (
        Fresh-enqueue y.address x ys (swapped y.address x.address f) g,
        enqueue-Distinct x ys fs d,
      ))

-- The parts of a sorted list around one task.
IsSorted-around :
    (xs : List CfsTask) (e : CfsTask) (ys : List CfsTask)
    → IsSorted (xs ++ (e ∷ ys))
    → UpTo e.t xs × IsSorted xs × IsSorted ys
IsSorted-around [] e ys (f, s) = (tt, tt, s)
IsSorted-around (x ∷ xs) e ys (f, s) =
    let (u, l, r) = IsSorted-around xs e ys s in ((last xs f, u), (front xs f, l), r)
  where
    last : (zs : List CfsTask) → From x.t (zs ++ (e ∷ ys)) → x.t ≤ e.t
    last [] (g, gs) = g
    last (z ∷ zs) (g, gs) = last zs gs

    front : (zs : List CfsTask) → From x.t (zs ++ (e ∷ ys)) → From x.t zs
    front [] g = tt
    front (z ∷ zs) (g, gs) = (g, front zs gs)

enqueue-before :
    (x : CfsTask) (xs : List CfsTask) (e : CfsTask) (ys : List CfsTask)
    → ltb x.t e.t ≡ true
    → enqueue x xs ++ (e ∷ ys) ≡ enqueue x (xs ++ (e ∷ ys))
enqueue-before x [] e ys h = rw h refl
enqueue-before x (z ∷ zs) e ys h =
    if_append (ltb x.t z.t)
    ∙ ap (λ q. if ltb x.t z.t then x ∷ (z ∷ (zs ++ (e ∷ ys))) else z ∷ q)
        (enqueue-before x zs e ys h)
  where
    if_append :
        (b : Bool)
        → (if b then x ∷ (z ∷ zs) else z ∷ enqueue x zs) ++ (e ∷ ys)
          ≡ (if b then x ∷ (z ∷ (zs ++ (e ∷ ys))) else z ∷ (enqueue x zs ++ (e ∷ ys)))
    if_append true = refl
    if_append false = refl

enqueue-behind :
    (x : CfsTask) (xs : List CfsTask) (e : CfsTask) (ys : List CfsTask)
    → UpTo e.t xs
    → ltb x.t e.t ≡ false
    → xs ++ (e ∷ enqueue x ys) ≡ enqueue x (xs ++ (e ∷ ys))
enqueue-behind x [] e ys u h = rw h refl
enqueue-behind x (z ∷ zs) e ys (u, us) h =
    let le = not_less x.t e.t h in
    ap (λ q. z ∷ q) (enqueue-behind x zs e ys us h)
    ∙ ap (λ b. if b then x ∷ (z ∷ (zs ++ (e ∷ ys))) else z ∷ enqueue x (zs ++ (e ∷ ys)))
        (sym (not_below x.t z.t (omega (arith, le, u))))

-- Whether a task joins at the front.
abbrev pub goes_first : CfsTask → List CfsTask → Bool
goes_first x [] = true
goes_first x (y ∷ ys) = ltb x.t y.t

goes_first-before :
    (x : CfsTask) (xs : List CfsTask) (e : CfsTask) (ys : List CfsTask)
    → ltb x.t e.t ≡ true
    → goes_first x xs ≡ goes_first x (xs ++ (e ∷ ys))
goes_first-before x [] e ys h = sym h
goes_first-before x (z ∷ zs) e ys h = refl

goes_first-behind :
    (x : CfsTask) (xs : List CfsTask) (e : CfsTask) (ys : List CfsTask)
    → UpTo e.t xs
    → ltb x.t e.t ≡ false
    → goes_first x (xs ++ (e ∷ ys)) ≡ false
goes_first-behind x [] e ys u h = h
goes_first-behind x (z ∷ zs) e ys (u, us) h =
    let le = not_less x.t e.t h in not_below x.t z.t (omega (arith, le, u))

-- The search links the task in its place, and `leftmost` stays set just when this is the front.
pub link-enqueue :
    (x : CfsTask) (leftmost : Bool) (tree : RbTree)
    → IsSorted (inorder tree)
    → (inorder (link x leftmost tree).0 ≡ enqueue x (inorder tree))
      × ((link x leftmost tree).1 ≡ (leftmost && goes_first x (inorder tree)))
unfolding link
link-enqueue x leftmost leaf s = (refl, and_true leftmost)
  where
    and_true : (b : Bool) → b ≡ (b && true)
    and_true true = refl
    and_true false = refl
link-enqueue x leftmost (node red l e r) s =
    let (up, sl, sr) = IsSorted-around (inorder l) e (inorder r) s in
    let (left, flag) = link-enqueue x leftmost l sl in
    let (right, off) = link-enqueue x false r sr in
    if_cases
      (λ (q : RbTree × Bool).
        (inorder q.0 ≡ enqueue x (inorder l ++ (e ∷ inorder r)))
        × (q.1 ≡ (leftmost && goes_first x (inorder l ++ (e ∷ inorder r)))))
      (ltb x.t e.t) (in_left red e r (link x leftmost l)) (in_right red l e (link x false r))
      (λ h. (
        ap (λ q. q ++ (e ∷ inorder r)) left ∙ enqueue-before x (inorder l) e (inorder r) h,
        flag ∙ ap (λ b. leftmost && b) (goes_first-before x (inorder l) e (inorder r) h),
      ))
      (λ h. (
        ap (λ q. inorder l ++ (e ∷ q)) right ∙ enqueue-behind x (inorder l) e (inorder r) up h,
        off
            ∙ and_false leftmost
            ∙ ap (λ b. leftmost && b) (sym (goes_first-behind x (inorder l) e (inorder r) up h)),
      ))
  where
    and_false : (b : Bool) → false ≡ (b && false)
    and_false true = refl
    and_false false = refl
