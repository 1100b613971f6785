-- ===== src/Prelude/Slices.antt =====
-- Parts of a list, by position.
use Prim.Native.Nat.{ℕ, zero, suc, ◌+◌, ◌≤◌, ◌<◌}
use mathlib.Core.Path.{◌≡◌, refl, ap, ◌∙◌}
use mathlib.Core.List.{List, [], ◌∷◌, ◌++◌}
use native.Mathlib.Omega.{arith}
use trivia.Prelude.Lists.{length, take, drop, get_or}

module _ {ℓ} {A : Type ℓ} where
  pub get_or-behind :
      (xs ys : List A) (i : ℕ) (d : A) → get_or (xs ++ ys) (length xs + i) d ≡ get_or ys i d
  get_or-behind [] ys i d = let start : 0 + i ≡ i = omega arith in ap (λ k. get_or ys k d) start
  get_or-behind (x ∷ xs) ys i d =
      let next : suc (length xs) + i ≡ suc (length xs + i) = omega arith in
      ap (λ k. get_or (x ∷ (xs ++ ys)) k d) next ∙ get_or-behind xs ys i d

  pub get_or-front :
      (xs ys : List A) (i : ℕ) (d : A) → i < length xs → get_or (xs ++ ys) i d ≡ get_or xs i d
  get_or-front [] ys i d h = absurd (omega arith)
  get_or-front (x ∷ xs) ys zero d h = refl
  get_or-front (x ∷ xs) ys (suc i) d h = get_or-front xs ys i d (omega arith)

  pub get_or-drop : (a i : ℕ) (xs : List A) (d : A) → get_or (drop a xs) i d ≡ get_or xs (a + i) d
  get_or-drop zero i xs d = let start : i ≡ 0 + i = omega arith in ap (λ k. get_or xs k d) start
  get_or-drop (suc a) i [] d = refl
  get_or-drop (suc a) i (x ∷ xs) d =
      let next : suc (a + i) ≡ suc a + i = omega arith in
      get_or-drop a i xs d ∙ ap (λ k. get_or (x ∷ xs) k d) next

  pub get_or-take : (n i : ℕ) (xs : List A) (d : A) → i < n → get_or (take n xs) i d ≡ get_or xs i d
  get_or-take zero i xs d h = absurd (omega arith)
  get_or-take (suc n) i [] d h = refl
  get_or-take (suc n) zero (x ∷ xs) d h = refl
  get_or-take (suc n) (suc i) (x ∷ xs) d h = get_or-take n i xs d (omega arith)

  pub drop-nil : (n : ℕ) → drop {A = A} n [] ≡ []
  drop-nil zero = refl
  drop-nil (suc n) = refl

  pub drop-add : (a b : ℕ) (xs : List A) → drop a (drop b xs) ≡ drop (b + a) xs
  drop-add a zero xs = let start : a ≡ 0 + a = omega arith in ap (λ k. drop k xs) start
  drop-add a (suc b) [] =
      let next : suc (b + a) ≡ suc b + a = omega arith in
      drop-nil a ∙ ap (λ k. drop {A = A} k []) next
  drop-add a (suc b) (x ∷ xs) =
      let next : suc (b + a) ≡ suc b + a = omega arith in
      drop-add a b xs ∙ ap (λ k. drop k (x ∷ xs)) next

  pub drop-cons :
      (s : ℕ) (xs : List A) (d : A) → s < length xs → drop s xs ≡ get_or xs s d ∷ drop (suc s) xs
  drop-cons s [] d h = absurd (omega arith)
  drop-cons zero (x ∷ xs) d h = refl
  drop-cons (suc s) (x ∷ xs) d h = drop-cons s xs d (omega arith)

  pub take_all : (n : ℕ) (xs : List A) → length xs ≤ n → take n xs ≡ xs
  take_all zero [] h = refl
  take_all zero (x ∷ xs) h = absurd (omega arith)
  take_all (suc n) [] h = refl
  take_all (suc n) (x ∷ xs) h = ap (λ q. x ∷ q) (take_all n xs (omega arith))

  pub drop_all : (n : ℕ) (xs : List A) → length xs ≤ n → drop n xs ≡ []
  drop_all zero [] h = refl
  drop_all zero (x ∷ xs) h = absurd (omega arith)
  drop_all (suc n) [] h = refl
  drop_all (suc n) (x ∷ xs) h = drop_all n xs (omega arith)
