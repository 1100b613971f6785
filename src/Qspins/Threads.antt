-- ===== src/Qspins/Threads.antt =====
-- Families of thread states: one thread changes, and threads of a kind are counted.
use trivia.Prelude.{
  ℕ, zero, suc, ◌+◌, ◌≤◌, ◌<◌, ◌≡◌, refl, ◌≢◌, Bool, false, ◌==◌, if◌then◌else◌, arith, ℕ_discrete,
}

abbrev pub move_to {ℓ} : {A : Type ℓ} → (ℕ → A) → ℕ → A → ℕ → A
move_to pc i p j = if j == i then p else pc j

module _ {ℓ} {A : Type ℓ} (pc : ℕ → A) where
  pub move_to_self : (i : ℕ) (p : A) → move_to pc i p i ≡ p
  move_to_self i p = ground arith

  pub move_to_ne : (i j : ℕ) (p : A) → j ≢ i → move_to pc i p j ≡ pc j
  move_to_ne i j p h = ground arith

-- How many of the threads below `n` are of a kind.
pub count {ℓ} : {A : Type ℓ} → (A → Bool) → ℕ → (ℕ → A) → ℕ
count kind zero pc = 0
count kind (suc n) pc = (if kind (pc n) then 1 else 0) + count kind n pc

module _ {ℓ} {A : Type ℓ} (kind : A → Bool) where
  pub count-le : (n : ℕ) (pc : ℕ → A) → count kind n pc ≤ n
  unfolding count
  count-le zero pc = omega arith
  count-le (suc n) pc = ground (arith, count-le n pc)

  pub count_none : (n : ℕ) (pc : ℕ → A) → ((i : ℕ) → kind (pc i) ≡ false) → count kind n pc ≡ 0
  unfolding count
  count_none zero pc h = refl
  count_none (suc n) pc h = rw (h n) (omega (arith, count_none n pc h))

  unmoved :
      (n : ℕ) (pc : ℕ → A) (i : ℕ) (p : A) → n ≤ i → count kind n (move_to pc i p) ≡ count kind n pc
  unfolding count
  unmoved zero pc i p h = refl
  unmoved (suc n) pc i p h = ground (arith, unmoved n pc i p)

  pub count-move_to :
      (n : ℕ) (pc : ℕ → A) (i : ℕ) (p : A)
      → i < n
      → count kind n (move_to pc i p) + (if kind (pc i) then 1 else 0)
        ≡ count kind n pc + (if kind p then 1 else 0)
  unfolding count
  count-move_to zero pc i p h = absurd (omega arith)
  count-move_to (suc n) pc i p h = elim (ℕ_discrete i n) [
    | yes last ↦ ground (arith, unmoved n pc i p)
    | no before ↦ ground (arith, count-move_to n pc i p)
  ]
