-- ===== src/Memiszero/Agree.antt =====
-- The three functions of memiszero.c agree.
use trivia.Prelude.{
  ℕ, zero, suc, ◌+◌, ◌-◌, ◌*◌, ◌/◌, ◌%◌, ◌^◌, ◌<◌, ◌≡◌, refl, ◌↔◌, true, some, if◌then◌else◌, arith,
  dec_lt,
}
use native.Mathlib.Nat.{add-zero}
use trivia.Memiszero.{Memory, memiszero, memiszero_32, memiszero_loop, lead}
use trivia.Memiszero.Reads.{all_zero, Readable, bytes_until_lem}
use trivia.Memiszero.Blocks.{memiszero_by_lem, memiszero_by_short}

module _ (m : Memory) (p n : ℕ) (fits : p + n < 2 ^ 64) (h : Readable m p n) where
  memiszero_64 : memiszero m p n ≡ some (if all_zero m.byte p n then 1 else 0)
  unfolding memiszero
  memiszero_64 = elim (dec_lt n 8) [
    | yes short ↦ memiszero_by_short m 8 p n short h
    | no long ↦
        let head : lead 8 p ≡ (8 - p % 8) % 8 = ground arith in
        memiszero_by_lem m 8 p n (((p + n) / 8 * 8 - (p + lead 8 p)) / 8) (omega arith)
          (omega arith) fits (omega (arith, head)) (omega (arith, head)) (omega (arith, head)) h
  ]

  memiszero_by_4 : memiszero_32 m p n ≡ some (if all_zero m.byte p n then 1 else 0)
  unfolding memiszero_32
  memiszero_by_4 = elim (dec_lt n 4) [
    | yes short ↦ memiszero_by_short m 4 p n short h
    | no long ↦
        let head : lead 4 p ≡ (4 - p % 4) % 4 = ground arith in
        memiszero_by_lem m 4 p n (((p + n) / 4 * 4 - (p + lead 4 p)) / 4) (omega arith)
          (omega arith) fits (omega (arith, head)) (omega (arith, head)) (omega (arith, head)) h
  ]

  by_bytes : memiszero_loop m p n ≡ some (if all_zero m.byte p n then 1 else 0)
  unfolding memiszero_loop
  by_bytes = bytes_until_lem m n p h

all_zero_sound :
    (byte : ℕ → ℕ) (p n : ℕ) → all_zero byte p n ≡ true → (i : ℕ) → i < n → byte (p + i) ≡ 0
unfolding all_zero
all_zero_sound byte p zero e i lt = absurd (omega arith)
all_zero_sound byte p (suc n) e zero lt = rw add-zero (ground arith)
all_zero_sound byte p (suc n) e (suc i) lt =
    let place : p + 1 + i ≡ p + suc i = omega arith in
    rw place at (all_zero_sound byte (p + 1) n (ground arith) i (omega arith))

all_zero_complete :
    (byte : ℕ → ℕ) (p n : ℕ) → ((i : ℕ) → i < n → byte (p + i) ≡ 0) → all_zero byte p n ≡ true
unfolding all_zero
all_zero_complete byte p zero h = refl
all_zero_complete byte p (suc n) h =
    let first : byte p ≡ 0 = rw add-zero at (h 0 (omega arith)) in
    let rest = all_zero_complete byte (p + 1) n (λ i lt.
      let place : p + 1 + i ≡ p + suc i = omega arith in rw place (h (suc i) (omega arith))) in
    rw (first, rest)

-- On a block that can be read and does not wrap around the address space, the word-wise functions and
-- the byte loop read nothing outside the block and no unaligned word, end, and return the same
-- value: 1 if every byte of the block is 0, and 0 otherwise.
pub memiszero-memiszero_loop :
    (m : Memory) (p n : ℕ)
    → p + n < 2 ^ 64
    → Readable m p n
    → (r : ℕ) × (memiszero m p n ≡ some r)
      × (memiszero_32 m p n ≡ some r)
      × (memiszero_loop m p n ≡ some r)
      × ((r ≡ 1) ↔ ((i : ℕ) → i < n → m.byte (p + i) ≡ 0))
      × (r < 2)
memiszero-memiszero_loop m p n fits h = (
  (if all_zero m.byte p n then 1 else 0),
  memiszero_64 m p n fits h,
  memiszero_by_4 m p n fits h,
  by_bytes m p n fits h,
  (
    (λ e. all_zero_sound m.byte p n (ground arith)),
    (λ zeros. rw (all_zero_complete m.byte p n zeros)),
  ),
  ground arith,
)
