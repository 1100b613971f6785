-- ===== src/SmartQueue/TimedRing/Bitmap.antt =====
-- The bitmap of the timed ring, bit by bit.
use trivia.Prelude.{
  ℕ, zero, suc, ◌-◌, ◌/◌, ◌%◌, ◌^◌, ◌<◌, ◌≡◌, refl, ◌≢◌, bit_and, bit_or, List, arith, get_or, set,
  length, get_or-set_self, get_or-set_ne, ℕ_discrete, ◌∙◌, length-set,
}
use native.Mathlib.Nat.{pow-le-pow_right, pow-suc}
use trivia.Prelude.Bits.{
  bit, bit-lt, bit-bit_or, bit-bit_and, bit-pow_self, bit-pow_ne, bit-complement, bit_or-lt,
  bit_and-lt,
}
use trivia.SmartQueue.TimedRing.{set_bit, clear_bit, map_longs, ffs}

-- The mark of the slot `i`, 0 or 1.
abbrev pub mark : List ℕ → ℕ → ℕ
mark bitmap i = bit (get_or bitmap (i / 64) 0) (i % 64)

-- Four unsigned longs.
abbrev pub Words : List ℕ → Type 0
Words bitmap = (length bitmap ≡ map_longs) × ((i : ℕ) → get_or bitmap i 0 < 2 ^ 64)

pub pow-lt_word : (k : ℕ) → k < 64 → 2 ^ k < 2 ^ 64
pow-lt_word k h =
    omega (arith, pow-le-pow_right {n = 2} (omega arith) {i = k} {j = 63} (omega arith))

module _ (nr : ℕ) (bitmap : List ℕ) (h : nr < 256) (w : Words bitmap) where
  abbrev word : ℕ
  word = get_or bitmap (nr / 64) 0

  in_range : nr / 64 < length bitmap
  in_range = omega (arith, w.0)

  pub mark-set_bit_self : mark (set_bit nr bitmap) nr ≡ 1
  unfolding set_bit
  mark-set_bit_self =
      rw (get_or-set_self bitmap (nr / 64) (bit_or word (2 ^ (nr % 64))) 0 in_range) (
        omega (
          arith,
          bit-bit_or word (2 ^ (nr % 64)) (nr % 64),
          bit-pow_self (nr % 64),
          bit-lt word (nr % 64),
        ))

  pub mark-clear_bit_self : mark (clear_bit nr bitmap) nr ≡ 0
  unfolding clear_bit
  mark-clear_bit_self =
      rw (get_or-set_self bitmap (nr / 64) (bit_and word (2 ^ 64 - 1 - 2 ^ (nr % 64))) 0 in_range) (
        omega (
          arith,
          bit-bit_and word (2 ^ 64 - 1 - 2 ^ (nr % 64)) (nr % 64),
          bit-pow_self (nr % 64),
          bit-complement 64 (2 ^ (nr % 64)) (nr % 64) (pow-lt_word (nr % 64) (omega arith))
              (omega arith),
        ))

  pub mark-set_bit_ne : (i : ℕ) → i < 256 → nr ≢ i → mark (set_bit nr bitmap) i ≡ mark bitmap i
  unfolding set_bit
  mark-set_bit_ne i hi ne = elim (ℕ_discrete (nr / 64) (i / 64)) [
    | yes same ↦
        rw (← same, get_or-set_self bitmap (nr / 64) (bit_or word (2 ^ (nr % 64))) 0 in_range)
          (omega (
            arith,
            bit-bit_or word (2 ^ (nr % 64)) (i % 64),
            bit-pow_ne (nr % 64) (i % 64) (omega arith),
          ))
    | no other ↦ rw (get_or-set_ne bitmap (nr / 64) (i / 64) (bit_or word (2 ^ (nr % 64))) 0 other)
  ]

  pub mark-clear_bit_ne : (i : ℕ) → i < 256 → nr ≢ i → mark (clear_bit nr bitmap) i ≡ mark bitmap i
  unfolding clear_bit
  mark-clear_bit_ne i hi ne = elim (ℕ_discrete (nr / 64) (i / 64)) [
    | yes same ↦
        rw
          (
            ← same,
            get_or-set_self bitmap (nr / 64) (bit_and word (2 ^ 64 - 1 - 2 ^ (nr % 64))) 0 in_range,
          )
          (omega (
            arith,
            bit-bit_and word (2 ^ 64 - 1 - 2 ^ (nr % 64)) (i % 64),
            bit-pow_ne (nr % 64) (i % 64) (omega arith),
            bit-lt word (i % 64),
            bit-complement 64 (2 ^ (nr % 64)) (i % 64) (pow-lt_word (nr % 64) (omega arith))
                (omega arith),
          ))
    | no other ↦ rw (
        get_or-set_ne bitmap (nr / 64) (i / 64) (bit_and word (2 ^ 64 - 1 - 2 ^ (nr % 64))) 0 other)
  ]

  set-Words : (v : ℕ) → v < 2 ^ 64 → Words (set bitmap (nr / 64) v)
  set-Words v hv = (
    length-set bitmap (nr / 64) v ∙ w.0,
    λ i. elim (ℕ_discrete (nr / 64) i) [
      | yes same ↦ rw (← same, get_or-set_self bitmap (nr / 64) v 0 in_range) hv
      | no other ↦ rw (get_or-set_ne bitmap (nr / 64) i v 0 other) (w.1 i)
    ],
  )

  pub set_bit-Words : Words (set_bit nr bitmap)
  unfolding set_bit
  set_bit-Words =
      set-Words _ (bit_or-lt 64 word (2 ^ (nr % 64)) (w.1 _) (pow-lt_word (nr % 64) (omega arith)))

  pub clear_bit-Words : Words (clear_bit nr bitmap)
  unfolding clear_bit
  clear_bit-Words = set-Words _ (bit_and-lt 64 word (2 ^ 64 - 1 - 2 ^ (nr % 64)) (w.1 _))

ffs_odd : (width v : ℕ) → v % 2 ≡ 1 → ffs (suc width) v ≡ 0
unfolding ffs
ffs_odd width v h = ground arith

ffs_even : (width v : ℕ) → v % 2 ≢ 1 → ffs (suc width) v ≡ suc (ffs width (v / 2))
unfolding ffs
ffs_even width v h = ground arith

bit_half : (v k : ℕ) → bit v (suc k) ≡ bit (v / 2) k
unfolding bit
bit_half v k = refl

clear_below :
    (v m : ℕ)
    → v % 2 ≢ 1
    → ((k : ℕ) → k < m → bit (v / 2) k ≡ 0)
    → (k : ℕ) → k < suc m
    → bit v k ≡ 0
unfolding bit
clear_below v m even h zero lt = omega arith
clear_below v m even h (suc k) lt = h k (omega arith)

-- `bsf` on a word that is not 0 finds the lowest bit that is set.
pub ffs_lem :
    (width v : ℕ)
    → v < 2 ^ width
    → v ≢ 0
    → (ffs width v < width) × (bit v (ffs width v) ≡ 1) × ((k : ℕ) → k < ffs width v → bit v k ≡ 0)
ffs_lem zero v h ne = absurd (ne (omega arith))
ffs_lem (suc width) v h ne = elim (ℕ_discrete (v % 2) 1) [
  | yes odd ↦
      rw (ffs_odd width v odd) (omega arith, unfold bit in odd, λ k lt. absurd (omega arith))
  | no even ↦
      let (lt, found, below) =
        ffs_lem width (v / 2) (omega (arith, pow-suc 2 width)) (λ e. ne (omega arith)) in
      rw (ffs_even width v even) (
        omega arith,
        bit_half v (ffs width (v / 2)) ∙ found,
        clear_below v (ffs width (v / 2)) even below,
      )
]
