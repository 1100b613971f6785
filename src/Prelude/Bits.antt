-- ===== src/Prelude/Bits.antt =====
-- `|` and `&` on unsigned words at variables: each bit of the result, masks and disjoint fields.
use Prim.Native.Nat.{digits, bit_and-bitwise, bit_or-bitwise}
use Prim.Native.Nat.{
  ℕ, zero, suc, ◌+◌, ◌-◌, ◌*◌, ◌/◌, ◌%◌, ◌^◌, ◌≤◌, ◌<◌, min, max, bit_and, bit_or,
}
use mathlib.Core.Path.{◌≡◌, refl, ap, ◌∙◌}
use mathlib.Core.Logic.{◌≢◌}
use native.Mathlib.Nat.{pow-suc, one-le-pow}
use native.Mathlib.Omega.{arith}

-- An operation on words that acts on the lowest bits by `f`, and answers `z b` when the first word is 0.
module _ (z : ℕ → ℕ) (f : ℕ → ℕ → ℕ) (rest : (b : ℕ) → z b ≡ z (b / 2) * 2 + f 0 (b % 2)) where
  -- Its recursion does not depend on how many digits it is given, if they are enough.
  same_digits :
      (rounds more word other : ℕ)
      → word ≤ rounds
      → word ≤ more
      → digits z f rounds word other ≡ digits z f more word other
  same_digits zero zero zero other p q = refl
  same_digits zero (suc more) zero other p q = refl
  same_digits (suc rounds) zero zero other p q = refl
  same_digits (suc rounds) (suc more) zero other p q = refl
  same_digits zero more (suc word) other p q = absurd (omega arith)
  same_digits (suc rounds) zero (suc word) other p q = absurd (omega arith)
  same_digits (suc rounds) (suc more) (suc word) other p q =
      let halves = same_digits rounds more (suc word / 2) (other / 2) (omega arith) (omega arith) in
      omega arith

  by_halves :
      (word other : ℕ)
      → digits z f word word other
        ≡ digits z f (word / 2) (word / 2) (other / 2) * 2 + f (word % 2) (other % 2)
  by_halves zero other = rest other
  by_halves (suc word) other =
      let halves =
        same_digits word (suc word / 2) (suc word / 2) (other / 2) (omega arith) (omega arith) in
      omega arith

pub bit_and_step : (a b : ℕ) → bit_and a b ≡ bit_and (a / 2) (b / 2) * 2 + min (a % 2) (b % 2)
bit_and_step a b =
    let whole = by_halves (λ (x : ℕ). 0) min (λ (x : ℕ). omega arith) a b in
    bit_and-bitwise a b ∙ whole ∙ omega (arith, bit_and-bitwise (a / 2) (b / 2))

pub bit_or_step : (a b : ℕ) → bit_or a b ≡ bit_or (a / 2) (b / 2) * 2 + max (a % 2) (b % 2)
bit_or_step a b =
    let whole = by_halves (λ (x : ℕ). x) max (λ (x : ℕ). omega arith) a b in
    bit_or-bitwise a b ∙ whole ∙ omega (arith, bit_or-bitwise (a / 2) (b / 2))

pub zero-bit_or : (b : ℕ) → bit_or 0 b ≡ b
zero-bit_or = bit_or-bitwise 0

-- Bit `k` of a word, 0 or 1.
unfoldable pub bit : ℕ → ℕ → ℕ
bit a zero = a % 2
bit a (suc k) = bit (a / 2) k

pub bit-lt : (a k : ℕ) → bit a k < 2
unfolding bit
bit-lt a zero = omega arith
bit-lt a (suc k) = bit-lt (a / 2) k

pub bit-bit_or : (a b k : ℕ) → bit (bit_or a b) k ≡ max (bit a k) (bit b k)
unfolding bit
bit-bit_or a b zero = omega (arith, bit_or_step a b)
bit-bit_or a b (suc k) =
    let half : bit_or a b / 2 ≡ bit_or (a / 2) (b / 2) = omega (arith, bit_or_step a b) in
    rw half (bit-bit_or (a / 2) (b / 2) k)

pub bit-bit_and : (a b k : ℕ) → bit (bit_and a b) k ≡ min (bit a k) (bit b k)
unfolding bit
bit-bit_and a b zero = omega (arith, bit_and_step a b)
bit-bit_and a b (suc k) =
    let half : bit_and a b / 2 ≡ bit_and (a / 2) (b / 2) = omega (arith, bit_and_step a b) in
    rw half (bit-bit_and (a / 2) (b / 2) k)

pub bit-zero : (k : ℕ) → bit 0 k ≡ 0
unfolding bit
bit-zero zero = refl
bit-zero (suc k) = bit-zero k

-- A word below `2 ^ w` that is not 0 has a bit set below `w`.
pub eq-zero_of_bit : (w a : ℕ) → a < 2 ^ w → ((k : ℕ) → k < w → bit a k ≡ 0) → a ≡ 0
unfolding bit
eq-zero_of_bit zero a h clear = omega arith
eq-zero_of_bit (suc w) a h clear = omega (
  arith,
  pow-suc 2 w,
  clear 0 (omega arith),
  eq-zero_of_bit w (a / 2) (omega (arith, pow-suc 2 w)) (λ k lt. clear (suc k) (omega arith)),
)

pub bit-pow_self : (k : ℕ) → bit (2 ^ k) k ≡ 1
unfolding bit
bit-pow_self zero = refl
bit-pow_self (suc k) =
    let half : 2 ^ suc k / 2 ≡ 2 ^ k = omega (arith, pow-suc 2 k) in rw half (bit-pow_self k)

pub bit-pow_ne : (n k : ℕ) → n ≢ k → bit (2 ^ n) k ≡ 0
unfolding bit
bit-pow_ne zero zero h = absurd (h refl)
bit-pow_ne zero (suc k) h = bit-zero k
bit-pow_ne (suc n) zero h = omega (arith, pow-suc 2 n)
bit-pow_ne (suc n) (suc k) h =
    let half : 2 ^ suc n / 2 ≡ 2 ^ n = omega (arith, pow-suc 2 n) in
    rw half (bit-pow_ne n k (λ e. h (ap suc e)))

-- `~x` on a word of `w` bits.
pub bit-complement : (w x k : ℕ) → x < 2 ^ w → k < w → bit (2 ^ w - 1 - x) k + bit x k ≡ 1
unfolding bit
bit-complement zero x k h lt = absurd (omega arith)
bit-complement (suc w) x zero h lt = omega (arith, pow-suc 2 w)
bit-complement (suc w) x (suc k) h lt =
    let half : (2 ^ suc w - 1 - x) / 2 ≡ 2 ^ w - 1 - x / 2 = omega (arith, pow-suc 2 w) in
    rw half (bit-complement w (x / 2) k (omega (arith, pow-suc 2 w)) (omega arith))

-- A word and 0.
with_zero : (bound word : ℕ) → word ≤ bound → (bit_and word 0 ≡ 0) × (bit_or word 0 ≡ word)
with_zero bound zero h = (refl, refl)
with_zero zero (suc word) h = absurd (omega arith)
with_zero (suc bound) (suc word) h =
    let (low, high) = with_zero bound (suc word / 2) (omega arith) in
    (omega (arith, low, bit_and_step (suc word) 0), omega (arith, high, bit_or_step (suc word) 0))

bit_and-zero : (a : ℕ) → bit_and a 0 ≡ 0
bit_and-zero a = (with_zero a a (omega arith)).0

pub bit_or-zero : (a : ℕ) → bit_or a 0 ≡ a
bit_or-zero a = (with_zero a a (omega arith)).1

mul-pow-suc : (q k : ℕ) → q * 2 ^ suc k ≡ 2 * (q * 2 ^ k)
mul-pow-suc q k = omega (arith, ap (λ (t : ℕ). q * t) (pow-suc 2 k))

-- A mask of `k` ones drops the bits from `k` on.
bit_and-ones : (k q r : ℕ) → r < 2 ^ k → bit_and (r + q * 2 ^ k) (2 ^ k - 1) ≡ r
bit_and-ones zero q r h = omega (arith, bit_and-zero (r + q * 2 ^ 0))
bit_and-ones (suc k) q r h =
    let low : (2 ^ suc k - 1) / 2 ≡ 2 ^ k - 1 = omega (arith, pow-suc 2 k, one-le-pow k 2) in
    let high : (r + q * 2 ^ suc k) / 2 ≡ r / 2 + q * 2 ^ k = omega (arith, mul-pow-suc q k) in
    let rest : bit_and ((r + q * 2 ^ suc k) / 2) ((2 ^ suc k - 1) / 2) ≡ r / 2 =
      rw (low, high) (bit_and-ones k q (r / 2) (omega (arith, pow-suc 2 k))) in
    omega (
      arith,
      rest,
      bit_and_step (r + q * 2 ^ suc k) (2 ^ suc k - 1),
      mul-pow-suc q k,
      pow-suc 2 k,
      one-le-pow k 2,
    )

pub bit_and_mask : (k a : ℕ) → bit_and a (2 ^ k - 1) ≡ a % 2 ^ k
bit_and_mask k a = ground (arith, one-le-pow k 2, bit_and-ones k (a / 2 ^ k) (a % 2 ^ k))

-- Fields that do not overlap add up.
pub bit_or_fields : (k q r : ℕ) → r < 2 ^ k → bit_or r (q * 2 ^ k) ≡ r + q * 2 ^ k
bit_or_fields zero q zero h = zero-bit_or (q * 2 ^ 0) ∙ omega arith
bit_or_fields zero q (suc r) h = absurd (omega arith)
bit_or_fields (suc k) q r h =
    let high : q * 2 ^ suc k / 2 ≡ q * 2 ^ k = omega (arith, mul-pow-suc q k) in
    let rest : bit_or (r / 2) (q * 2 ^ suc k / 2) ≡ r / 2 + q * 2 ^ k =
      rw high (bit_or_fields k q (r / 2) (omega (arith, pow-suc 2 k))) in
    omega (arith, rest, bit_or_step r (q * 2 ^ suc k), mul-pow-suc q k)

bit_or_comm_fuel : (n a b : ℕ) → a ≤ n → bit_or a b ≡ bit_or b a
bit_or_comm_fuel n zero b h = omega (arith, zero-bit_or b, bit_or-zero b)
bit_or_comm_fuel zero (suc a) b h = absurd (omega arith)
bit_or_comm_fuel (suc n) (suc a) b h = omega (
  arith,
  bit_or_step (suc a) b,
  bit_or_step b (suc a),
  bit_or_comm_fuel n (suc a / 2) (b / 2) (omega arith),
)

pub bit_or_comm : (a b : ℕ) → bit_or a b ≡ bit_or b a
bit_or_comm a b = bit_or_comm_fuel a a b (omega arith)

-- A mask of one bit.
pub bit_and-pow : (a k : ℕ) → bit_and a (2 ^ k) ≡ bit a k * 2 ^ k
unfolding bit
bit_and-pow a zero = omega (arith, bit_and_step a 1, bit_and-zero (a / 2))
bit_and-pow a (suc k) =
    let half : 2 ^ suc k / 2 ≡ 2 ^ k = omega (arith, pow-suc 2 k) in
    let rest : bit_and (a / 2) (2 ^ suc k / 2) ≡ bit (a / 2) k * 2 ^ k =
      rw half (bit_and-pow (a / 2) k) in
    omega (arith, rest, bit_and_step a (2 ^ suc k), pow-suc 2 k, mul-pow-suc (bit (a / 2) k) k)

-- The top bit of a byte.
pub bit_and-top : (c : ℕ) → c < 256 → bit_and c 0x80 ≡ c / 128 * 128
unfolding bit
bit_and-top c h = omega (arith, bit_and-pow c 7)

-- Above its width a word has no bit set.
pub bit-high : (w a k : ℕ) → a < 2 ^ w → w ≤ k → bit a k ≡ 0
unfolding bit
bit-high zero a k h lt = let e : a ≡ 0 = omega arith in rw e (bit-zero k)
bit-high (suc w) a zero h lt = absurd (omega arith)
bit-high (suc w) a (suc k) h lt = bit-high w (a / 2) k (omega (arith, pow-suc 2 w)) (omega arith)

pub bit-ones : (w k : ℕ) → k < w → bit (2 ^ w - 1) k ≡ 1
bit-ones w k h =
    let whole : 2 ^ w - 1 - 0 ≡ 2 ^ w - 1 = omega arith in
    let sum : bit (2 ^ w - 1) k + bit 0 k ≡ 1 =
      rw whole at (bit-complement w 0 k (omega (arith, one-le-pow w 2)) h) in
    omega (arith, sum, bit-zero k)

-- `&` and `|` of words of `w` bits are words of `w` bits.
pub bit_or-lt : (w a b : ℕ) → a < 2 ^ w → b < 2 ^ w → bit_or a b < 2 ^ w
bit_or-lt zero zero b ha hb = omega (arith, zero-bit_or b)
bit_or-lt zero (suc a) b ha hb = absurd (omega arith)
bit_or-lt (suc w) a b ha hb = omega (
  arith,
  pow-suc 2 w,
  bit_or_step a b,
  bit_or-lt w (a / 2) (b / 2) (omega (arith, pow-suc 2 w)) (omega (arith, pow-suc 2 w)),
)

pub bit_and-lt : (w a b : ℕ) → a < 2 ^ w → bit_and a b < 2 ^ w
bit_and-lt zero zero b ha = omega (arith, bit_and-bitwise 0 b)
bit_and-lt zero (suc a) b ha = absurd (omega arith)
bit_and-lt (suc w) a b ha = omega (
  arith,
  pow-suc 2 w,
  bit_and_step a b,
  bit_and-lt w (a / 2) (b / 2) (omega (arith, pow-suc 2 w)),
)

le-bit_or_within : (bound a b : ℕ) → a ≤ bound → a ≤ bit_or a b
le-bit_or_within bound zero b h = omega arith
le-bit_or_within zero (suc a) b h = absurd (omega arith)
le-bit_or_within (suc bound) (suc a) b h =
    omega (arith, bit_or_step (suc a) b, le-bit_or_within bound (suc a / 2) (b / 2) (omega arith))

-- Nothing is lost in `|`.
pub le-bit_or : (a b : ℕ) → (a ≤ bit_or a b) × (b ≤ bit_or a b)
le-bit_or a b = (
  le-bit_or_within a a b (omega arith),
  omega (arith, bit_or_comm a b, le-bit_or_within b b a (omega arith)),
)
