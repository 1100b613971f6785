-- ===== src/Sload/Jitter.antt =====
-- jval keeps within the jitter, and gives every value there.
use trivia.Prelude.{
  ℕ, zero, suc, ◌+◌, ◌-◌, ◌*◌, ◌/◌, ◌%◌, ◌^◌, ◌≤◌, ◌<◌, ◌≡◌, refl, sym, ap, ◌∙◌, Bool, true, false,
  some, ltb, ◌==◌, if◌then◌else◌, arith,
}
use native.Mathlib.Nat.{
  pow-suc, one-le-pow, mod-lt, mod-eq_of_lt, mul-div_cancel, mul-lt-mul_of_pos_right,
}
use mathlib.Core.Path.{subst}
use trivia.Sload.{myrand, ilog2, shift_right, added, with_next, base, shift_of, jval}

-- ilog2 is the number of bits.
ilog2_le : (fuel v k : ℕ) → v < 2 ^ k → ilog2 fuel v ≤ k
unfolding ilog2
ilog2_le zero v k h = omega arith
ilog2_le (suc fuel) v zero h = ground arith
ilog2_le (suc fuel) v (suc k) h =
    let half : ilog2 fuel (v / 2) ≤ k = ilog2_le fuel (v / 2) k (omega (arith, pow-suc 2 k)) in
    ground arith

above_half : (v l : ℕ) → v / 2 < 2 ^ l → v < 2 ^ (l + 1)
above_half v l h = omega (arith, pow-suc 2 l, ap (λ (k : ℕ). 2 ^ k) one_more)
  where
    one_more : l + 1 ≡ suc l
    one_more = omega arith

ilog2_above : (fuel v : ℕ) → v < 2 ^ fuel → v < 2 ^ ilog2 fuel v
unfolding ilog2
ilog2_above zero v h = h
ilog2_above (suc fuel) v h =
    bits (v == 0) refl (ilog2_above fuel (v / 2) (omega (arith, pow-suc 2 fuel)))
  where
    is_zero : v == 0 ≡ true → v ≡ 0
    is_zero e = ground arith

    bits :
        (t : Bool)
        → (v == 0) ≡ t
        → v / 2 < 2 ^ ilog2 fuel (v / 2)
        → v < 2 ^ (if t then 0 else ilog2 fuel (v / 2) + 1)
    bits true e below = omega (arith, is_zero e)
    bits false e below = above_half v (ilog2 fuel (v / 2)) below

-- The state from which the generator steps to `r`.
unfoldable unrand : ℕ → ℕ
unrand r = ((r + 2 ^ 64 - 12345) * 17850689345304521573) % 2 ^ 64

unrand_below : (r : ℕ) → unrand r < 2 ^ 64
unfolding unrand
unrand_below r = omega arith

myrand-unrand : (r : ℕ) → r < 2 ^ 64 → myrand (unrand r) ≡ r
unfolding unrand
myrand-unrand r h = omega arith

-- The shift and the range of a jitter that is not too large.
range_lem : (jitter : ℕ) → jitter < 2 ^ 62 → 2 * jitter % 2 ^ 64 ≡ 2 * jitter
range_lem jitter h = omega arith

bits_lem : (jitter : ℕ) → jitter < 2 ^ 62 → ilog2 64 (2 * jitter % 2 ^ 64) ≤ 63
bits_lem jitter h = ilog2_le 64 (2 * jitter % 2 ^ 64) 63 (omega arith)

shift_of_lem :
    (jitter : ℕ) → jitter < 2 ^ 62 → shift_of jitter ≡ 63 - ilog2 64 (2 * jitter % 2 ^ 64)
shift_of_lem jitter h = omega (arith, bits_lem jitter h)

below_64 : (s : ℕ) → s < 64 → ltb s 64 ≡ true
below_64 s h = ground arith

positive : (n : ℕ) → 0 < n → ltb 0 n ≡ true
positive n h = ground arith

not_zero : (n : ℕ) → 0 < n → (n == 0) ≡ false
not_zero n h = ground arith

value_of :
    (b range r s next : ℕ)
    → s < 64
    → 0 < range
    → b + range ≤ 2 ^ 64
    → with_next next (added b range (shift_right r s)) ≡ some (b + r / 2 ^ s % range, next)
value_of b range r s next shift some_range fits =
    rw (below_64 s shift, not_zero range some_range)
      (ap (λ x. some (x, next)) (omega (arith, mod-lt (r / 2 ^ s) some_range, fits)))

base_fits :
    (v jitter : ℕ) → jitter < 2 ^ 62 → v + jitter ≤ 2 ^ 64 → base v jitter + 2 * jitter ≤ 2 ^ 64
base_fits v jitter small fits = ground arith

-- The value that jval gives, in numbers.
jval_value :
    (v jitter next : ℕ)
    → 0 < jitter
    → jitter < 2 ^ 62
    → v + jitter ≤ 2 ^ 64
    → jval v jitter next
      ≡ some (base v jitter + myrand next / 2 ^ shift_of jitter % (2 * jitter), myrand next)
unfolding jval
jval_value v jitter next some_jitter small fits =
    ap
      (λ t.
        if t then with_next r (added b (2 * jitter % 2 ^ 64) (shift_right r s)) else some (v, next))
      (positive jitter some_jitter)
    ∙ ap (λ range. with_next r (added b range (shift_right r s))) (range_lem jitter small)
    ∙ value_of b (2 * jitter) r s r (omega (arith, shift_of_lem jitter small))
        (omega (arith, some_jitter)) (base_fits v jitter small fits)
  where
    b : ℕ
    b = base v jitter

    r : ℕ
    r = myrand next

    s : ℕ
    s = shift_of jitter

pow_sum : (l s : ℕ) → 2 ^ (l + s) ≡ 2 ^ l * 2 ^ s
pow_sum l zero = ap (λ k. 2 ^ k) none_more ∙ omega arith
  where
    none_more : l + 0 ≡ l
    none_more = omega arith
pow_sum l (suc s) =
    ap (λ k. 2 ^ k) one_more
    ∙ pow-suc 2 (l + s)
    ∙ ap (λ q. q * 2) (pow_sum l s)
    ∙ omega arith
    ∙ ap (λ q. 2 ^ l * q) (sym (pow-suc 2 s))
  where
    one_more : l + suc s ≡ suc (l + s)
    one_more = omega arith

-- All bits of a word below `2 ^ l` are within `2 ^ 63` when it is shifted by `63 - l`.
shifted_below : (x l : ℕ) → l ≤ 63 → x < 2 ^ l → x * 2 ^ (63 - l) < 2 ^ 64
shifted_below x l le h = omega (
  arith,
  mul-lt-mul_of_pos_right {m = x} {n = 2 ^ l} {k = 2 ^ (63 - l)} h
      (one-le-pow (63 - l) 2 (omega arith)),
  pow_sum l (63 - l),
  ap (λ k. 2 ^ k) whole,
)
  where
    whole : l + (63 - l) ≡ 63
    whole = omega (arith, le)

-- With a jitter below 2^62 and a sum with the value of at most 2^64, jval gives a value from `v - jitter`, or 0 if that
-- is negative, on, and less than twice the jitter above; and it gives each of these for some state of the generator.
pub jval-base :
    (v jitter : ℕ)
    → 0 < jitter
    → jitter < 2 ^ 62
    → v + jitter ≤ 2 ^ 64
    → ((next : ℕ)
        → (x : ℕ) × (jval v jitter next ≡ some (base v jitter + x, myrand next)) × (x < 2 * jitter))
      × ((x : ℕ)
          → x < 2 * jitter
          → (next : ℕ) × (next < 2 ^ 64)
            × (jval v jitter next ≡ some (base v jitter + x, myrand next)))
jval-base v jitter some_jitter small fits = (within, each)
  where
    within :
        (next : ℕ)
        → (x : ℕ) × (jval v jitter next ≡ some (base v jitter + x, myrand next)) × (x < 2 * jitter)
    within next = (
      myrand next / 2 ^ shift_of jitter % (2 * jitter),
      jval_value v jitter next some_jitter small fits,
      mod-lt (myrand next / 2 ^ shift_of jitter) (omega (arith, some_jitter)),
    )

    each :
        (x : ℕ)
        → x < 2 * jitter
        → (next : ℕ) × (next < 2 ^ 64)
          × (jval v jitter next ≡ some (base v jitter + x, myrand next))
    each x h = (
      unrand r,
      unrand_below r,
      jval_value v jitter (unrand r) some_jitter small fits
          ∙ ap (λ y. some (base v jitter + y, myrand (unrand r))) back,
    )
      where
        s : ℕ
        s = shift_of jitter

        l : ℕ
        l = ilog2 64 (2 * jitter % 2 ^ 64)

        r : ℕ
        r = x * 2 ^ s

        few : x < 2 ^ l
        few =
            omega
              (arith, h, range_lem jitter small, ilog2_above 64 (2 * jitter % 2 ^ 64) (omega arith))

        word : r < 2 ^ 64
        word =
            subst (λ k. x * 2 ^ k < 2 ^ 64) (sym (shift_of_lem jitter small))
              (shifted_below x l (bits_lem jitter small) few)

        back : myrand (unrand r) / 2 ^ s % (2 * jitter) ≡ x
        back =
            ap (λ y. y / 2 ^ s % (2 * jitter)) (myrand-unrand r word)
            ∙ ap (λ y. y % (2 * jitter)) (mul-div_cancel x (one-le-pow s 2 (omega arith)))
            ∙ mod-eq_of_lt h
