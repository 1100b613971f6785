-- ===== src/SmartQueue/TimedRing/Scan.antt =====
-- What `rel_ffs` finds: the first marked slot from the base index on, around the ring.
use trivia.Prelude.{
  ℕ, zero, suc, ◌+◌, ◌-◌, ◌*◌, ◌/◌, ◌%◌, ◌^◌, ◌≤◌, ◌<◌, ◌≡◌, refl, ◌≢◌, ◌∙◌, bit_and, List, arith,
  get_or, dec_lt, ℕ_discrete, inl, inr, ◌⊎◌, ==_iff, ==_ne,
}
use trivia.Prelude.Bits.{
  bit, bit-lt, bit-zero, bit-bit_and, bit-ones, bit-high, bit-complement, bit_and-lt,
}
use trivia.SmartQueue.TimedRing.{Ring, scan, ffs, rel_ffs, base_mask}
use trivia.SmartQueue.TimedRing.Bitmap.{mark, Words, ffs_lem, pow-lt_word}
use native.Mathlib.Nat.{one-le-pow}

-- The bits that a round looks at: those of the mask in the first, all in the later ones.
abbrev Looks : ℕ → ℕ → ℕ → Type 0
Looks zero mask k = bit mask k ≡ 1
Looks (suc j) mask k = Unit

module _ (bitmap : List ℕ) (w : Words bitmap) where
  abbrev word : ℕ → ℕ
  word i = get_or bitmap i 0

  -- Nothing is marked among what the first `n` rounds look at.
  abbrev Clear : ℕ → ℕ → ℕ → Type 0
  Clear n i mask = (j k : ℕ) → j < n → k < 64 → Looks j mask k → bit (word ((i + j) % 4)) k ≡ 0

  -- The slot `r` is found in round `j`.
  record Found (n i mask r : ℕ) : Type 0 where
    j : ℕ
    round : j < n
    place : r / 64 ≡ (i + j) % 4
    marked : bit (word ((i + j) % 4)) (r % 64) ≡ 1
    looked : Looks j mask (r % 64)
    before : Clear j i mask
    below : (k : ℕ) → k < r % 64 → Looks j mask k → bit (word ((i + j) % 4)) k ≡ 0

  abbrev Outcome : ℕ → ℕ → ℕ → ℕ → Type 0
  Outcome n i mask r = ((r ≡ 256) × Clear n i mask) ⊎ Found n i mask r

  Looks-ones : (j k : ℕ) → k < 64 → Looks j (2 ^ 64 - 1) k
  Looks-ones zero k h = bit-ones 64 k h
  Looks-ones (suc j) k h = tt

  first_place : (i : ℕ) → i < 4 → (i + 0) % 4 ≡ i
  first_place i h = omega arith

  next_place : (i j : ℕ) → ((i + 1) % 4 + j) % 4 ≡ (i + suc j) % 4
  next_place i j = omega arith

  masked_zero : (v mask k : ℕ) → bit_and v mask ≡ 0 → bit mask k ≡ 1 → bit v k ≡ 0
  masked_zero v mask k e m =
      let none_left : bit (bit_and v mask) k ≡ 0 = rw e (bit-zero k) in
      omega (arith, none_left, bit-bit_and v mask k, bit-lt v k)

  Clear-suc :
      (n i mask : ℕ)
      → i < 4
      → bit_and (word i) mask ≡ 0
      → Clear n ((i + 1) % 4) (2 ^ 64 - 1)
      → Clear (suc n) i mask
  Clear-suc n i mask hi e rest zero k hj hk look =
      rw (first_place i hi) (masked_zero (word i) mask k e look)
  Clear-suc n i mask hi e rest (suc j) k hj hk look =
      rw (next_place i j) at (rest j k (omega arith) hk (Looks-ones j k hk))

  Found-suc :
      (n i mask r : ℕ)
      → i < 4
      → bit_and (word i) mask ≡ 0
      → Found n ((i + 1) % 4) (2 ^ 64 - 1) r
      → Found (suc n) i mask r
  Found-suc n i mask r hi e f = record {
    j = suc f.j;
    round = omega (arith, f.round);
    place = f.place ∙ next_place i f.j;
    marked = rw (next_place i f.j) at f.marked;
    looked = tt;
    before = Clear-suc f.j i mask hi e f.before;
    below = λ k lt look. rw (next_place i f.j) at (f.below k lt (Looks-ones f.j k (omega arith)));
  }

  Found-first :
      (n i mask : ℕ)
      → i < 4
      → bit_and (word i) mask ≢ 0
      → Found (suc n) i mask (i * 64 + ffs 64 (bit_and (word i) mask))
  Found-first n i mask hi ne =
      let v : ℕ = bit_and (word i) mask in
      let (lt, found, under) = ffs_lem 64 v (bit_and-lt 64 (word i) mask (w.1 i)) ne in
      let low : (i * 64 + ffs 64 v) % 64 ≡ ffs 64 v = omega (arith, lt) in
      record {
        j = 0;
        round = omega arith;
        place = omega (arith, lt);
        marked =
            rw (low, first_place i hi)
              (omega (
                arith,
                found,
                bit-bit_and (word i) mask (ffs 64 v),
                bit-lt (word i) (ffs 64 v),
                bit-lt mask (ffs 64 v),
              ));
        looked = rw low (
            omega (
              arith,
              found,
              bit-bit_and (word i) mask (ffs 64 v),
              bit-lt (word i) (ffs 64 v),
              bit-lt mask (ffs 64 v),
            ));
        before = λ j k hj. absurd (omega arith);
        below = λ k less look. rw (first_place i hi) (
            omega (
              arith,
              under k (rw low at less),
              look,
              bit-bit_and (word i) mask k,
              bit-lt (word i) k,
            ));
      }

  later :
      (n i mask : ℕ) {r : ℕ}
      → i < 4
      → bit_and (word i) mask ≡ 0
      → Outcome n ((i + 1) % 4) (2 ^ 64 - 1) r
      → Outcome (suc n) i mask r
  later n i mask hi e (inl (whole, clear)) = inl (whole, Clear-suc n i mask hi e clear)
  later n i mask hi e (inr f) = inr (Found-suc n i mask _ hi e f)

  scan_lem : (n i mask : ℕ) → i < 4 → Outcome n i mask (scan bitmap n i mask)
  unfolding scan
  scan_lem zero i mask hi = inl (refl, λ j k hj. absurd (omega arith))
  scan_lem (suc n) i mask hi = elim (ℕ_discrete (bit_and (word i) mask) 0) [
    | yes empty ↦
        rw ((==_iff _ _).1 empty)
          (later n i mask hi empty (scan_lem n ((i + 1) % 4) (2 ^ 64 - 1) (omega arith)))
    | no some_bit ↦ rw (==_ne _ _ some_bit) (inr (Found-first n i mask hi some_bit))
  ]

-- How many slots behind the base index a slot is served.
abbrev pub distance : ℕ → ℕ → ℕ
distance ibase i = (i + 256 - ibase) % 256

-- The slots that the last lap of `rel_ffs` would have to look at: those of the base index's own long,
-- below the base index.
abbrev pub IsBlind : ℕ → ℕ → Type 0
IsBlind ibase i = (i / 64 ≡ ibase / 64) × (i < ibase)

mask_high : (b k : ℕ) → b ≤ k → k < 64 → bit (base_mask b) k ≡ 1
mask_high b k h hk =
    let small : 2 ^ b < 2 ^ 64 = pow-lt_word b (omega arith) in
    omega (
      arith,
      bit-complement 64 (2 ^ b - 1) k (omega arith) hk,
      bit-high b (2 ^ b - 1) k (omega (arith, one-le-pow b 2)) h,
    )

mask_low : (b k : ℕ) → k < b → b < 64 → bit (base_mask b) k ≡ 0
mask_low b k h hb =
    let small : 2 ^ b < 2 ^ 64 = pow-lt_word b hb in
    omega (arith, bit-complement 64 (2 ^ b - 1) k (omega arith) (omega arith), bit-ones b k h)

Looks-high : (j b k : ℕ) → ((j ≡ 0) → b ≤ k) → k < 64 → Looks j (base_mask b) k
Looks-high zero b k h hk = mask_high b k (h refl) hk
Looks-high (suc j) b k h hk = tt

looked_high : (j b k : ℕ) → b < 64 → k < 64 → Looks j (base_mask b) k → (1 ≤ j) ⊎ (b ≤ k)
looked_high zero b k hb hk look = elim (dec_lt k b) [
  | yes low ↦ absurd (omega (arith, mask_low b k low hb, look))
  | no high ↦ inr (omega arith)
]
looked_high (suc j) b k hb hk look = inl (omega arith)

visible :
    (ibase i : ℕ)
    → ibase < 256
    → i < 256
    → ¬ IsBlind ibase i
    → (i / 64 + 4 - ibase / 64) % 4 ≡ 0
    → ibase % 64 ≤ i % 64
visible ibase i hb hi sees e = elim (dec_lt (i % 64) (ibase % 64)) [
  | yes low ↦ absurd (sees (omega arith, omega arith))
  | no high ↦ omega arith
]

-- The slot `r` is marked, and no slot nearer to the base index is.
pub record First (ibase : ℕ) (bitmap : List ℕ) (r : ℕ) : Type 0 where
  pub small : r < 256
  pub marked : mark bitmap r ≡ 1
  pub sees : ¬ IsBlind ibase r
  pub first : (i : ℕ) → i < 256 → distance ibase i < distance ibase r → mark bitmap i ≡ 0

module _ (ibase : ℕ) (bitmap : List ℕ) (hi : ibase < 256) (w : Words bitmap) where
  abbrev turn : ℕ → ℕ
  turn i = (i / 64 + 4 - ibase / 64) % 4

  -- A slot that is looked at in a clear scan is not marked.
  unmarked :
      (n i : ℕ)
      → i < 256
      → turn i < n
      → (turn i ≡ 0 → ibase % 64 ≤ i % 64)
      → Clear bitmap w n (ibase / 64) (base_mask (ibase % 64))
      → mark bitmap i ≡ 0
  unmarked n i h lt seen clear =
      let place : (ibase / 64 + turn i) % 4 ≡ i / 64 = omega arith in
      rw place at (
        clear (turn i) (i % 64) lt (omega arith)
          (Looks-high (turn i) (ibase % 64) (i % 64) seen (omega arith)))

  Found-before :
      (r : ℕ) (f : Found bitmap w 4 (ibase / 64) (base_mask (ibase % 64)) r)
      → (1 ≤ f.j) ⊎ (ibase % 64 ≤ r % 64)
      → (i : ℕ) → i < 256
      → distance ibase i < distance ibase r
      → mark bitmap i ≡ 0
  Found-before r f seen i h near = elim (dec_lt (turn i) f.j) [
    | yes earlier ↦ unmarked f.j i h earlier (λ e. omega (arith, f.round, f.place)) f.before
    | no not_yet ↦
        let place : (ibase / 64 + f.j) % 4 ≡ i / 64 = omega (arith, f.round, f.place) in
        rw place at (
          f.below (i % 64) (omega (arith, f.round, f.place))
            (Looks-high f.j (ibase % 64) (i % 64) (λ e. omega (arith, f.place)) (omega arith)))
  ]

  Found-First :
      (r : ℕ) → Found bitmap w 4 (ibase / 64) (base_mask (ibase % 64)) r → First ibase bitmap r
  Found-First r f =
      let seen = looked_high f.j (ibase % 64) (r % 64) (omega arith) (omega arith) f.looked in
      record {
        small = omega (arith, f.place);
        marked = rw (← f.place) at f.marked;
        sees = λ blind. omega (arith, seen, blind, f.round, f.place);
        first = Found-before r f seen;
      }

-- Either no slot is marked but in the blind spot, and 256 is returned; or the slot returned is marked,
-- and no slot nearer to the base index is.
abbrev pub Scanned : ℕ → List ℕ → ℕ → Type 0
Scanned ibase bitmap r =
    ((r ≡ 256) × ((i : ℕ) → i < 256 → ¬ IsBlind ibase i → mark bitmap i ≡ 0)) ⊎ First ibase bitmap r

pub rel_ffs_lem :
    (rq : Ring) → rq.ibase < 256 → Words rq.bitmap → Scanned rq.ibase rq.bitmap (rel_ffs rq)
unfolding rel_ffs
rel_ffs_lem rq hi w =
    scanned (scan_lem rq.bitmap w 4 (rq.ibase / 64) (base_mask (rq.ibase % 64)) (omega arith))
  where
    scanned :
        {r : ℕ}
        → Outcome rq.bitmap w 4 (rq.ibase / 64) (base_mask (rq.ibase % 64)) r
        → Scanned rq.ibase rq.bitmap r
    scanned (inl (none_left, clear)) = inl (
      none_left,
      λ i h sees.
          unmarked rq.ibase rq.bitmap hi w 4 i h (omega arith) (λ e. visible rq.ibase i hi h sees e)
            clear,
    )
    scanned {r} (inr f) = inr (Found-First rq.ibase rq.bitmap hi w r f)
