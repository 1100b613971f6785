-- ===== src/Memiszero/Reads.antt =====
-- What a run of reads finds: whether all bytes of a range are 0.
use trivia.Prelude.{
  ℕ, zero, suc, ◌+◌, ◌*◌, ◌%◌, ◌≤◌, ◌<◌, ◌≡◌, refl, ◌∙◌, bit_or, Bool, true, ◌&&◌, some, ◌==◌,
  if◌then◌else◌, arith, ==_ne, ℕ_discrete,
}
use trivia.Prelude.Bits.{zero-bit_or, le-bit_or}
use Prim.Native.Nat.add
use native.Mathlib.Nat.{add-zero}
use trivia.Memiszero.{Memory, read, or_bytes, load_bytes, load_word, bytes_until}

unfoldable pub all_zero : (ℕ → ℕ) → ℕ → ℕ → Bool
all_zero byte p zero = true
all_zero byte p (suc n) = byte p == 0 && all_zero byte (p + 1) n

pub all_zero-add :
    (byte : ℕ → ℕ) (m n p : ℕ)
    → all_zero byte p (m + n) ≡ (all_zero byte p m && all_zero byte (p + m) n)
unfolding all_zero
all_zero-add byte zero n p = rw (add.zero n, add-zero p)
all_zero-add byte (suc m) n p =
    let shift : p + 1 + m ≡ p + suc m = omega arith in
    let size : suc m + n ≡ suc (m + n) = omega arith in
    rw (size, ← shift, all_zero-add byte m n (p + 1)) (ground arith)

-- The range can be read.
abbrev pub Readable : Memory → ℕ → ℕ → Type 0
Readable m p n = (m.low ≤ p) × (p + n ≤ m.high)

read_lem : (m : Memory) (p : ℕ) → m.low ≤ p → p < m.high → read m p ≡ some (m.byte p)
unfolding read
read_lem m p lo hi = ground arith

or-is_zero : (z b : ℕ) → (bit_or z b == 0) ≡ (z == 0 && b == 0)
or-is_zero z b = elim (ℕ_discrete z 0) [
  | yes e ↦ rw (e, zero-bit_or)
  | no more ↦ rw (==_ne z 0 more, ==_ne (bit_or z b) 0 (λ e. more (omega (arith, le-bit_or z b))))
]

pub or_bytes_lem :
    (m : Memory) (n p z : ℕ)
    → Readable m p n
    → (z' : ℕ) × (or_bytes m n p z ≡ some z') × ((z' == 0) ≡ (z == 0 && all_zero m.byte p n))
unfolding or_bytes all_zero
or_bytes_lem m zero p z h = (z, refl, ground arith)
or_bytes_lem m (suc n) p z h =
    let (z', made, tests) = or_bytes_lem m n (p + 1) (bit_or z (m.byte p)) (omega arith) in
    (
      z',
      rw (read_lem m p h.0 (omega arith)) made,
      tests ∙ rw (or-is_zero z (m.byte p)) (ground arith),
    )

load_bytes_lem :
    (m : Memory) (n p : ℕ)
    → Readable m p n
    → (v : ℕ) × (load_bytes m n p ≡ some v) × ((v == 0) ≡ all_zero m.byte p n)
unfolding load_bytes all_zero
load_bytes_lem m zero p h = (0, refl, refl)
load_bytes_lem m (suc n) p h =
    let (v, made, tests) = load_bytes_lem m n (p + 1) (omega arith) in
    (m.byte p + 256 * v, rw (read_lem m p h.0 (omega arith), made), rw (← tests) (ground arith))

pub load_word_lem :
    (m : Memory) (width p : ℕ)
    → p % width ≡ 0
    → Readable m p width
    → (v : ℕ) × (load_word m width p ≡ some v) × ((v == 0) ≡ all_zero m.byte p width)
unfolding load_word
load_word_lem m width p aligned h =
    let (v, made, tests) = load_bytes_lem m width p h in (v, rw aligned made, tests)

pub bytes_until_lem :
    (m : Memory) (n p : ℕ)
    → Readable m p n
    → bytes_until m n p ≡ some (if all_zero m.byte p n then 1 else 0)
unfolding bytes_until all_zero
bytes_until_lem m zero p h = refl
bytes_until_lem m (suc n) p h =
    rw (read_lem m p h.0 (omega arith), bytes_until_lem m n (p + 1) (omega arith)) (ground arith)
