-- ===== src/Xgsm/Number.antt =====
-- xgsm.c, `xgsm_swap_nibble` and `xgsm_code_number`: decimal digits as swapped nibbles of bytes.
-- A C string is the list of its bytes before the NUL. `malloc` says whether an allocation of that
-- many bytes succeeds; the buffer that comes back is the list of the bytes written to it.
use trivia.Prelude.{
  ℕ, ◌+◌, ◌-◌, ◌*◌, ◌/◌, ◌%◌, ◌^◌, ◌≤◌, ◌<◌, ◌≡◌, refl, bit_or, Bool, true, ◌&&◌, Option, none,
  some, List, [], ◌∷◌, arith, leb, ◌==◌, if◌then◌else◌, length, inl, inr, Bool-cases, Option-cases,
}
use mathlib.Core.Option
use trivia.Prelude.Bits.{bit_or_fields, bit_or_comm}

-- `((v % 10) << 4) | (v / 10)`, for `v` at least 0.
unfoldable pub swap_nibble : ℕ → ℕ
swap_nibble v = bit_or (v % 10 * 2 ^ 4) (v / 10)

abbrev pub is_digit : ℕ → Bool
is_digit c = leb b'0' c && leb c b'9'

-- Both branches of the loop that pair digits; an odd last digit is padded with 0xf0.
unfoldable pub code_digits : List ℕ → Option (List ℕ)
code_digits [] = some []
code_digits (c ∷ []) = if is_digit c then some (bit_or (c - b'0') 0xf0 ∷ []) else none
code_digits (c ∷ d ∷ rest) =
    let tail = code_digits rest in
    if is_digit c
    then (if is_digit d
        then Option.map (λ r. bit_or (c - b'0') ((d - b'0') * 2 ^ 4) ∷ r) tail
        else none)
    else none

unfoldable pub code_number : (ℕ → Bool) → List ℕ → Option (List ℕ)
unfolding code_digits
code_number malloc nbr = if malloc (length nbr / 2 + 2) then code_digits nbr else none

-- The receiver's reading of the bytes: low nibble first, and a high nibble 15 is no digit.
abbrev pub read_byte : ℕ → List ℕ → List ℕ
read_byte b rest =
    if b / 16 == 15 then (b % 16 + b'0') ∷ rest else (b % 16 + b'0') ∷ (b / 16 + b'0') ∷ rest

unfoldable pub read_number : List ℕ → List ℕ
read_number [] = []
read_number (b ∷ bs) = read_byte b (read_number bs)

abbrev pub AllDigits : List ℕ → Type 0
AllDigits [] = Unit
AllDigits (c ∷ cs) = (b'0' ≤ c) × (c ≤ b'9') × AllDigits cs

abbrev pub Bytes : List ℕ → Type 0
Bytes [] = Unit
Bytes (b ∷ bs) = (b < 256) × Bytes bs

pub swap_nibble_lem :
    (v : ℕ) → v < 100 → (swap_nibble v / 16 ≡ v % 10) × (swap_nibble v % 16 ≡ v / 10)
unfolding swap_nibble
swap_nibble_lem v h =
    omega (arith, bit_or_comm (v % 10 * 2 ^ 4) (v / 10), bit_or_fields 4 (v % 10) (v / 10))

-- What comes back for digits, and how it reads.
record Coded (nbr bs : List ℕ) : Type 0 where
  made : code_digits nbr ≡ some bs
  reads : read_number bs ≡ nbr
  bytes : Bytes bs
  size : length bs ≡ (length nbr + 1) / 2

code_digits_total : (nbr : List ℕ) → AllDigits nbr → (bs : List ℕ) × Coded nbr bs
unfolding code_digits read_number
code_digits_total [] h = ([], record { made = refl; reads = refl; bytes = tt; size = omega arith })
code_digits_total (c ∷ []) (lo, hi, h) = (
  bit_or (c - b'0') 0xf0 ∷ [],
  record {
    made = ground arith;
    reads = ground (arith, bit_or_fields 4 15 (c - b'0'));
    bytes = ground (arith, bit_or_fields 4 15 (c - b'0'));
    size = omega arith;
  },
)
code_digits_total (c ∷ d ∷ rest) (lo, hi, (lo', hi', h)) =
    let (bs, ih) = code_digits_total rest h in
    (
      bit_or (c - b'0') ((d - b'0') * 2 ^ 4) ∷ bs,
      record {
        made = ground (arith, ih.made);
        reads = ground (arith, ih.reads, bit_or_fields 4 (d - b'0') (c - b'0'));
        bytes = ground (arith, ih.bytes, bit_or_fields 4 (d - b'0') (c - b'0'));
        size = omega (arith, ih.size);
      },
    )

code_digits_only : (nbr bs : List ℕ) → code_digits nbr ≡ some bs → AllDigits nbr
unfolding code_digits
code_digits_only [] bs e = tt
code_digits_only (c ∷ []) bs e = ground arith
code_digits_only (c ∷ d ∷ rest) bs e = elim (Option-cases (code_digits rest)) [
  | inl empty ↦ absurd (ground (arith, empty))
  | inr (tail, coded) ↦ ground (arith, code_digits_only rest tail coded)
]

-- Every number made of digits is coded, in half as many bytes as digits, rounded up; the receiver
-- reads the same digits; and the allocated buffer is large enough.
pub code_number-read_number :
    (malloc : ℕ → Bool) (nbr : List ℕ)
    → malloc (length nbr / 2 + 2) ≡ true
    → AllDigits nbr
    → (bs : List ℕ) × (code_number malloc nbr ≡ some bs)
      × (read_number bs ≡ nbr)
      × Bytes bs
      × (length bs ≡ (length nbr + 1) / 2)
      × (length bs ≤ length nbr / 2 + 2)
unfolding code_number
code_number-read_number malloc nbr room h =
    let (bs, c) = code_digits_total nbr h in
    (bs, rw room c.made, c.reads, c.bytes, c.size, omega (arith, c.size))

-- A result comes only from a successful allocation and a number made of digits.
pub code_number_only :
    (malloc : ℕ → Bool) (nbr bs : List ℕ)
    → code_number malloc nbr ≡ some bs
    → (malloc (length nbr / 2 + 2) ≡ true) × AllDigits nbr
unfolding code_number
code_number_only malloc nbr bs e = elim (Bool-cases (malloc (length nbr / 2 + 2))) [
  | inl room ↦ (room, code_digits_only nbr bs (rw room at e))
  | inr none_left ↦ absurd (ground (arith, none_left))
]
