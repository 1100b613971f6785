-- ===== src/Xgsm/Pack7.antt =====
-- xgsm.c, `xgsm_pack7`: septets packed into octets, and what the packed octets denote.
use trivia.Prelude.{
  ℕ, suc, ◌+◌, ◌-◌, ◌*◌, ◌/◌, ◌%◌, ◌^◌, ◌≤◌, ◌<◌, ◌≡◌, refl, ap, bit_and, bit_or, Bool, true,
  Option, none, some, List, [], ◌∷◌, arith, ltb, ◌==◌, if◌then◌else◌, length, inl, inr, Bool-cases,
  Option-cases, dec_lt,
}
use mathlib.Core.Option
use native.Mathlib.Nat.{zero-div}
use trivia.Prelude.Bits.{bit_or_fields, bit_and_mask, bit_and-top}
use trivia.Xgsm.Number.{Bytes}

-- `data[i]`, which is the NUL at the end of the string.
abbrev pub peek : List ℕ → ℕ
peek [] = 0
peek (c ∷ cs) = c

-- `(data[i] >> s) | ((data[i + 1] & m) << (7 - s))` with `m = (1 << (s + 1)) - 1`, cut to a byte.
unfoldable pub pack_byte : ℕ → ℕ → ℕ → ℕ
pack_byte s c next = bit_or (c / 2 ^ s) (bit_and next (2 ^ (s + 1) - 1) * 2 ^ (7 - s)) % 256

-- The loop, from the index `i` on.
unfoldable pub pack_from : ℕ → List ℕ → Option (List ℕ)
unfolding pack_byte
pack_from i [] = some []
pack_from i (c ∷ cs) =
    let tail = pack_from (i + 1) cs in
    if bit_and c 0x80 == 0
    then (if ltb (i % 8) 7 then Option.map (λ r. pack_byte (i % 8) c (peek cs) ∷ r) tail else tail)
    else none

unfoldable pub pack7 : (ℕ → Bool) → List ℕ → Option (List ℕ)
unfolding pack_from
pack7 malloc text = if malloc (length text + 1) then pack_from 0 text else none

-- The number whose digits to the base 128, lowest first, are the septets; to the base 256, the octets.
abbrev pub septets : List ℕ → ℕ
septets [] = 0
septets (c ∷ cs) = c + 128 * septets cs

abbrev pub octets : List ℕ → ℕ
octets [] = 0
octets (b ∷ bs) = b + 256 * octets bs

abbrev pub Septets : List ℕ → Type 0
Septets [] = Unit
Septets (c ∷ cs) = (c < 128) × Septets cs

-- What is still to be sent at index `i`: the high bits of the current septet, and the rest.
abbrev pending : ℕ → List ℕ → ℕ
pending s [] = 0
pending s (c ∷ cs) = c / 2 ^ s + 2 ^ (7 - s) * septets cs

module _ {c : ℕ} (next : ℕ) (small : c < 128) where
  pack_byte_lem :
      (s : ℕ) → s < 7 → pack_byte s c next ≡ c / 2 ^ s + next % 2 ^ (s + 1) * 2 ^ (7 - s)
  unfolding pack_byte
  pack_byte_lem (suc (suc (suc (suc (suc (suc (suc s))))))) h = absurd (omega arith)
  pack_byte_lem s h =
      rw (bit_and_mask (s + 1) next)
        (omega (arith, bit_or_fields (7 - s) (next % 2 ^ (s + 1)) (c / 2 ^ s) (omega arith)))

  -- The octet written at a shift below 7, and what is pending behind it.
  pack_byte_step :
      (s above : ℕ)
      → s < 7
      → next < 128
      → (pack_byte s c next + 256 * (next / 2 ^ (s + 1) + 2 ^ (7 - (s + 1)) * above)
          ≡ c / 2 ^ s + 2 ^ (7 - s) * (next + 128 * above))
        × (pack_byte s c next < 256)
  pack_byte_step (suc (suc (suc (suc (suc (suc (suc s))))))) above h hn = absurd (omega arith)
  pack_byte_step s above h hn = omega (arith, pack_byte_lem s h)

abbrev rest : List ℕ → List ℕ
rest [] = []
rest (c ∷ cs) = cs

septets-rest : (cs : List ℕ) → septets cs ≡ peek cs + 128 * septets (rest cs)
septets-rest [] = refl
septets-rest (c ∷ cs) = refl

peek-lt : (cs : List ℕ) → Septets cs → peek cs < 128
peek-lt [] h = omega arith
peek-lt (c ∷ cs) h = h.0

pending-rest :
    (s : ℕ) (cs : List ℕ) → pending s cs ≡ peek cs / 2 ^ s + 2 ^ (7 - s) * septets (rest cs)
pending-rest s [] = omega (arith, zero-div (2 ^ s))
pending-rest s (c ∷ cs) = refl

pending-zero : (cs : List ℕ) → pending 0 cs ≡ septets cs
pending-zero [] = refl
pending-zero (c ∷ cs) = omega arith

record Packed (i : ℕ) (cs bs : List ℕ) : Type 0 where
  made : pack_from i cs ≡ some bs
  value : octets bs ≡ pending (i % 8) cs
  bytes : Bytes bs
  size : length bs + (i - i / 8) ≡ i + length cs - (i + length cs) / 8

-- One round on an index that writes an octet, and on one that does not.
pack_octet :
    (i c : ℕ) (cs bs : List ℕ)
    → i % 8 < 7
    → c < 128
    → peek cs < 128
    → Packed (i + 1) cs bs
    → Packed i (c ∷ cs) (pack_byte (i % 8) c (peek cs) ∷ bs)
unfolding pack_from
pack_octet i c cs bs hs hc hp ih =
    let next : (i + 1) % 8 ≡ i % 8 + 1 = omega arith in
    let step = pack_byte_step (peek cs) hc (i % 8) (septets (rest cs)) hs hp in
    record {
      made = ground (arith, ih.made, bit_and-top c);
      value = omega (
        arith,
        step.0,
        ih.value,
        ap (λ (t : ℕ). pending t cs) next,
        pending-rest (i % 8 + 1) cs,
        ap (λ (t : ℕ). 2 ^ (7 - i % 8) * t) (septets-rest cs),
      );
      bytes = (step.1, ih.bytes);
      size = omega (arith, ih.size);
    }

pack_skip :
    (i c : ℕ) (cs bs : List ℕ) → i % 8 ≡ 7 → c < 128 → Packed (i + 1) cs bs → Packed i (c ∷ cs) bs
unfolding pack_from
pack_skip i c cs bs hs hc ih = record {
  made = ground (arith, ih.made, bit_and-top c);
  value =
      let next : (i + 1) % 8 ≡ 0 = omega arith in
      rw hs (omega (arith, ih.value, ap (λ (t : ℕ). pending t cs) next, pending-zero cs));
  bytes = ih.bytes;
  size = omega (arith, ih.size);
}

pack_from_total : (i : ℕ) (cs : List ℕ) → Septets cs → (bs : List ℕ) × Packed i cs bs
pack_from_total i [] h =
    ([], record { made = unfold pack_from in refl; value = refl; bytes = tt; size = omega arith })
pack_from_total i (c ∷ cs) (hc, h) =
    let (bs, ih) = pack_from_total (i + 1) cs h in
    elim (dec_lt (i % 8) 7) [
      | yes writes ↦
          (pack_byte (i % 8) c (peek cs) ∷ bs, pack_octet i c cs bs writes hc (peek-lt cs h) ih)
      | no skips ↦ (bs, pack_skip i c cs bs (omega arith) hc ih)
    ]

pack_from_only : (i : ℕ) (cs bs : List ℕ) → Bytes cs → pack_from i cs ≡ some bs → Septets cs
unfolding pack_from
pack_from_only i [] bs h e = tt
pack_from_only i (c ∷ cs) bs (hc, h) e = elim (Option-cases (pack_from (i + 1) cs)) [
  | inl empty ↦ absurd (ground (arith, empty))
  | inr (tail, packed) ↦
      (ground (arith, packed, bit_and-top c), pack_from_only (i + 1) cs tail h packed)
]

-- Every 7-bit text is packed into ceil(7 * n / 8) octets: read as numbers to the bases 128 and 256,
-- lowest digit first, the text and the octets are equal. The buffer allocated for them is large enough.
pub pack7-octets :
    (malloc : ℕ → Bool) (text : List ℕ)
    → malloc (length text + 1) ≡ true
    → Septets text
    → (bs : List ℕ) × (pack7 malloc text ≡ some bs)
      × (octets bs ≡ septets text)
      × Bytes bs
      × (length bs ≡ (7 * length text + 7) / 8)
      × (length bs ≤ length text + 1)
unfolding pack7
pack7-octets malloc text room h =
    let (bs, p) = pack_from_total 0 text h in
    (
      bs,
      rw room p.made,
      omega (arith, p.value, pending-zero text),
      p.bytes,
      omega (arith, p.size),
      omega (arith, p.size),
    )

-- A text with a byte of 128 or more is never packed.
pub pack7_only :
    (malloc : ℕ → Bool) (text bs : List ℕ) → Bytes text → pack7 malloc text ≡ some bs → Septets text
unfolding pack7
pack7_only malloc text bs h e = elim (Bool-cases (malloc (length text + 1))) [
  | inl room ↦ pack_from_only 0 text bs h (rw room at e)
  | inr none_left ↦ absurd (ground (arith, none_left))
]

pub pack7_wide :
    (malloc : ℕ → Bool) (text : List ℕ) → Bytes text → ¬ Septets text → pack7 malloc text ≡ none
pack7_wide malloc text h wide = elim (Option-cases (pack7 malloc text)) [
  | inl empty ↦ empty
  | inr (bs, packed) ↦ absurd (wide (pack7_only malloc text bs h packed))
]
