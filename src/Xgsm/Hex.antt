-- ===== src/Xgsm/Hex.antt =====
-- xgsm.c, `xgsm_hexdata` and `xgsm_CMGS_PDU_length`: octets as hexadecimal text.
use trivia.Prelude.{
  ℕ, ◌+◌, ◌-◌, ◌*◌, ◌/◌, ◌%◌, ◌^◌, ◌≤◌, ◌<◌, ◌≡◌, refl, ap, ◌∙◌, Bool, true, Option, none, some,
  List, [], ◌∷◌, arith, ltb, leb, if◌then◌else◌, length, ◌&&◌,
}
use mathlib.Core.Option
use trivia.Xgsm.Number.{Bytes}

-- One character of `sprintf(p, "%02x", …)`.
unfoldable pub hex_digit : ℕ → ℕ
hex_digit d = if ltb d 10 then b'0' + d else b'a' + (d - 10)

unfoldable pub hex_bytes : List ℕ → List ℕ
hex_bytes [] = []
hex_bytes (b ∷ bs) = hex_digit (b / 16) ∷ hex_digit (b % 16) ∷ hex_bytes bs

unfoldable pub hexdata : (ℕ → Bool) → List ℕ → Option (List ℕ)
unfolding hex_bytes
hexdata malloc bytes = if malloc (2 * length bytes + 1) then some (hex_bytes bytes) else none

-- The value of a hexadecimal digit, as `%x` and a modem read it.
unfoldable pub hex_value : ℕ → Option ℕ
hex_value c =
    if leb b'0' c && leb c b'9'
    then some (c - b'0')
    else if leb b'a' c && leb c b'f'
    then some (c - b'a' + 10)
    else if leb b'A' c && leb c b'F'
    then some (c - b'A' + 10)
    else none

-- `sscanf(hpdu, "%2x", &l)` on a text with no leading space, sign or `0x`.
unfoldable pub scan_hex : List ℕ → Option ℕ
unfolding hex_value
scan_hex [] = none
scan_hex (c ∷ []) = hex_value c
scan_hex (c ∷ d ∷ cs) = elim (hex_value c) [
  | none ↦ none
  | some h ↦ elim (hex_value d) [ none ↦ some h | some l ↦ some (16 * h + l) ]
]

-- The `int` returned, as its 32-bit pattern: -1 is 2 ^ 32 - 1.
unfoldable pub pdu_length : List ℕ → ℕ
pdu_length hpdu = elim (scan_hex hpdu) [
  | none ↦ 2 ^ 32 - 1
  | some l ↦ (length hpdu / 2 + 2 ^ 33 - l - 1) % 2 ^ 32
]

-- The receiver: two digits to an octet.
unfoldable pub unhex : List ℕ → Option (List ℕ)
unfolding hex_value
unhex [] = some []
unhex (c ∷ []) = none
unhex (c ∷ d ∷ cs) =
    let tail = unhex cs in
    elim (hex_value c) [
      | none ↦ none
      | some h ↦ elim (hex_value d) [
        | none ↦ none
        | some l ↦ Option.map (λ bs. (16 * h + l) ∷ bs) tail
      ]
    ]

pub hex_value-hex_digit : (d : ℕ) → d < 16 → hex_value (hex_digit d) ≡ some d
unfolding hex_value hex_digit
hex_value-hex_digit d h = ground arith

scan_hex_digits :
    (h l : ℕ) (cs : List ℕ)
    → h < 16
    → l < 16
    → scan_hex (hex_digit h ∷ hex_digit l ∷ cs) ≡ some (16 * h + l)
unfolding scan_hex hex_digit
scan_hex_digits h l cs hh hl = ground arith

unhex_step :
    (h l : ℕ) (cs : List ℕ)
    → h < 16
    → l < 16
    → unhex (hex_digit h ∷ hex_digit l ∷ cs) ≡ Option.map (λ bs. (16 * h + l) ∷ bs) (unhex cs)
unfolding unhex hex_digit
unhex_step h l cs hh hl = ground arith

unhex-hex_bytes : (bs : List ℕ) → Bytes bs → unhex (hex_bytes bs) ≡ some bs
unfolding hex_bytes
unhex-hex_bytes [] h = unfold unhex in refl
unhex-hex_bytes (b ∷ bs) (hb, h) =
    unhex_step (b / 16) (b % 16) (hex_bytes bs) (omega arith) (omega arith)
    ∙ rw (unhex-hex_bytes bs h) (ap some (ap (λ t. t ∷ bs) (omega arith)))

pub length-hex_bytes : (bs : List ℕ) → length (hex_bytes bs) ≡ 2 * length bs
unfolding hex_bytes
length-hex_bytes [] = refl
length-hex_bytes (b ∷ bs) = omega (arith, length-hex_bytes bs)

-- The hexadecimal text of a list of octets is twice as long, fits the buffer allocated for it, and
-- reads back as the same octets.
hexdata-unhex :
    (malloc : ℕ → Bool) (bytes : List ℕ)
    → malloc (2 * length bytes + 1) ≡ true
    → Bytes bytes
    → (text : List ℕ) × (hexdata malloc bytes ≡ some text)
      × (unhex text ≡ some bytes)
      × (length text ≡ 2 * length bytes)
unfolding hexdata
hexdata-unhex malloc bytes room h =
    (hex_bytes bytes, rw room, unhex-hex_bytes bytes h, length-hex_bytes bytes)

-- For octets that begin with the length `b` of the service centre, the length announced to the modem
-- (`AT+CMGS`) is the number of octets behind the service centre.
pdu_length-hex_bytes :
    (b : ℕ) (bs : List ℕ)
    → b < 256
    → b ≤ length bs
    → length bs < 2 ^ 31
    → pdu_length (hex_bytes (b ∷ bs)) ≡ length bs - b
unfolding pdu_length hex_bytes
pdu_length-hex_bytes b bs hb fits small =
    ground (arith, scan_hex_digits (b / 16) (b % 16) (hex_bytes bs), length-hex_bytes bs)
