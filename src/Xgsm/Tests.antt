-- ===== src/Xgsm/Tests.antt =====
-- Runs of the coding functions of xgsm.c, and their theorems at concrete inputs.
use trivia.Prelude.{
  ℕ, ◌+◌, ◌*◌, ◌/◌, ◌≤◌, ◌<◌, ◌≡◌, refl, Bool, true, none, some, List, [], ◌∷◌, arith, length, inl,
}
use trivia.Xgsm.Number.{code_number, code_number_only, AllDigits, Bytes}
use trivia.Xgsm.Pack7.{pack7, pack7-octets, pack7_only, octets, septets, Septets}
use trivia.Xgsm.Validity.{get_vt, period, get_vt_overrun}
use trivia.Xgsm.Pdu.{create_pdu, made, fault, buffer_size}
use trivia.Xgsm.Pdu.Receiver.{parse_pdu}
use trivia.Xgsm.Pdu.RoundTrip.{create_pdu-parse_pdu, create_pdu_fault, delivered}

abbrev plenty : ℕ → Bool
plenty n = true

-- "1234567"
abbrev seven_digits : List ℕ
seven_digits = 0x31 ∷ 0x32 ∷ 0x33 ∷ 0x34 ∷ 0x35 ∷ 0x36 ∷ 0x37 ∷ []

-- "+39123"
abbrev recipient : List ℕ
recipient = 0x2b ∷ 0x33 ∷ 0x39 ∷ 0x31 ∷ 0x32 ∷ 0x33 ∷ []

-- "hellohello"
abbrev hello : List ℕ
hello = 0x68 ∷ 0x65 ∷ 0x6c ∷ 0x6c ∷ 0x6f ∷ 0x68 ∷ 0x65 ∷ 0x6c ∷ 0x6c ∷ 0x6f ∷ []

codes_seven : code_number plenty seven_digits ≡ some (0x21 ∷ 0x43 ∷ 0x65 ∷ 0xf7 ∷ [])
unfolding code_number
codes_seven = refl

-- The packing that GSM 03.38 gives as its example.
packs_hello :
    pack7 plenty hello ≡ some (0xe8 ∷ 0x32 ∷ 0x9b ∷ 0xfd ∷ 0x46 ∷ 0x97 ∷ 0xd9 ∷ 0xec ∷ 0x37 ∷ [])
unfolding pack7
packs_hello = refl

code_number_only_example : (plenty 5 ≡ true) × AllDigits seven_digits
code_number_only_example =
    code_number_only plenty seven_digits (0x21 ∷ 0x43 ∷ 0x65 ∷ 0xf7 ∷ []) codes_seven

pack7-octets_example :
    (bs : List ℕ) × (pack7 plenty hello ≡ some bs)
    × (octets bs ≡ septets hello)
    × Bytes bs
    × (length bs ≡ (7 * length hello + 7) / 8)
    × (length bs ≤ length hello + 1)
pack7-octets_example = pack7-octets plenty hello refl (omega arith)

pack7_only_example : Septets hello
pack7_only_example =
    pack7_only plenty hello (0xe8 ∷ 0x32 ∷ 0x9b ∷ 0xfd ∷ 0x46 ∷ 0x97 ∷ 0xd9 ∷ 0xec ∷ 0x37 ∷ [])
      (omega arith) packs_hello

get_vt_overrun_example : 2340 < period (get_vt 2340)
get_vt_overrun_example = get_vt_overrun 2340 (inl (omega arith))

create_pdu-parse_pdu_example :
    (pdu : List ℕ) × (text : List ℕ) × (create_pdu plenty recipient (some recipient) hello
      ≡ made pdu)
    × (parse_pdu pdu ≡ some (delivered recipient (some recipient) hello text))
    × (octets text ≡ septets hello)
    × Bytes pdu
    × (length pdu ≤ buffer_size recipient (some recipient) hello)
create_pdu-parse_pdu_example =
    create_pdu-parse_pdu plenty (λ n. refl) recipient (some recipient) hello (omega arith)
      (omega arith) (omega arith) (omega arith) (omega arith)

wide_text : ¬ Septets (0x68 ∷ 0xe9 ∷ [])
wide_text h = omega arith

create_pdu_fault_example : create_pdu plenty recipient none (0x68 ∷ 0xe9 ∷ []) ≡ fault
create_pdu_fault_example =
    create_pdu_fault plenty (λ n. refl) recipient none (0x68 ∷ 0xe9 ∷ []) (omega arith) tt
      (omega arith) wide_text
