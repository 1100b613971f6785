-- ===== src/Xgsm/Pdu.antt =====
-- xgsm.c, `xgsm_create_PDU` and `xgsm_create_hexPDU`: an SMS-SUBMIT message as octets, and its
-- reading by a receiver.
pub mod Receiver
pub mod RoundTrip
use trivia.Prelude.{
  ℕ, zero, suc, ◌+◌, ◌-◌, ◌*◌, ◌/◌, ◌%◌, ◌^◌, ◌≤◌, ◌<◌, ◌≡◌, Bool, true, false, Option, none, some,
  List, [], ◌∷◌, ◌++◌, arith, ltb, leb, ◌==◌, if◌then◌else◌, length,
}
use trivia.Xgsm.Number.{code_number}
use trivia.Xgsm.Pack7.{pack7}
use trivia.Xgsm.Validity.{get_vt}
use trivia.Xgsm.Hex.{hexdata}

-- A null pointer is returned, or one is read by `memcpy` (undefined behaviour), or octets come back.
pub data Outcome : Type 0 where
  null : Outcome
  fault : Outcome
  made : List ℕ → Outcome

-- A leading `+` is dropped, and makes the type of the number international.
abbrev pub number_type : List ℕ → ℕ
number_type [] = 129
number_type (c ∷ cs) = if c == b'+' then 145 else 129

abbrev pub number_digits : List ℕ → List ℕ
number_digits [] = []
number_digits (c ∷ cs) = if c == b'+' then cs else c ∷ cs

-- The size computed for the buffer.
abbrev pub buffer_size : List ℕ → Option (List ℕ) → List ℕ → ℕ
buffer_size nbr none msg = 256 + length nbr + 2 * length msg
buffer_size nbr (some scnbr) msg = 256 + length nbr + 2 * length msg + (2 + length scnbr)

-- The octets of the service centre.
unfoldable pub centre_octets : (ℕ → Bool) → Option (List ℕ) → Option (List ℕ)
centre_octets malloc none = some (0x00 ∷ [])
centre_octets malloc (some scnbr) = elim (code_number malloc (number_digits scnbr)) [
  | none ↦ none
  | some encd ↦ some ((1 + length encd) % 256 ∷ number_type scnbr ∷ encd)
]

-- What stands between the service centre and the packed text.
abbrev pub submit_octets : List ℕ → List ℕ → List ℕ → List ℕ
submit_octets nbr encd msg =
    0x11
    ∷ 0x00
    ∷ length (number_digits nbr) % 256
    ∷ number_type nbr
    ∷ (encd ++ (0x00 ∷ 0x00 ∷ get_vt (1 * 60 * 24) % 256 ∷ length msg % 256 ∷ []))

-- The result of `xgsm_pack7` is not tested before it is copied; memcpy from a null pointer is undefined,
-- also for no bytes (a number of no digits).
abbrev pub append_text : List ℕ → Option (List ℕ) → Outcome
append_text front none = fault
append_text front (some encd) = made (front ++ encd)

abbrev pub append_submit : (ℕ → Bool) → List ℕ → List ℕ → Option (List ℕ) → List ℕ → Outcome
append_submit malloc nbr msg none centre = Outcome.null
append_submit malloc nbr msg (some encd) centre =
    append_text (centre ++ submit_octets nbr encd msg) (pack7 malloc msg)

unfoldable pub create_pdu : (ℕ → Bool) → List ℕ → Option (List ℕ) → List ℕ → Outcome
create_pdu malloc nbr scnbr msg =
    if malloc (buffer_size nbr scnbr msg)
    then (elim (centre_octets malloc scnbr) [
      | none ↦ Outcome.null
      | some centre ↦ append_submit malloc nbr msg (code_number malloc (number_digits nbr)) centre
    ])
    else Outcome.null

unfoldable pub create_hex_pdu : (ℕ → Bool) → List ℕ → Option (List ℕ) → List ℕ → Outcome
create_hex_pdu malloc nbr scnbr msg = elim (create_pdu malloc nbr scnbr msg) [
  | null ↦ Outcome.null
  | fault ↦ fault
  | made pdu ↦ elim (hexdata malloc pdu) [ none ↦ Outcome.null | some text ↦ made text ]
]
