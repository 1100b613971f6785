-- ===== src/Xgsm/Pdu/Receiver.antt =====
-- How a receiver takes an SMS-SUBMIT message apart, from GSM 03.40: the specification that the
-- octets made by `xgsm_create_PDU` are held against.
use trivia.Prelude.{ℕ, zero, suc, ◌+◌, ◌/◌, Option, none, some, List, ◌∷◌, take, drop}
use trivia.Xgsm.Number.{read_number}

pub record Address : Type 0 where
  pub kind : ℕ
  pub digits : List ℕ

pub record Submit : Type 0 where
  pub centre : Option Address
  pub first : ℕ
  pub reference : ℕ
  pub count : ℕ
  pub recipient : Address
  pub pid : ℕ
  pub dcs : ℕ
  pub validity : ℕ
  pub text_length : ℕ
  pub text : List ℕ

abbrev pub read_address : ℕ → List ℕ → Address
read_address kind octs = record { kind = kind; digits = read_number octs }

-- Behind the recipient's number.
abbrev pub parse_tail : Option Address → ℕ → ℕ → ℕ → Address → List ℕ → Option Submit
parse_tail centre first reference count to (pid ∷ dcs ∷ validity ∷ text_length ∷ text) =
    some (record {
      centre = centre;
      first = first;
      reference = reference;
      count = count;
      recipient = to;
      pid = pid;
      dcs = dcs;
      validity = validity;
      text_length = text_length;
      text = text;
    })
parse_tail centre first reference count to _ = none

-- Behind the service centre: the recipient's number has `count` digits, two to an octet.
abbrev pub parse_submit : Option Address → List ℕ → Option Submit
parse_submit centre (first ∷ reference ∷ count ∷ kind ∷ more) =
    parse_tail centre first reference count (read_address kind (take ((count + 1) / 2) more))
      (drop ((count + 1) / 2) more)
parse_submit centre _ = none

-- The first octet counts the octets of the service centre, its type included; 0 means none is given.
unfoldable pub parse_pdu : List ℕ → Option Submit
parse_pdu (zero ∷ more) = parse_submit none more
parse_pdu (suc l ∷ kind ∷ more) =
    parse_submit (some (read_address kind (take l more))) (drop l more)
parse_pdu _ = none
