-- ===== src/Xgsm/Pdu/RoundTrip.antt =====
-- A receiver finds in the octets of `xgsm_create_PDU` what the sender put there.
use trivia.Prelude.{
  ℕ, suc, ◌+◌, ◌*◌, ◌/◌, ◌%◌, ◌≤◌, ◌<◌, ◌≡◌, refl, ◌∙◌, Bool, true, Option, none, some, List, [],
  ◌∷◌, ◌++◌, arith, length, length-append, append_assoc, take-append_length, drop-append_length,
}
use trivia.Xgsm.Number.{code_number, code_number-read_number, read_number, AllDigits, Bytes}
use trivia.Xgsm.Pack7.{pack7, pack7-octets, pack7_wide, octets, septets, Septets}
use trivia.Xgsm.Validity.{get_vt}
use trivia.Xgsm.Pdu.{
  fault, made, number_type, number_digits, buffer_size, centre_octets, submit_octets, create_pdu,
}
use trivia.Xgsm.Pdu.Receiver.{Address, Submit, parse_submit, parse_pdu}

abbrev pub address : List ℕ → Address
address nbr = record { kind = number_type nbr; digits = number_digits nbr }

abbrev pub centre_address : Option (List ℕ) → Option Address
centre_address none = none
centre_address (some scnbr) = some (address scnbr)

-- The octets of the service centre are counted by one octet.
abbrev pub IsCentre : Option (List ℕ) → Type 0
IsCentre none = Unit
IsCentre (some scnbr) = AllDigits (number_digits scnbr) × (length (number_digits scnbr) ≤ 508)

length-number_digits : (nbr : List ℕ) → length (number_digits nbr) ≤ length nbr
length-number_digits [] = omega arith
length-number_digits (c ∷ cs) = ground arith

number_type-lt : (nbr : List ℕ) → number_type nbr < 256
number_type-lt [] = omega arith
number_type-lt (c ∷ cs) = ground arith

pub Bytes-append : (xs ys : List ℕ) → Bytes xs → Bytes ys → Bytes (xs ++ ys)
Bytes-append [] ys hx hy = hy
Bytes-append (x ∷ xs) ys hx hy = (hx.0, Bytes-append xs ys hx.1 hy)

-- The octets of a service centre, and how a receiver gets past them.
record Centre (malloc : ℕ → Bool) (scnbr : Option (List ℕ)) (octs : List ℕ) : Type 0 where
  made : centre_octets malloc scnbr ≡ some octs
  reads : (more : List ℕ) → parse_pdu (octs ++ more) ≡ parse_submit (centre_address scnbr) more
  bytes : Bytes octs
  fits : length octs + 250 ≤ buffer_size [] scnbr []

parse_centre :
    (scnbr bs more : List ℕ)
    → length bs ≤ 254
    → read_number bs ≡ number_digits scnbr
    → parse_pdu ((1 + length bs) % 256 ∷ number_type scnbr ∷ (bs ++ more))
      ≡ parse_submit (some (address scnbr)) more
unfolding parse_pdu
parse_centre scnbr bs more few reads =
    let count : (1 + length bs) % 256 ≡ suc (length bs) = omega arith in
    rw (count, take-append_length bs more, drop-append_length bs more, reads)

Centre-given :
    (malloc : ℕ → Bool) (scnbr bs : List ℕ)
    → length (number_digits scnbr) ≤ 508
    → code_number malloc (number_digits scnbr) ≡ some bs
    → read_number bs ≡ number_digits scnbr
    → Bytes bs
    → length bs ≡ (length (number_digits scnbr) + 1) / 2
    → Centre malloc (some scnbr) ((1 + length bs) % 256 ∷ number_type scnbr ∷ bs)
unfolding centre_octets
Centre-given malloc scnbr bs few coded reads bytes size = record {
  made = ground (arith, coded);
  reads = λ more. parse_centre scnbr bs more (omega (arith, size)) reads;
  bytes = (omega arith, (number_type-lt scnbr, bytes));
  fits = omega (arith, size, length-number_digits scnbr);
}

-- What a receiver is to read.
abbrev pub delivered : List ℕ → Option (List ℕ) → List ℕ → List ℕ → Submit
delivered nbr scnbr msg text = record {
  centre = centre_address scnbr;
  first = 0x11;
  reference = 0;
  count = length (number_digits nbr);
  recipient = address nbr;
  pid = 0;
  dcs = 0;
  validity = 167;
  text_length = length msg;
  text = text;
}

submit-parse :
    (nbr : List ℕ) (scnbr : Option (List ℕ)) (msg encd text : List ℕ)
    → length (number_digits nbr) < 256
    → length msg < 256
    → read_number encd ≡ number_digits nbr
    → length encd ≡ (length (number_digits nbr) + 1) / 2
    → parse_submit (centre_address scnbr) (submit_octets nbr encd msg ++ text)
      ≡ some (delivered nbr scnbr msg text)
unfolding get_vt
submit-parse nbr scnbr msg encd text hn hm reads size =
    let count : length (number_digits nbr) % 256 ≡ length (number_digits nbr) = omega arith in
    let sized : length msg % 256 ≡ length msg = omega arith in
    rw (count, sized, append_assoc, ← size, take-append_length, drop-append_length, reads)

submit_octets-Bytes : (nbr encd msg : List ℕ) → Bytes encd → Bytes (submit_octets nbr encd msg)
submit_octets-Bytes nbr encd msg h = (
  omega arith,
  (omega arith, (omega arith, (number_type-lt nbr, Bytes-append encd _ h (omega arith)))),
)

length-submit_octets :
    (nbr encd msg : List ℕ) → length (submit_octets nbr encd msg) ≡ length encd + 8
length-submit_octets nbr encd msg =
    omega (arith, length-append encd (0 ∷ 0 ∷ get_vt (1 * 60 * 24) % 256 ∷ length msg % 256 ∷ []))

buffer_size-parts :
    (nbr : List ℕ) (scnbr : Option (List ℕ)) (msg : List ℕ)
    → buffer_size nbr scnbr msg ≡ buffer_size [] scnbr [] + length nbr + 2 * length msg
buffer_size-parts nbr none msg = omega arith
buffer_size-parts nbr (some scnbr) msg = omega arith

module _ (malloc : ℕ → Bool) (room : (n : ℕ) → malloc n ≡ true) where
  Centre-total :
      (scnbr : Option (List ℕ)) → IsCentre scnbr → (octs : List ℕ) × Centre malloc scnbr octs
  Centre-total none h = (
    0x00 ∷ [],
    record {
      made = unfold centre_octets in refl;
      reads = λ more. unfold parse_pdu in refl;
      bytes = (omega arith, tt);
      fits = omega arith;
    },
  )
  Centre-total (some scnbr) (digits, few) =
      let (bs, coded, reads, bytes, size, _) =
        code_number-read_number malloc (number_digits scnbr) (room _) digits in
      (_, Centre-given malloc scnbr bs few coded reads bytes size)

  create_made :
      (nbr : List ℕ) (scnbr : Option (List ℕ)) (msg centre encd text : List ℕ)
      → centre_octets malloc scnbr ≡ some centre
      → code_number malloc (number_digits nbr) ≡ some encd
      → pack7 malloc msg ≡ some text
      → create_pdu malloc nbr scnbr msg ≡ made ((centre ++ submit_octets nbr encd msg) ++ text)
  unfolding create_pdu
  create_made nbr scnbr msg centre encd text c e t = rw (room (buffer_size nbr scnbr msg), c, e, t)

  -- With memory enough, a message of at most 255 septets to a number of at most 255 digits, with or
  -- without a service centre, becomes octets that fit the buffer and from which a receiver reads
  -- the service centre, the recipient, the validity of one day and the text, all as they were given.
  pub create_pdu-parse_pdu :
      (nbr : List ℕ) (scnbr : Option (List ℕ)) (msg : List ℕ)
      → AllDigits (number_digits nbr)
      → length (number_digits nbr) < 256
      → IsCentre scnbr
      → Septets msg
      → length msg < 256
      → (pdu : List ℕ) × (text : List ℕ) × (create_pdu malloc nbr scnbr msg ≡ made pdu)
        × (parse_pdu pdu ≡ some (delivered nbr scnbr msg text))
        × (octets text ≡ septets msg)
        × Bytes pdu
        × (length pdu ≤ buffer_size nbr scnbr msg)
  create_pdu-parse_pdu nbr scnbr msg digits hn hc hm few =
      let (centre, c) = Centre-total scnbr hc in
      let (encd, coded, reads, bytes, size, _) =
        code_number-read_number malloc (number_digits nbr) (room _) digits in
      let (text, packed, value, tbytes, tsize, _) = pack7-octets malloc msg (room _) hm in
      let front = submit_octets nbr encd msg in
      (
        (centre ++ front) ++ text,
        text,
        create_made nbr scnbr msg centre encd text c.made coded packed,
        rw append_assoc
            (c.reads (front ++ text) ∙ submit-parse nbr scnbr msg encd text hn few reads size),
        value,
        Bytes-append (centre ++ front) text
            (Bytes-append centre front c.bytes (submit_octets-Bytes nbr encd msg bytes)) tbytes,
        omega (
          arith,
          length-append (centre ++ front) text,
          length-append centre front,
          length-submit_octets nbr encd msg,
          c.fits,
          size,
          tsize,
          length-number_digits nbr,
          buffer_size-parts nbr scnbr msg,
        ),
      )

  -- A message with a byte of 128 or more makes the null pointer that `xgsm_pack7` returns be read.
  pub create_pdu_fault :
      (nbr : List ℕ) (scnbr : Option (List ℕ)) (msg : List ℕ)
      → AllDigits (number_digits nbr)
      → IsCentre scnbr
      → Bytes msg
      → ¬ Septets msg
      → create_pdu malloc nbr scnbr msg ≡ fault
  unfolding create_pdu
  create_pdu_fault nbr scnbr msg digits hc hb wide =
      let (centre, c) = Centre-total scnbr hc in
      let (encd, coded, _, _, _, _) =
        code_number-read_number malloc (number_digits nbr) (room _) digits in
      let unpacked : pack7 malloc msg ≡ none = pack7_wide malloc msg hb wide in
      rw (room (buffer_size nbr scnbr msg), c.made, coded, unpacked)
