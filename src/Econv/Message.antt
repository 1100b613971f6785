-- ===== src/Econv/Message.antt =====
-- econv.c, main with --unix and --mbox, on a spool whose lines end with CR LF.
use trivia.Prelude.{
  ℕ, zero, suc, ◌≤◌, ◌<◌, ◌≡◌, refl, ap, ◌∙◌, ◌⊎◌, inl, inr, map, Bool, true, false, none, some,
  List, [], ◌∷◌, ◌++◌, length, length-append, append_assoc, if◌then◌else◌, arith,
}
use trivia.Prelude.Text.{ascii, starts_nocase}
use trivia.Thrplhttp.Http.{starts}
use trivia.Thrplhttp.Http.Session.{c_string}
use trivia.Econv.{line_of, extract_address}
use trivia.Econv.Address.{
  NoDelimiter, NoAt, Bounded, BoundedBefore, extract_address-word, extract_address-none,
}
use trivia.Econv.Conversion.{IsLine, Lines, text_of, line_of-crlf, c_string-NoNul, unix_loop-Lines}
use trivia.Econv.Main.{
  Host, Options, or_before, sender, at_tag, tag_loop, from_line, is_empty, with_copy, with_message,
  convert, main,
}

abbrev pub crlf : List ℕ
crlf = 13 ∷ (10 ∷ [])

abbrev pub tag_line : List ℕ
tag_line = ascii "<<MAIL-DATA>>" ++ crlf

-- A line before the tag: one that names no sender, or one with an address between `pre` and `post`.
pub data Heading : Type 0 where
  other : (ln : List ℕ) → Heading
  mail_from : (pre user domain post : List ℕ) → Heading

abbrev pub line_text : Heading → List ℕ
line_text (other ln) = ln
line_text (mail_from pre user domain post) = pre ++ (user ++ (b'@' ∷ (domain ++ post)))

-- It does not begin like the tag, and fits the buffer.
pub record IsHeading (ln : List ℕ) : Type 0 where
  pub line : IsLine ln
  pub no_tag : starts (ascii "<<MAIL-DATA>>") (ln ++ crlf) ≡ false

-- MAIL FROM: comes first, and the first `@` is in a word that the address is, which fits its buffer.
pub record IsMailFrom (pre user domain post : List ℕ) : Type 0 where
  pub begins :
      starts_nocase (ascii "MAIL FROM:") (line_text (mail_from pre user domain post) ++ crlf) ≡ true
  pub before : BoundedBefore pre
  pub pre_no_at : NoAt pre
  pub user_word : NoDelimiter user
  pub user_no_at : NoAt user
  pub domain_word : NoDelimiter domain
  pub behind : Bounded post
  pub fits : length (user ++ (b'@' ∷ domain)) ≤ 255

abbrev pub Names : Heading → Type 0
Names (other ln) = (starts_nocase (ascii "MAIL FROM:") (ln ++ crlf) ≡ false) ⊎ NoAt ln
Names (mail_from pre user domain post) = IsMailFrom pre user domain post

abbrev pub Headings : List Heading → Type 0
Headings [] = Unit
Headings (h ∷ hs) = IsHeading (line_text h) × Names h × Headings hs

-- The address that a line leaves behind one found before, and the last of all.
abbrev pub address_or : List ℕ → Heading → List ℕ
address_or from (other ln) = from
address_or from (mail_from pre user domain post) = user ++ (b'@' ∷ domain)

abbrev pub last_address : List ℕ → List Heading → List ℕ
last_address from [] = from
last_address from (h ∷ hs) = last_address (address_or from h) hs

NoAt-crlf : (ln : List ℕ) → NoAt ln → NoAt (ln ++ crlf)
NoAt-crlf [] h = (refl, (refl, tt))
NoAt-crlf (c ∷ cs) (h, hs) = (h, NoAt-crlf cs hs)

Bounded-crlf : (post : List ℕ) → Bounded post → Bounded (post ++ crlf)
Bounded-crlf [] h = refl
Bounded-crlf (c ∷ cs) h = h

sender_other :
    (from ln : List ℕ)
    → (starts_nocase (ascii "MAIL FROM:") (ln ++ crlf) ≡ false) ⊎ NoAt ln
    → sender true from (ln ++ crlf) ≡ from
sender_other from ln (inl e) =
    ap (λ t. if t then or_before from (extract_address (ln ++ crlf) 255) else from) e
sender_other from ln (inr no_at) =
    ap (λ a. if t then or_before from a else from)
      (extract_address-none (ln ++ crlf) 255 (NoAt-crlf ln no_at))
    ∙ same t
  where
    t : Bool
    t = starts_nocase (ascii "MAIL FROM:") (ln ++ crlf)

    same : (t : Bool) → (if t then from else from) ≡ from
    same true = refl
    same false = refl

-- What the code takes for the sender.
sender-address_or :
    (from : List ℕ) (h : Heading)
    → Names h
    → sender true from (line_text h ++ crlf) ≡ address_or from h
sender-address_or from (other ln) n = sender_other from ln n
sender-address_or from (mail_from pre user domain post) n =
    ap
      (λ t.
        if t
        then or_before from
            (extract_address (line_text (mail_from pre user domain post) ++ crlf) 255)
        else from)
      n.begins
    ∙ ap (λ s. or_before from (extract_address s 255)) regrouped
    ∙ ap (or_before from) (
        extract_address-word pre user domain (post ++ crlf) 255 n.before n.pre_no_at n.user_word
          n.user_no_at n.domain_word (Bounded-crlf post n.behind) n.fits)
  where
    regrouped :
        (pre ++ (user ++ (b'@' ∷ (domain ++ post)))) ++ crlf
        ≡ pre ++ (user ++ (b'@' ∷ (domain ++ (post ++ crlf))))
    regrouped =
        append_assoc pre (user ++ (b'@' ∷ (domain ++ post))) crlf
        ∙ ap (λ s. pre ++ s) (append_assoc user (b'@' ∷ (domain ++ post)) crlf)
        ∙ ap (λ s. pre ++ (user ++ (b'@' ∷ s))) (append_assoc domain post crlf)

at_tag-text : (from rest : List ℕ) → at_tag from tag_line rest ≡ some (from, rest)
at_tag-text from [] = refl
at_tag-text from (c ∷ cs) = refl

-- A round of the first loop at a line that is read.
tag_round :
    (fuel : ℕ) (from ln rest text : List ℕ)
    → 0 < length text
    → line_of 2046 text ≡ (ln, rest)
    → tag_loop true (suc fuel) from text ≡ (
        if starts (ascii "<<MAIL-DATA>>") ln
        then at_tag from ln rest
        else tag_loop true fuel (sender true from (c_string ln)) rest)
unfolding tag_loop
tag_round fuel from ln rest [] h e = absurd (omega arith)
tag_round fuel from ln rest (c ∷ cs) h e =
    ap
      (λ q.
        if starts (ascii "<<MAIL-DATA>>") q.0
        then at_tag from q.0 q.1
        else tag_loop true fuel (sender true from (c_string q.0)) q.1)
      e

tag_loop-Headings :
    (hs : List Heading) (fuel : ℕ) (from rest : List ℕ)
    → Headings hs
    → length hs < fuel
    → tag_loop true fuel from (text_of crlf (map line_text hs) ++ (tag_line ++ rest))
      ≡ some (last_address from hs, rest)
tag_loop-Headings hs zero from rest ok enough = absurd (omega arith)
tag_loop-Headings [] (suc fuel) from rest ok enough =
    tag_round fuel from tag_line rest (tag_line ++ rest)
      (omega (arith, length-append tag_line rest)) refl
    ∙ at_tag-text from rest
tag_loop-Headings (h ∷ hs) (suc fuel) from rest (v, n, ok) enough =
    ap (tag_loop true (suc fuel) from)
      (append_assoc ln (crlf ++ text_of crlf (map line_text hs)) (tag_line ++ rest))
    ∙ tag_round fuel from (ln ++ crlf) more (ln ++ (crlf ++ more))
        (omega (arith, length-append ln (crlf ++ more)))
        (line_of-crlf ln more 2046 (v.line.no_lf) (v.line.fits))
    ∙ ap
        (λ b.
          if b
          then at_tag from (ln ++ crlf) more
          else tag_loop true fuel (sender true from (c_string (ln ++ crlf))) more)
        v.no_tag
    ∙ ap (λ l. tag_loop true fuel (sender true from l) more) (c_string-NoNul ln (v.line.no_nul))
    ∙ ap (λ s. tag_loop true fuel s more) (sender-address_or from h n)
    ∙ tag_loop-Headings hs fuel (address_or from h) rest ok (omega arith)
  where
    ln : List ℕ
    ln = line_text h

    more : List ℕ
    more = text_of crlf (map line_text hs) ++ (tag_line ++ rest)

length-line_text : (hs : List Heading) → length (map line_text hs) ≡ length hs
length-line_text [] = refl
length-line_text (h ∷ hs) = omega (arith, length-line_text hs)

length-text_of : (lns : List (List ℕ)) → length lns ≤ length (text_of crlf lns)
length-text_of [] = omega arith
length-text_of (ln ∷ lns) =
    omega (arith, length-text_of lns, length-append ln (crlf ++ text_of crlf lns))

is_empty_not : (xs : List ℕ) → 0 < length xs → is_empty xs ≡ false
is_empty_not [] h = absurd (omega arith)
is_empty_not (x ∷ xs) h = refl

-- A message with a sender, as it is written.
with_message-Lines :
    (h : Host) (o : Options) (from : List ℕ) (lns : List (List ℕ))
    → o.mbox ≡ true
    → o.uxmode ≡ true
    → ((out : List ℕ) → h.accepts out ≡ true)
    → Lines lns
    → 0 < length from
    → with_message h o (some (from, text_of crlf lns))
      ≡ (0, from_line h true from ++ text_of (10 ∷ []) lns)
with_message-Lines h o from lns mbox uxmode all ok named =
    rw (mbox, uxmode, is_empty_not from named)
      (ap (with_copy (from_line h true from))
        (unix_loop-Lines h.accepts lns (length (text_of crlf lns)) all ok (length-text_of lns)))

-- With --unix and --mbox, on a spool of lines with CR LF: lines that do not begin like the tag, at least one of
-- which begins with MAIL FROM: and has an address of at most 255 characters as the word around its first
-- @, the tag, and the lines of the message, all of them short enough for the buffer and without NUL.
-- Lines that name no sender do not begin with MAIL FROM: or have no @. If all writes succeed the
-- program ends with 0 and has written `From `, the address of the last line that names one, a space,
-- the date and LF, and behind it the lines of the message with LF.
pub main-Headings :
    (h : Host) (hs : List Heading) (lns : List (List ℕ))
    → ((out : List ℕ) → h.accepts out ≡ true)
    → h.stdin_text ≡ text_of crlf (map line_text hs) ++ (tag_line ++ text_of crlf lns)
    → Headings hs
    → Lines lns
    → 0 < length (last_address [] hs)
    → main h (ascii "--unix" ∷ (ascii "--mbox" ∷ [])) ≡ (
      0,
      ascii "From "
          ++ (last_address [] hs ++ (32 ∷ (h.ctime ++ (10 ∷ []))))
          ++ text_of (10 ∷ []) lns,
    )
unfolding convert
main-Headings h hs lns all e headed ok named =
    ap (λ text. with_message h o (tag_loop true (length text) [] text)) e
    ∙ ap (with_message h o) (tag_loop-Headings hs (length text) [] (text_of crlf lns) headed enough)
    ∙ with_message-Lines h o (last_address [] hs) lns refl refl all ok named
  where
    o : Options
    o = record { fnin = none; fnout = none; uxmode = true; mbox = true }

    text : List ℕ
    text = text_of crlf (map line_text hs) ++ (tag_line ++ text_of crlf lns)

    enough : length hs < length text
    enough = omega (
      arith,
      length-text_of (map line_text hs),
      length-line_text hs,
      length-append (text_of crlf (map line_text hs)) (tag_line ++ text_of crlf lns),
      length-append tag_line (text_of crlf lns),
    )
