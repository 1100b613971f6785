-- ===== src/Econv/Tests.antt =====
-- Addresses and spools of econv.c, and their theorems at these.

use trivia.Prelude.{
  ℕ, ◌≡◌, ◌≤◌, ◌+◌, ◌==◌, inl, refl, Bool, true, false, some, none, List, [], ◌∷◌, ◌++◌, map,
  length, if◌then◌else◌, arith,
}
use trivia.Prelude.Text.{ascii, same_letter, toupper, starts_nocase}
use trivia.Econv.{extract_address, unix_line}
use trivia.Econv.Address.{extract_address-word}
use trivia.Econv.Conversion.{NoNul, IsLine, text_of}
use trivia.Thrplhttp.Connection.Unread.{NoLf}
use trivia.Econv.Main.{Host, main}
use trivia.Econv.Message.{
  Heading, other, mail_from, IsMailFrom, line_text, crlf, tag_line, last_address, main-Headings,
}

extract_address-word_example :
    extract_address (ascii "To:<" ++ (ascii "me" ++ (b'@' ∷ (ascii "x.org" ++ ascii "> a@b")))) 255
    ≡ some (ascii "me" ++ (b'@' ∷ ascii "x.org"))
extract_address-word_example =
    extract_address-word (ascii "To:<") (ascii "me") (ascii "x.org") (ascii "> a@b") 255 refl
      (refl, (refl, (refl, (refl, tt)))) (refl, (refl, tt)) (refl, (refl, tt))
      (refl, (refl, (refl, (refl, (refl, tt))))) refl (omega arith)

-- What does not fit is cut.
cut_address : extract_address (ascii "user@host") 5 ≡ some (ascii "user")
unfolding extract_address
cut_address = refl

-- No LF and no NUL.
abbrev plain : List ℕ → Bool
plain [] = true
plain (c ∷ cs) = if c == 10 then false else if c == 0 then false else plain cs

plain-NoLf : (ln : List ℕ) → plain ln ≡ true → NoLf ln
plain-NoLf [] h = tt
plain-NoLf (c ∷ cs) h = (ground (arith, h), plain-NoLf cs (ground (arith, h)))

plain-NoNul : (ln : List ℕ) → plain ln ≡ true → NoNul ln
plain-NoNul [] h = tt
plain-NoNul (c ∷ cs) h = (ground (arith, h), plain-NoNul cs (ground (arith, h)))

plain-IsLine : (ln : List ℕ) → plain ln ≡ true → length ln + 2 ≤ 2046 → IsLine ln
plain-IsLine ln h fits = record { no_lf = plain-NoLf ln h; no_nul = plain-NoNul ln h; fits = fits }

-- Two senders, and a line between them.
abbrev headings : List Heading
headings =
    mail_from (ascii "MAIL FROM:<") (ascii "x") (ascii "y") (ascii "> b@c")
    ∷ (other (ascii "RCPT TO:<c@d>")
        ∷ (mail_from (ascii "mail from:<") (ascii "a") (ascii "b") (ascii ">") ∷ []))

abbrev body : List (List ℕ)
body = ascii "hi" ∷ ([] ∷ [])

abbrev spool : Host
spool = record {
  files = λ name. none;
  stdin_text = text_of crlf (map line_text headings) ++ (tag_line ++ text_of crlf body);
  ctime = ascii "today";
  accepts = λ out. true;
}

-- A line feed alone is kept.
lone_lf : unix_line (ascii "a" ++ (10 ∷ [])) ≡ ascii "a" ++ (10 ∷ [])
lone_lf = refl

sent_by : last_address [] headings ≡ ascii "a@b"
sent_by = refl

x_y-IsMailFrom : IsMailFrom (ascii "MAIL FROM:<") (ascii "x") (ascii "y") (ascii "> b@c")
unfolding same_letter
x_y-IsMailFrom = record {
  begins = refl;
  before = refl;
  pre_no_at =
      (refl, (refl, (refl, (refl, (refl, (refl, (refl, (refl, (refl, (refl, (refl, tt)))))))))));
  user_word = (refl, tt);
  user_no_at = (refl, tt);
  domain_word = (refl, tt);
  behind = refl;
  fits = omega arith;
}

a_b-IsMailFrom : IsMailFrom (ascii "mail from:<") (ascii "a") (ascii "b") (ascii ">")
unfolding same_letter toupper
a_b-IsMailFrom = record {
  begins = refl;
  before = refl;
  pre_no_at =
      (refl, (refl, (refl, (refl, (refl, (refl, (refl, (refl, (refl, (refl, (refl, tt)))))))))));
  user_word = (refl, tt);
  user_no_at = (refl, tt);
  domain_word = (refl, tt);
  behind = refl;
  fits = omega arith;
}

names_none : starts_nocase (ascii "MAIL FROM:") (ascii "RCPT TO:<c@d>" ++ crlf) ≡ false
unfolding same_letter
names_none = refl

main-Headings_example : main spool (ascii "--unix" ∷ (ascii "--mbox" ∷ [])) ≡ (
  0,
  ascii "From "
      ++ (last_address [] headings ++ (32 ∷ (ascii "today" ++ (10 ∷ []))))
      ++ text_of (10 ∷ []) body,
)
main-Headings_example =
    main-Headings spool headings body (λ out. refl) refl
      (
        record {
          line = plain-IsLine (ascii "MAIL FROM:<x@y> b@c") refl (omega arith);
          no_tag = refl;
        },
        x_y-IsMailFrom,
        (
          record { line = plain-IsLine (ascii "RCPT TO:<c@d>") refl (omega arith); no_tag = refl },
          inl names_none,
          (
            record {
              line = plain-IsLine (ascii "mail from:<a@b>") refl (omega arith);
              no_tag = refl;
            },
            a_b-IsMailFrom,
            tt,
          ),
        ),
      )
      (plain-IsLine (ascii "hi") refl (omega arith), (plain-IsLine [] refl (omega arith), tt))
      (omega arith)
