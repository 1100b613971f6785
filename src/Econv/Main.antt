-- ===== src/Econv/Main.antt =====
-- econv.c, main: the options, the lines before the message, and the exit codes.
use trivia.Prelude.{
  ℕ, zero, suc, Bool, true, false, ◌&&◌, ◌||◌, not, Option, none, some, List, [], ◌∷◌, ◌++◌, length,
  ◌==◌, ltb, if◌then◌else◌,
}
use trivia.Prelude.Text.{ascii, starts_nocase}
use trivia.Binpatch.{same_text}
use trivia.Thrplhttp.Http.{starts}
use trivia.Thrplhttp.Http.Session.{c_string}
use trivia.Econv.{extract_address, line_of, unix_loop, raw_loop}

pub record Options : Type 0 where
  pub fnin : Option (List ℕ)
  pub fnout : Option (List ℕ)
  pub uxmode : Bool
  pub mbox : Bool

-- The option whose value is the next argument.
pub data Wanted : Type 0 where
  nothing : Wanted
  input_name : Wanted
  output_name : Wanted

abbrev pub wanted_by : List ℕ → Wanted
wanted_by a =
    if same_text a (ascii "--input")
    then input_name
    else if same_text a (ascii "--output")
    then output_name
    else nothing

abbrev pub noted : List ℕ → Options → Options
noted a o =
    if same_text a (ascii "--unix")
    then record o { uxmode = true }
    else if same_text a (ascii "--mbox")
    then record o { mbox = true }
    else o

abbrev pub parse_options : Wanted → Options → List (List ℕ) → Options
parse_options want o [] = o
parse_options input_name o (a ∷ rest) = parse_options nothing (record o { fnin = some a }) rest
parse_options output_name o (a ∷ rest) = parse_options nothing (record o { fnout = some a }) rest
parse_options nothing o (a ∷ rest) = parse_options (wanted_by a) (noted a o) rest

-- `files` holds what can be opened for reading, `ctime` is the current date without its line feed, `accepts` tells
-- which writes succeed.
pub record Host : Type 0 where
  pub files : List ℕ → Option (List ℕ)
  pub stdin_text : List ℕ
  pub ctime : List ℕ
  pub accepts : List ℕ → Bool

abbrev pub or_stdin : Host → Option (List ℕ) → List ℕ
or_stdin h none = h.stdin_text
or_stdin h (some text) = text

abbrev pub input_text : Host → Option (List ℕ) → List ℕ
input_text h none = h.stdin_text
input_text h (some name) = or_stdin h (h.files name)

abbrev pub or_before : List ℕ → Option (List ℕ) → List ℕ
or_before from none = from
or_before from (some addr) = addr

-- The sender, from a line before the tag.
abbrev pub sender : Bool → List ℕ → List ℕ → List ℕ
sender mbox from ln =
    if mbox && starts_nocase (ascii "MAIL FROM:") ln
    then or_before from (extract_address ln 255)
    else from

-- Whether a line ends with a line feed; without one, `fgets` has met the end of the file.
abbrev pub has_lf : List ℕ → Bool
has_lf [] = false
has_lf (c ∷ cs) = c == 10 || has_lf cs

-- Behind the line with the tag: the sender and the message, unless the file ends there.
abbrev pub at_tag : List ℕ → List ℕ → List ℕ → Option (List ℕ × List ℕ)
at_tag from ln [] = if has_lf ln || not (ltb (length ln) 2046) then some (from, []) else none
at_tag from ln (c ∷ cs) = some (from, c ∷ cs)

-- The first loop, a round for a line.
unfoldable pub tag_loop : Bool → ℕ → List ℕ → List ℕ → Option (List ℕ × List ℕ)
tag_loop mbox zero from text = none
tag_loop mbox (suc fuel) from [] = none
tag_loop mbox (suc fuel) from (c ∷ cs) =
    let (ln, rest) = line_of 2046 (c ∷ cs) in
    let later = tag_loop mbox fuel (sender mbox from (c_string ln)) rest in
    if starts (ascii "<<MAIL-DATA>>") ln then at_tag from ln rest else later

-- The line that begins a message of a mailbox.
abbrev pub from_line : Host → Bool → List ℕ → List ℕ
from_line h uxmode from =
    ascii "From " ++ (from ++ (32 ∷ (h.ctime ++ (if uxmode then 10 ∷ [] else 13 ∷ 10 ∷ []))))

-- What is written of the message, in blocks or line by line.
abbrev pub copy : Host → Bool → List ℕ → Bool × List ℕ
copy h true text = unix_loop h.accepts (length text) text
copy h false text = raw_loop h.accepts (length text) text

-- The exit code and the output.
abbrev pub with_copy : List ℕ → Bool × List ℕ → ℕ × List ℕ
with_copy begins (ok, out) = (if ok then 0 else 3, begins ++ out)

abbrev pub is_empty : List ℕ → Bool
is_empty [] = true
is_empty (c ∷ cs) = false

abbrev pub with_message : Host → Options → Option (List ℕ × List ℕ) → ℕ × List ℕ
with_message h o none = (1, [])
with_message h o (some (from, text)) =
    if o.mbox && is_empty from
    then (2, [])
    else with_copy (if o.mbox then from_line h o.uxmode from else []) (copy h o.uxmode text)

unfoldable pub convert : Host → Options → ℕ × List ℕ
convert h o =
    let text = input_text h o.fnin in with_message h o (tag_loop o.mbox (length text) [] text)

abbrev pub no_options : Options
no_options = record { fnin = none; fnout = none; uxmode = false; mbox = false }

abbrev pub main : Host → List (List ℕ) → ℕ × List ℕ
main h args = convert h (parse_options nothing no_options args)
