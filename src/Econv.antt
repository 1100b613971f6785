-- ===== src/Econv.antt =====
-- econv.c: turns a message of a mail spool into one of a mailbox. A line, as fgets gives it, is the list of
-- its bytes; `line_of` cuts the input into these lines.
pub mod Address
pub mod Conversion
pub mod Main
pub mod Message
mod Tests
use trivia.Prelude.{
  ℕ, zero, suc, ◌+◌, ◌-◌, Bool, true, false, ◌&&◌, ◌||◌, not, Option, none, some, List, [], ◌∷◌,
  ◌++◌, length, take, drop, ◌==◌, ltb, leb, if◌then◌else◌,
}
use trivia.Prelude.Text.{ascii, starts_nocase}
use trivia.Thrplhttp.Http.{starts}
use trivia.Thrplhttp.Http.Session.{c_string}

-- strchr(":,;<> \t\r\n\"'", c), for a character of a string
abbrev pub is_delimiter : ℕ → Bool
is_delimiter c =
    c == b':'
    || (c == b','
        || (c == b';'
            || (c == b'<'
                || (c == b'>'
                    || (c == 32 || (c == 9 || (c == 13 || (c == 10 || (c == 34 || c == 39)))))))))

-- strchr(str, '@'): the characters before it, the last one first, and those behind it.
abbrev pub split_at : List ℕ → List ℕ → Option (List ℕ × List ℕ)
split_at seen [] = none
split_at seen (c ∷ cs) =
    let rest = split_at (c ∷ seen) cs in if c == b'@' then some (seen, cs) else rest

-- The loops from the `@` on to a delimiter: forwards, and backwards over the characters before it, which
-- puts the characters passed back in their order.
abbrev pub scan_end : List ℕ → List ℕ
scan_end [] = []
scan_end (c ∷ cs) = let rest = scan_end cs in if is_delimiter c then [] else c ∷ rest

abbrev pub scan_base : List ℕ → List ℕ → List ℕ
scan_base [] passed = passed
scan_base (c ∷ seen) passed =
    let rest = scan_base seen (c ∷ passed) in if is_delimiter c then passed else rest

-- `alen`
abbrev pub cut : ℕ → List ℕ → List ℕ
cut asize addr = if ltb asize (length addr) then take (asize - 1) addr else addr

abbrev pub around : ℕ → Option (List ℕ × List ℕ) → Option (List ℕ)
around asize none = none
around asize (some (before, behind)) =
    some (cut asize (scan_base before [] ++ (b'@' ∷ scan_end behind)))

-- The address, without its NUL; `none` is NULL.
unfoldable pub extract_address : List ℕ → ℕ → Option (List ℕ)
extract_address str asize = around asize (split_at [] str)

-- What `fgets` reads of a text: up to a line feed, at most `n` characters.
abbrev pub line_of : ℕ → List ℕ → List ℕ × List ℕ
line_of n [] = ([], [])
line_of zero (c ∷ cs) = ([], c ∷ cs)
line_of (suc n) (c ∷ cs) =
    let (ln, rest) = line_of n cs in if c == 10 then (c ∷ [], cs) else (c ∷ ln, rest)

-- A line in which CR LF at the end becomes LF.
abbrev pub ends_crlf : List ℕ → Bool
ends_crlf (c ∷ (d ∷ [])) = c == 13 && d == 10
ends_crlf _ = false

abbrev pub unix_line : List ℕ → List ℕ
unix_line [] = []
unix_line (c ∷ cs) = let rest = unix_line cs in if ends_crlf (c ∷ cs) then 10 ∷ [] else c ∷ rest

-- The second loop: a chunk that `strlen` measures, written unless it is empty.
abbrev pub write_line : (List ℕ → Bool) → Bool × List ℕ → List ℕ → Bool × List ℕ
write_line accepts rest [] = rest
write_line accepts (ok, out) (c ∷ cs) =
    if accepts (c ∷ cs) then (ok, (c ∷ cs) ++ out) else (false, [])

-- Whether all writes succeeded, and what was written; `fuel` rounds, one for a line.
unfoldable pub unix_loop : (List ℕ → Bool) → ℕ → List ℕ → Bool × List ℕ
unix_loop accepts zero text = (true, [])
unix_loop accepts (suc fuel) [] = (true, [])
unix_loop accepts (suc fuel) (c ∷ cs) =
    let (ln, rest) = line_of 2046 (c ∷ cs) in
    write_line accepts (unix_loop accepts fuel rest) (unix_line (c_string ln))

-- The loop over blocks of the buffer's size.
unfoldable pub raw_loop : (List ℕ → Bool) → ℕ → List ℕ → Bool × List ℕ
raw_loop accepts zero text = (true, [])
raw_loop accepts (suc fuel) [] = (true, [])
raw_loop accepts (suc fuel) (c ∷ cs) =
    write_line accepts (raw_loop accepts fuel (drop 2048 (c ∷ cs))) (take 2048 (c ∷ cs))
