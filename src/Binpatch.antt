-- ===== src/Binpatch.antt =====
-- binpatch.c: finds a sequence of bytes in a file and writes the file with another in its place. Bytes
-- stand for the characters with the same bits; the input file is the list of its bytes.
pub mod Places
pub mod Attempts
pub mod Occurrences
pub mod Patching
pub mod Main
mod Tests
use trivia.Prelude.{
  ℕ, zero, suc, ◌+◌, ◌-◌, Bool, true, false, ◌&&◌, not, Option, none, some, List, [], ◌∷◌, ◌++◌,
  length, ◌==◌, ltb, if◌then◌else◌, get_elem?,
}
use trivia.Prelude.Text.{ascii}

-- strcmp(a, b) == 0
abbrev pub same_text : List ℕ → List ℕ → Bool
same_text [] [] = true
same_text [] (d ∷ ds) = false
same_text (c ∷ cs) [] = false
same_text (c ∷ cs) (d ∷ ds) = c == d && same_text cs ds

-- Where the search is: the position in the file, how many bytes match, where they begin, and the matches.
pub record Search : Type 0 where
  pub position : ℕ
  pub match_pos : ℕ
  pub start : ℕ
  pub matches : List ℕ

-- A round of a loop ends it, goes on, or reads bytes of `match_buf` that were never set.
pub data Round : Type 0 where
  ended : Round
  goes_on : (next : Search) → Round
  unset : Round

abbrev pub begin_at : Search → ℕ
begin_at s = if s.match_pos == 0 then s.position else s.start

-- The byte matches.
abbrev pub matched : List ℕ → Search → Search
matched match s =
    if s.match_pos + 1 == length match
    then record {
      position = s.position + 1;
      match_pos = 0;
      start = begin_at s;
      matches = s.matches ++ (begin_at s ∷ []);
    }
    else record {
      position = s.position + 1;
      match_pos = s.match_pos + 1;
      start = begin_at s;
      matches = s.matches;
    }

-- It does not: back to the byte behind the first one that matched.
abbrev pub mismatched : Search → Search
mismatched s =
    if ltb 0 s.match_pos
    then record s { position = s.start + 1; match_pos = 0 }
    else record s { position = s.position + 1 }

abbrev pub compared : List ℕ → Search → ℕ → Option ℕ → Round
compared match s i none = unset
compared match s i (some c) = goes_on (if c == i then matched match s else mismatched s)

abbrev pub at_byte : List ℕ → Search → Option ℕ → Round
at_byte match s none = ended
at_byte match s (some i) = compared match s i (get_elem? match s.match_pos)

abbrev pub search_round : List ℕ → List ℕ → Search → Round
search_round input match s =
    if ltb (length s.matches) 32 then at_byte match s (get_elem? input s.position) else ended

-- How a loop ends: with the matches or the output, by a read of bytes that were never set, or
-- because the rounds that it was given are used up.
pub data Loop : Type 0 where
  gives : (result : List ℕ) → Loop
  reads_unset : Loop
  unfinished : Loop

abbrev pub next_round : (Search → Loop) → Search → Round → Loop
next_round again s ended = gives s.matches
next_round again s (goes_on next) = again next
next_round again s unset = reads_unset

unfoldable pub search_loop : List ℕ → List ℕ → ℕ → Search → Loop
search_loop input match zero s = unfinished
search_loop input match (suc fuel) s =
    next_round (search_loop input match fuel) s (search_round input match s)

-- A round for each byte of the match at each place is enough.
abbrev pub rounds : List ℕ → List ℕ → ℕ
rounds match [] = 1
rounds match (b ∷ bs) = length match + rounds match bs

abbrev pub search : List ℕ → List ℕ → Loop
search input match =
    search_loop input match (rounds match input)
      (record { position = 0; match_pos = 0; start = 0; matches = [] })

-- The output, from a position on, with the matches still ahead; `fseek` goes to the end of the match.
abbrev pub is_match : ℕ → List ℕ → Bool
is_match off [] = false
is_match off (m ∷ ms) = off == m

abbrev pub behind_first : List ℕ → List ℕ
behind_first [] = []
behind_first (m ∷ ms) = ms

abbrev pub put : List ℕ → Loop → Loop
put bytes (gives out) = gives (bytes ++ out)
put bytes reads_unset = reads_unset
put bytes unfinished = unfinished

abbrev pub patch_byte : List ℕ → (ℕ → List ℕ → Loop) → ℕ → List ℕ → Option ℕ → Loop
patch_byte patch again off ms none = gives []
patch_byte patch again off ms (some i) =
    if is_match off ms
    then put patch (again (off + 1 + length patch - 1) (behind_first ms))
    else put (i ∷ []) (again (off + 1) ms)

unfoldable pub patch_loop : List ℕ → List ℕ → ℕ → ℕ → List ℕ → Loop
patch_loop input patch zero off ms = unfinished
patch_loop input patch (suc fuel) off ms =
    patch_byte patch (patch_loop input patch fuel) off ms (get_elem? input off)
