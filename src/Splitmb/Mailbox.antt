-- ===== src/Splitmb/Mailbox.antt =====
-- splitmb.c, is_split_msg and the loop of main over the lines of the mailbox.
pub mod Messages
use trivia.Prelude.{
  ℕ, ◌+◌, ◌≡◌, Bool, true, false, ◌&&◌, Option, none, some, List, [], ◌∷◌, ◌++◌, ◌==◌,
  if◌then◌else◌,
}
use trivia.Splitmb.Address.{is_valid_addr_spec}

-- A file of the output: the number of the line in its name, whether it begins with X-SplitMB-File,
-- and the lines that were put there.
pub record Message : Type 0 where
  pub lnum : ℕ
  pub xfile : Bool
  pub lines : List (List ℕ)

-- strncmp(ln, prefix, strlen(prefix)) == 0
abbrev pub starts_with : List ℕ → List ℕ → Bool
starts_with [] ln = true
starts_with (c ∷ cs) [] = false
starts_with (c ∷ cs) (x ∷ ln) = c == x && starts_with cs ln

-- "From "
abbrev pub from_line : List ℕ
from_line = 70 ∷ 114 ∷ 111 ∷ 109 ∷ 32 ∷ []

abbrev pub is_scanned_msg : Option (List ℕ) → Bool
is_scanned_msg none = false
is_scanned_msg (some addr) = is_valid_addr_spec addr

-- fclose(ofil)
abbrev pub close : Option Message → List Message
close none = []
close (some m) = m ∷ []

-- fputs(lnbuf, ofil)
abbrev pub put_line : Option Message → List ℕ → Option Message
put_line none ln = none
put_line (some m) ln = some (record m { lines = m.lines ++ (ln ∷ []) })

-- `scan` is sscanf with the pattern of is_split_msg: the address, when all eight fields are there.
-- `opens` tells for each line number if the file named with it can be opened.
module _ (scan : List ℕ → Option (List ℕ)) (opens : ℕ → Bool) (add_xfile : Bool) where
  abbrev pub is_split_msg : List ℕ → Bool
  is_split_msg ln = is_scanned_msg (scan ln)

  abbrev pub separates : List ℕ → Bool
  separates ln = starts_with from_line ln && is_split_msg ln

  -- The loop from the line `lnum` on: the files in the order in which they are closed, or `none`
  -- when xfopen ends the program.
  unfoldable pub split_loop : Option Message → ℕ → List (List ℕ) → Option (List Message)
  split_loop ofil lnum [] = some (close ofil)
  split_loop ofil lnum (ln ∷ lns) =
      let started =
        split_loop (some (record { lnum = lnum; xfile = add_xfile; lines = [] })) (lnum + 1) lns in
      let kept = split_loop (put_line ofil ln) (lnum + 1) lns in
      if separates ln
      then if opens lnum
        then elim started [ none ↦ none | some ms ↦ some (close ofil ++ ms) ]
        else none
      else kept
