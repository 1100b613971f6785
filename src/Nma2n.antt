-- ===== src/Nma2n.antt =====
-- nma2n.c: the symbol of the output of nm that is nearest to an address. `Nearest` is what
-- find_symbol returns.
pub mod Nearest
mod Tests
use trivia.Prelude.{
  ℕ, ◌+◌, ◌-◌, ◌≡◌, Bool, true, false, ◌&&◌, ◌||◌, not, Option, none, some, List, [], ◌∷◌, ◌++◌,
  ◌==◌, leb, ltb, if◌then◌else◌,
}

abbrev pub isxdigit : ℕ → Bool
isxdigit c = (leb 48 c && leb c 57) || (leb 65 c && leb c 70) || (leb 97 c && leb c 102)

-- `!isxdigit(ln[0])`, on a line of which the empty one ends at once.
abbrev pub hex_line : List ℕ → Bool
hex_line [] = false
hex_line (c ∷ ln) = isxdigit c

abbrev pub one_of : List ℕ → ℕ → Bool
one_of [] c = false
one_of (d ∷ delim) c = (c == d) || one_of delim c

-- strtok: it skips delimiters, and its token ends before the next one, which it passes.
abbrev pub skip : List ℕ → List ℕ → List ℕ
skip delim [] = []
skip delim (c ∷ cs) = let rest = skip delim cs in if one_of delim c then rest else c ∷ cs

abbrev pub token : List ℕ → List ℕ → List ℕ × List ℕ
token delim [] = ([], [])
token delim (c ∷ cs) =
    let rest = token delim cs in if one_of delim c then ([], cs) else (c ∷ rest.0, rest.1)

abbrev pub strtok_from : List ℕ → List ℕ → Option (List ℕ × List ℕ)
strtok_from delim [] = none
strtok_from delim (c ∷ cs) = some (token delim (c ∷ cs))

abbrev pub strtok : List ℕ → List ℕ → Option (List ℕ × List ℕ)
strtok delim cs = strtok_from delim (skip delim cs)

-- " \t\r\n" and "\t\r\n"
abbrev pub blanks : List ℕ
blanks = 32 ∷ 9 ∷ 13 ∷ 10 ∷ []

abbrev pub line_blanks : List ℕ
line_blanks = 9 ∷ 13 ∷ 10 ∷ []

-- `taddr` and `tsym`
abbrev pub fields : List ℕ → Option (List ℕ × List ℕ)
fields ln = elim (strtok blanks ln) [
  | none ↦ none
  | some (taddr, behind_addr) ↦ elim (strtok blanks behind_addr) [
    | none ↦ none
    | some (ttype, behind_type) ↦ elim (strtok line_blanks behind_type) [
      | none ↦ none
      | some (tsym, end) ↦ some (taddr, tsym)
    ]
  ]
]

-- What is printed to `csym`: the symbol, and the offset unless SYMOUT_NO_OFFSET is set.
pub record Found : Type 0 where
  pub tsym : List ℕ
  pub offset : Option ℕ

-- `hex` is strtoull with base 16.
module _ (hex : List ℕ → ℕ) where
  unfoldable pub symbol_of : List ℕ → Option (ℕ × List ℕ)
  symbol_of ln =
      if not (hex_line ln)
      then none
      else elim (fields ln) [ none ↦ none | some (taddr, tsym) ↦ some (hex taddr, tsym) ]

  module _ (addr : ℕ) (no_offset : Bool) where
    abbrev pub printed : ℕ → List ℕ → Found
    printed caddr tsym = record {
      tsym = tsym;
      offset = if no_offset then none else some (addr - caddr);
    }

    -- The loop over the lines, with `saddr` and what was printed last.
    unfoldable pub symbol_loop : ℕ → Option Found → List (List ℕ) → ℕ × Option Found
    symbol_loop saddr csym [] = (saddr, csym)
    symbol_loop saddr csym (ln ∷ lns) =
        let passed = symbol_loop saddr csym lns in
        elim (symbol_of ln) [
          | none ↦ passed
          | some (caddr, tsym) ↦
              let taken = symbol_loop caddr (some (printed caddr tsym)) lns in
              if leb caddr addr && ltb saddr caddr then taken else passed
        ]

    abbrev pub find_symbol : List (List ℕ) → Option Found
    find_symbol lns =
        let (saddr, csym) = symbol_loop 0 none lns in if saddr == 0 then none else csym
