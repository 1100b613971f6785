-- ===== src/Nma2n/Tests.antt =====
-- Runs of find_symbol, and its theorem at a concrete table.
use trivia.Prelude.{
  ℕ, ◌+◌, ◌-◌, ◌*◌, ◌≡◌, refl, ◌⊎◌, false, none, some, List, [], ◌∷◌, leb, if◌then◌else◌,
}
use trivia.Nma2n.{find_symbol, symbol_loop, symbol_of, printed}
use trivia.Nma2n.Nearest.{NoneAbove, Nearest, find_symbol-Nearest}

-- strtoull of lower-case hexadecimal digits.
abbrev hex_from : ℕ → List ℕ → ℕ
hex_from value [] = value
hex_from value (c ∷ cs) = hex_from (16 * value + (if leb 97 c then c - 87 else c - 48)) cs

abbrev hex : List ℕ → ℕ
hex digits = hex_from 0 digits

-- "10 T f", "1a T g" and "0 A z"
abbrev table : List (List ℕ)
table =
    (49 ∷ 48 ∷ 32 ∷ 84 ∷ 32 ∷ 102 ∷ 10 ∷ [])
    ∷ (49 ∷ 97 ∷ 32 ∷ 84 ∷ 32 ∷ 103 ∷ 10 ∷ [])
    ∷ (48 ∷ 32 ∷ 65 ∷ 32 ∷ 122 ∷ 10 ∷ [])
    ∷ []

finds_g : find_symbol hex 28 false table ≡ some (record { tsym = 103 ∷ []; offset = some 2 })
unfolding symbol_loop symbol_of
finds_g = refl

finds_no_zero : find_symbol hex 5 false table ≡ none
unfolding symbol_loop symbol_of
finds_no_zero = refl

find_symbol-Nearest_example :
    ((find_symbol hex 28 false table ≡ none) × NoneAbove hex 28 0 table)
    ⊎ ((caddr : ℕ) × (tsym : List ℕ) × Nearest hex 28 false 0 table
          (caddr, some (printed hex 28 false caddr tsym))
        × (find_symbol hex 28 false table ≡ some (printed hex 28 false caddr tsym)))
find_symbol-Nearest_example = find_symbol-Nearest hex 28 false table
