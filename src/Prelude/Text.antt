-- ===== src/Prelude/Text.antt =====
-- C strings in the C locale: literals, comparison without case, numbers in decimal.
use Prim.Native.Char.{code}
use Prim.Native.String.{String}
use Prim.Native.Nat.{ℕ, zero, suc, ◌+◌, ◌-◌, ◌/◌, ◌%◌}
use mathlib.Core.Bool.{Bool, true, false, ◌&&◌}
use mathlib.Core.List.{List, [], ◌∷◌, ◌++◌}
use trivia.Prelude.Tests.{ltb, leb, ◌==◌, if◌then◌else◌}

-- The bytes of an ASCII literal.
abbrev pub ascii : String → List ℕ
ascii String.[] = []
ascii (String.◌∷◌ c s) = code c ∷ ascii s

unfoldable pub toupper : ℕ → ℕ
toupper c = if leb b'a' c && leb c b'z' then c - 32 else c

unfoldable pub same_letter : ℕ → ℕ → Bool
unfolding toupper
same_letter a b = toupper a == toupper b

-- strncasecmp(text, pattern, strlen(pattern)) == 0
abbrev pub starts_nocase : List ℕ → List ℕ → Bool
starts_nocase [] text = true
starts_nocase (p ∷ ps) [] = false
starts_nocase (p ∷ ps) (c ∷ cs) = same_letter p c && starts_nocase ps cs

-- strcasecmp(text, pattern) == 0
abbrev pub equals_nocase : List ℕ → List ℕ → Bool
equals_nocase [] [] = true
equals_nocase [] (c ∷ cs) = false
equals_nocase (p ∷ ps) [] = false
equals_nocase (p ∷ ps) (c ∷ cs) = same_letter p c && equals_nocase ps cs

-- The last `fuel` decimal digits, no leading zeros.
unfoldable pub digits : ℕ → ℕ → List ℕ
digits zero n = []
digits (suc fuel) n =
    let front = digits fuel (n / 10) in
    if ltb n 10 then (b'0' + n) ∷ [] else front ++ ((b'0' + n % 10) ∷ [])

-- `%d` and `%llu`: twenty digits are enough for 64 bits.
abbrev pub decimal : ℕ → List ℕ
decimal n = digits 20 n
