-- ===== src/Splitmb/Address.antt =====
-- splitmb.c, is_rfc822_atext, is_dot_atom, parse_hostname, is_valid_host and is_valid_addr_spec. A
-- pointer and its end are the list of the characters between them. `Grammar` is what they accept.
pub mod Grammar
use trivia.Prelude.{
  ℕ, Bool, true, false, ◌&&◌, ◌||◌, not, Option, none, some, List, [], ◌∷◌, ◌==◌, leb,
  if◌then◌else◌,
}

-- isalpha and isdigit in the C locale.
abbrev pub isalpha : ℕ → Bool
isalpha c = (leb 65 c && leb c 90) || (leb 97 c && leb c 122)

abbrev pub isdigit : ℕ → Bool
isdigit c = leb 48 c && leb c 57

-- strchr also finds the NUL at the end of the string.
abbrev pub strchr : List ℕ → ℕ → Bool
strchr [] c = c == 0
strchr (x ∷ xs) c = (c == x) || strchr xs c

-- "!#$%&'*+-/=?^_`{|}~"
abbrev pub specials : List ℕ
specials =
    33 ∷ 35 ∷ 36 ∷ 37 ∷ 38 ∷ 39 ∷ 42 ∷ 43 ∷ 45 ∷ 47 ∷ 61 ∷ 63 ∷ 94 ∷ 95 ∷ 96 ∷ 123 ∷ 124 ∷ 125 ∷ 126
    ∷ []

unfoldable pub is_rfc822_atext : ℕ → Bool
is_rfc822_atext c = isalpha c || isdigit c || strchr specials c

-- Both loops of is_dot_atom, with `str` at the list; `seen` tells if it is past `atm`.
unfoldable pub dot_atom : Bool → List ℕ → Option (List ℕ)
dot_atom seen [] = if seen then some [] else none
dot_atom seen (c ∷ cs) =
    let inner = dot_atom true cs in
    let outer = dot_atom false cs in
    if is_rfc822_atext c
    then inner
    else if not seen
    then none
    else if c == 46
    then outer
    else some (c ∷ cs)

abbrev pub is_dot_atom : List ℕ → Option (List ℕ)
is_dot_atom cs = dot_atom false cs

abbrev pub parse_hostname : List ℕ → Option (List ℕ)
parse_hostname hname = is_dot_atom hname

abbrev pub at_top : Option (List ℕ) → Bool
at_top none = false
at_top (some []) = true
at_top (some (c ∷ cs)) = false

abbrev pub is_valid_host : List ℕ → Bool
is_valid_host hname = at_top (parse_hostname hname)

abbrev pub after_local : Option (List ℕ) → Bool
after_local none = false
after_local (some []) = true
after_local (some (c ∷ cs)) = if c == 64 then is_valid_host cs else false

abbrev pub is_valid_addr_spec : List ℕ → Bool
is_valid_addr_spec addr = after_local (is_dot_atom addr)
