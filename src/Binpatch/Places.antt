-- ===== src/Binpatch/Places.antt =====
-- The places where a text holds a match.
use trivia.Prelude.{
  ℕ, zero, suc, ◌+◌, ◌-◌, ◌≡◌, refl, sym, ap, ◌∙◌, Bool, true, false, ◌&&◌, Option, none, some,
  List, [], ◌∷◌, length, drop, ◌==◌, if◌then◌else◌, get_elem?,
}
use trivia.Prelude.Slices.{drop-add}

-- `text` begins with `match`.
abbrev pub starts_with : List ℕ → List ℕ → Bool
starts_with [] text = true
starts_with (m ∷ ms) [] = false
starts_with (m ∷ ms) (c ∷ cs) = m == c && starts_with ms cs

-- The first `n` places, of which no two overlap, where the text holds the match, from place `p` on, when
-- the next `skip` places belong to a match before.
abbrev pub occurrences : List ℕ → List ℕ → ℕ → ℕ → ℕ → List ℕ
occurrences match [] n skip p = []
occurrences match (b ∷ bs) n (suc skip) p = occurrences match bs n skip (p + 1)
occurrences match (b ∷ bs) zero zero p = []
occurrences match (b ∷ bs) (suc n) zero p =
    let here = occurrences match bs n (length match - 1) (p + 1) in
    let later = occurrences match bs (suc n) 0 (p + 1) in
    if starts_with match (b ∷ bs) then p ∷ here else later

abbrev pub first : List ℕ → Option ℕ
first [] = none
first (x ∷ xs) = some x

get_elem?-drop : (q : ℕ) (xs : List ℕ) → get_elem? xs q ≡ first (drop q xs)
get_elem?-drop zero [] = refl
get_elem?-drop zero (x ∷ xs) = refl
get_elem?-drop (suc q) [] = refl
get_elem?-drop (suc q) (x ∷ xs) = get_elem?-drop q xs

pub get_elem?-at : (q : ℕ) (xs : List ℕ) {ys : List ℕ} → drop q xs ≡ ys → get_elem? xs q ≡ first ys
get_elem?-at q xs e = get_elem?-drop q xs ∙ ap first e

pub drop-next :
    (q : ℕ) (xs : List ℕ) {y : ℕ} {ys : List ℕ} → drop q xs ≡ y ∷ ys → drop (q + 1) xs ≡ ys
drop-next q xs e = sym (drop-add 1 q xs) ∙ ap (drop 1) e
