-- ===== src/Binpatch/Occurrences.antt =====
-- The search finds what a search at every place finds.
use trivia.Prelude.{
  ℕ, zero, suc, ◌+◌, ◌-◌, ◌≤◌, ◌<◌, ◌≡◌, refl, sym, ap, ◌∙◌, Bool, true, false, ◌&&◌, List, [], ◌∷◌,
  ◌++◌, length, drop, length-append, append_assoc, append-nil, ◌==◌, if◌then◌else◌, arith,
}
use trivia.Prelude.Slices.{drop-add, drop-nil}
use trivia.Binpatch.{gives, search_loop, rounds, search}
use trivia.Binpatch.Places.{starts_with, occurrences, drop-next}
use trivia.Binpatch.Attempts.{at, Attempt, whole, back, at_end, round_at_end, round_full, attempt}

module _ (input match : List ℕ) where
  -- A text that is too short holds no match.
  starts_short : (ms ys : List ℕ) → length ys < length ms → starts_with ms ys ≡ false
  starts_short [] ys h = absurd (omega arith)
  starts_short (m ∷ ms) [] h = refl
  starts_short (m ∷ ms) (y ∷ ys) h =
      ap (λ b. m == y && b) (starts_short ms ys (omega arith)) ∙ and_false (m == y)
    where
      and_false : (b : Bool) → (b && false) ≡ false
      and_false true = refl
      and_false false = refl

  occurrences_short :
      (ys : List ℕ) (n skip p : ℕ) → length ys < length match → occurrences match ys n skip p ≡ []
  occurrences_short [] n skip p h = refl
  occurrences_short (y ∷ ys) n (suc skip) p h = occurrences_short ys n skip (p + 1) (omega arith)
  occurrences_short (y ∷ ys) zero zero p h = refl
  occurrences_short (y ∷ ys) (suc n) zero p h =
      ap
        (λ b.
          if b
          then p ∷ occurrences match ys n (length match - 1) (p + 1)
          else occurrences match ys (suc n) 0 (p + 1))
        (starts_short match (y ∷ ys) h)
      ∙ occurrences_short ys (suc n) 0 (p + 1) (omega arith)

  some_rounds : (xs : List ℕ) → 1 ≤ rounds match xs
  some_rounds [] = omega arith
  some_rounds (x ∷ xs) = omega (arith, some_rounds xs)

  -- The search from place `p` on, when `skip` places are passed over.
  abbrev Finds : List ℕ → Type 0
  Finds xs =
      (n skip p start : ℕ) (acc : List ℕ) (fuel : ℕ)
      → drop p input ≡ xs
      → length acc + n ≡ 32
      → rounds match xs ≤ fuel
      → search_loop input match fuel (at (p + skip) 0 start acc)
        ≡ gives (acc ++ occurrences match xs n skip p)

  -- Behind an attempt.
  resolve :
      (b : ℕ) (bs : List ℕ)
      → Finds bs
      → (n p start : ℕ) (acc : List ℕ) (fuel : ℕ) → 0 < length match
      → drop p input ≡ b ∷ bs
      → length acc + suc n ≡ 32
      → length match + rounds match bs ≤ fuel
      → Attempt input match p match (b ∷ bs) (at (p + 0) 0 start acc)
      → search_loop input match fuel (at (p + 0) 0 start acc)
        ≡ gives (acc ++ occurrences match (b ∷ bs) (suc n) 0 p)
  resolve b bs ih n p start acc fuel some_match e room enough (whole t run) =
      ap (λ f. search_loop input match f (at (p + 0) 0 start acc)) split
      ∙ run (fuel - length match)
      ∙ ap (λ q. search_loop input match (fuel - length match) (at q 0 p (acc ++ (p ∷ []))))
          (omega arith)
      ∙ ih n (length match - 1) (p + 1) p (acc ++ (p ∷ [])) (fuel - length match)
          (drop-next p input e) (omega (arith, length-append acc (p ∷ []))) (omega arith)
      ∙ ap gives (
          append_assoc acc (p ∷ []) (occurrences match bs n (length match - 1) (p + 1))
          ∙ ap
              (λ q.
                acc
                ++ (if q
                    then p ∷ occurrences match bs n (length match - 1) (p + 1)
                    else occurrences match bs (suc n) 0 (p + 1)))
              (sym t))
    where
      split : fuel ≡ length match + (fuel - length match)
      split = omega (arith, enough)
  resolve b bs ih n p start acc fuel some_match e room enough (back j start' t le run) =
      ap (λ f. search_loop input match f (at (p + 0) 0 start acc)) split
      ∙ run (fuel - j)
      ∙ ap (λ q. search_loop input match (fuel - j) (at q 0 start' acc)) (omega arith)
      ∙ ih (suc n) 0 (p + 1) start' acc (fuel - j) (drop-next p input e) room (omega arith)
      ∙ ap
          (λ q. gives (
            acc
            ++ (if q
                then p ∷ occurrences match bs n (length match - 1) (p + 1)
                else occurrences match bs (suc n) 0 (p + 1))))
          (sym t)
    where
      split : fuel ≡ j + (fuel - j)
      split = omega (arith, enough, le)
  resolve b bs ih n p start acc fuel some_match e room enough (at_end short run) =
      ap (λ f. search_loop input match f (at (p + 0) 0 start acc)) split
      ∙ run (fuel - length match)
      ∙ ap gives (
          sym (append-nil acc)
          ∙ ap (λ q. acc ++ q) (sym (occurrences_short (b ∷ bs) (suc n) 0 p short)))
    where
      split : fuel ≡ length match + (fuel - length match)
      split = omega (arith, enough)

  -- The loop ends at once.
  stops :
      (n p skip start : ℕ) (acc : List ℕ) (fuel : ℕ)
      → drop p input ≡ []
      → length acc + n ≡ 32
      → search_loop input match (suc fuel) (at (p + skip) 0 start acc) ≡ gives acc
  stops zero p skip start acc fuel e room =
      round_full input match fuel (at (p + skip) 0 start acc) (omega (arith, room))
  stops (suc n) p skip start acc fuel e room =
      round_at_end input match fuel (at (p + skip) 0 start acc) (omega (arith, room))
        (sym (drop-add skip p input) ∙ ap (drop skip) e ∙ drop-nil skip)

  finds : 0 < length match → (xs : List ℕ) → Finds xs
  finds some_match xs n skip p start acc zero e room enough =
      absurd (omega (arith, some_rounds xs, enough))
  finds some_match [] n skip p start acc (suc fuel) e room enough =
      stops n p skip start acc fuel e room ∙ ap gives (sym (append-nil acc))
  finds some_match (b ∷ bs) n (suc skip) p start acc (suc fuel) e room enough =
      ap (λ q. search_loop input match (suc fuel) (at q 0 start acc)) (omega arith)
      ∙ finds some_match bs n skip (p + 1) start acc (suc fuel) (drop-next p input e) room
          (omega (arith, enough))
  finds some_match (b ∷ bs) zero zero p start acc (suc fuel) e room enough =
      round_full input match fuel (at (p + 0) 0 start acc) (omega (arith, room))
      ∙ ap gives (sym (append-nil acc))
  finds some_match (b ∷ bs) (suc n) zero p start acc (suc fuel) e room enough =
      resolve b bs (finds some_match bs) n p start acc (suc fuel) some_match e room enough (
        attempt input match p match (b ∷ bs) (at (p + 0) 0 start acc) (omega (arith, room))
          some_match (ap (λ q. drop q input) (omega arith) ∙ e) refl refl (omega arith))

  -- For a match of at least one byte, the rounds of the search suffice, no byte that was never set is read, and
  -- the matches are the first 32 places, of which no two overlap, where the file holds the match.
  pub search-occurrences :
      0 < length match → search input match ≡ gives (occurrences match input 32 0 0)
  search-occurrences some_match =
      finds some_match input 32 0 0 0 [] (rounds match input) refl refl (omega arith)
