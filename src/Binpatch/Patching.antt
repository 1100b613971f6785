-- ===== src/Binpatch/Patching.antt =====
-- The output is the file with the patch in place of each match.
use trivia.Prelude.{
  ℕ, zero, suc, ◌+◌, ◌-◌, ◌≤◌, ◌<◌, ◌≡◌, refl, sym, ap, ap₂, ◌∙◌, Bool, true, false, ◌&&◌, List, [],
  ◌∷◌, ◌++◌, length, drop, length-append, ◌==◌, if◌then◌else◌, arith,
}
use trivia.Prelude.Slices.{drop-add, drop-nil}
use trivia.Binpatch.{gives, is_match, put, patch_loop}
use trivia.Binpatch.Places.{starts_with, occurrences, get_elem?-at, drop-next}

-- The text with the patch in place of the first `n` matches, when `skip` bytes were already replaced.
abbrev pub rewritten : List ℕ → List ℕ → List ℕ → ℕ → ℕ → List ℕ
rewritten match patch [] n skip = []
rewritten match patch (b ∷ bs) n (suc skip) = rewritten match patch bs n skip
rewritten match patch (b ∷ bs) zero zero = b ∷ rewritten match patch bs zero 0
rewritten match patch (b ∷ bs) (suc n) zero =
    let replaced = rewritten match patch bs n (length match - 1) in
    let kept = rewritten match patch bs (suc n) 0 in
    if starts_with match (b ∷ bs) then patch ++ replaced else b ∷ kept

and_right : (a b : Bool) → (a && b) ≡ true → b ≡ true
and_right true b e = e
and_right false b e = ground arith

starts_long : (ms ys : List ℕ) → starts_with ms ys ≡ true → length ms ≤ length ys
starts_long [] ys e = omega arith
starts_long (m ∷ ms) [] e = ground arith
starts_long (m ∷ ms) (y ∷ ys) e =
    let le = starts_long ms ys (and_right (m == y) (starts_with ms ys) e) in omega (arith, le)

same_number : (a : ℕ) → (a == a) ≡ true
same_number a = ground arith

less_number : (a b : ℕ) → a < b → (a == b) ≡ false
less_number a b h = ground arith

module _ (match : List ℕ) where
  -- No place before the text is found, and none when none is wanted.
  is_match-before :
      (xs : List ℕ) (n skip off q : ℕ)
      → off < q
      → is_match off (occurrences match xs n skip q) ≡ false
  is_match-before [] n skip off q h = refl
  is_match-before (b ∷ bs) n (suc skip) off q h =
      is_match-before bs n skip off (q + 1) (omega arith)
  is_match-before (b ∷ bs) zero zero off q h = refl
  is_match-before (b ∷ bs) (suc n) zero off q h =
      by_start (starts_with match (b ∷ bs)) (is_match-before bs (suc n) 0 off (q + 1) (omega arith))
    where
      by_start :
          (t : Bool)
          → is_match off (occurrences match bs (suc n) 0 (q + 1)) ≡ false
          → is_match off (
              if t
              then q ∷ occurrences match bs n (length match - 1) (q + 1)
              else occurrences match bs (suc n) 0 (q + 1))
            ≡ false
      by_start true e = less_number off q h
      by_start false e = e

  occurrences_none : (xs : List ℕ) (skip p : ℕ) → occurrences match xs 0 skip p ≡ []
  occurrences_none [] skip p = refl
  occurrences_none (b ∷ bs) (suc skip) p = occurrences_none bs skip (p + 1)
  occurrences_none (b ∷ bs) zero p = refl

  module _ (input patch : List ℕ) where
    -- A round at a byte that is kept, and at one where a match begins.
    keep_round :
        (fuel off b : ℕ) (ms : List ℕ) {bs : List ℕ}
        → drop off input ≡ b ∷ bs
        → is_match off ms ≡ false
        → patch_loop input patch (suc fuel) off ms
          ≡ put (b ∷ []) (patch_loop input patch fuel (off + 1) ms)
    unfolding patch_loop
    keep_round fuel off b ms e e' = rw (get_elem?-at off input e, e') refl

    patch_round :
        (fuel off b : ℕ) (ms : List ℕ) {bs : List ℕ}
        → drop off input ≡ b ∷ bs
        → patch_loop input patch (suc fuel) off (off ∷ ms)
          ≡ put patch (patch_loop input patch fuel (off + 1 + length patch - 1) ms)
    unfolding patch_loop
    patch_round fuel off b ms e = rw (get_elem?-at off input e, same_number off) refl

    end_round :
        (fuel off : ℕ) (ms : List ℕ)
        → drop off input ≡ []
        → patch_loop input patch (suc fuel) off ms ≡ gives []
    unfolding patch_loop
    end_round fuel off ms e = rw (get_elem?-at off input e) refl

    -- The output from place `p` on.
    pub patches :
        (xs : List ℕ) (n skip p fuel : ℕ)
        → length patch ≡ length match
        → 0 < length match
        → drop p input ≡ xs
        → length xs < fuel
        → patch_loop input patch fuel (p + skip) (occurrences match xs n skip p)
          ≡ gives (rewritten match patch xs n skip)
    patches xs n skip p zero same some_match e enough = absurd (omega arith)
    patches [] n skip p (suc fuel) same some_match e enough =
        end_round fuel (p + skip) []
          (sym (drop-add skip p input) ∙ ap (drop skip) e ∙ drop-nil skip)
    patches (b ∷ bs) n (suc skip) p (suc fuel) same some_match e enough =
        ap (λ q. patch_loop input patch (suc fuel) q (occurrences match bs n skip (p + 1)))
          (omega arith)
        ∙ patches bs n skip (p + 1) (suc fuel) same some_match (drop-next p input e) (omega arith)
    patches (b ∷ bs) zero zero p (suc fuel) same some_match e enough =
        ap (λ q. patch_loop input patch (suc fuel) q []) (omega arith)
        ∙ keep_round fuel p b [] e refl
        ∙ ap₂ (λ q ms. put (b ∷ []) (patch_loop input patch fuel q ms)) (omega arith)
            (sym (occurrences_none bs 0 (p + 1)))
        ∙ ap (put (b ∷ []))
            (patches bs zero 0 (p + 1) fuel same some_match (drop-next p input e) (omega arith))
    patches (b ∷ bs) (suc n) zero p (suc fuel) same some_match e enough =
        ap (λ q. patch_loop input patch (suc fuel) q (occurrences match (b ∷ bs) (suc n) 0 p))
          (omega arith)
        ∙ by_start (starts_with match (b ∷ bs))
            (patches bs n (length match - 1) (p + 1) fuel same some_match (drop-next p input e)
              (omega arith))
            (patches bs (suc n) 0 (p + 1) fuel same some_match (drop-next p input e) (omega arith))
      where
        found : List ℕ
        found = occurrences match bs n (length match - 1) (p + 1)

        later : List ℕ
        later = occurrences match bs (suc n) 0 (p + 1)

        by_start :
            (t : Bool)
            → patch_loop input patch fuel (p + 1 + (length match - 1)) found
              ≡ gives (rewritten match patch bs n (length match - 1))
            → patch_loop input patch fuel (p + 1 + 0) later
              ≡ gives (rewritten match patch bs (suc n) 0)
            → patch_loop input patch (suc fuel) p (if t then p ∷ found else later)
              ≡ gives (
                  if t
                  then patch ++ rewritten match patch bs n (length match - 1)
                  else b ∷ rewritten match patch bs (suc n) 0)
        by_start true replaced kept =
            patch_round fuel p b found e
            ∙ ap (λ q. put patch (patch_loop input patch fuel q found))
                (omega (arith, same, some_match))
            ∙ ap (put patch) replaced
        by_start false replaced kept =
            keep_round fuel p b later e (is_match-before bs (suc n) 0 p (p + 1) (omega arith))
            ∙ ap (λ q. put (b ∷ []) (patch_loop input patch fuel q later)) (omega arith)
            ∙ ap (put (b ∷ [])) kept

-- As long as the text itself.
module _ (match patch : List ℕ) (same : length patch ≡ length match)
    (some_match : 0 < length match) where
  pub length-rewritten :
      (xs : List ℕ) (n skip : ℕ)
      → skip ≤ length xs
      → length (rewritten match patch xs n skip) + skip ≡ length xs
  length-rewritten [] n skip le = omega arith
  length-rewritten (b ∷ bs) n (suc skip) le =
      omega (arith, length-rewritten bs n skip (omega arith))
  length-rewritten (b ∷ bs) zero zero le = omega (arith, length-rewritten bs zero 0 (omega arith))
  length-rewritten (b ∷ bs) (suc n) zero le =
      by_start (starts_with match (b ∷ bs)) refl (length-rewritten bs (suc n) 0 (omega arith))
        (λ fits. length-rewritten bs n (length match - 1) (omega (arith, fits)))
    where
      by_start :
          (t : Bool)
          → starts_with match (b ∷ bs) ≡ t
          → length (rewritten match patch bs (suc n) 0) + 0 ≡ length bs
          → (length match ≤ suc (length bs)
              → length (rewritten match patch bs n (length match - 1)) + (length match - 1)
                ≡ length bs)
          → length (
                if t
                then patch ++ rewritten match patch bs n (length match - 1)
                else b ∷ rewritten match patch bs (suc n) 0)
              + 0
            ≡ suc (length bs)
      by_start true e kept replaced =
          let fits = starts_long match (b ∷ bs) e in
          omega (
            arith,
            length-append patch (rewritten match patch bs n (length match - 1)),
            replaced fits,
            same,
            some_match,
            fits,
          )
      by_start false e kept replaced = omega (arith, kept)
