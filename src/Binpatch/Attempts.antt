-- ===== src/Binpatch/Attempts.antt =====
-- The rounds of the search of binpatch.c: one attempt at a place of the file.
use trivia.Prelude.{
  ℕ, zero, suc, ◌+◌, ◌≤◌, ◌<◌, ◌≡◌, refl, sym, ap, ap₂, ◌∙◌, Bool, true, false, List, [], ◌∷◌, ◌++◌,
  length, drop, length-drop, ◌==◌, ltb, if◌then◌else◌, arith,
}
use trivia.Binpatch.{
  Search, goes_on, begin_at, matched, mismatched, search_round, gives, next_round, search_loop,
}
use trivia.Binpatch.Places.{starts_with, get_elem?-at, drop-next}

below : (n : ℕ) → n < 32 → ltb n 32 ≡ true
below n h = ground arith

not_below : (n : ℕ) → 32 ≤ n → ltb n 32 ≡ false
not_below n h = ground arith

suc_add : (a b : ℕ) → suc a + b ≡ suc (a + b)
suc_add a b = omega arith

zero_add : (a : ℕ) → 0 + a ≡ a
zero_add a = omega arith

positive : (k : ℕ) → ltb 0 (suc k) ≡ true
positive k = ground arith

not_zero : (k : ℕ) → (suc k == 0) ≡ false
not_zero k = ground arith

same_number : {a b : ℕ} → a ≡ b → (a == b) ≡ true
same_number h = ground arith

less_number : {a b : ℕ} → a < b → (a == b) ≡ false
less_number h = ground arith

-- A state of the search.
abbrev pub at : ℕ → ℕ → ℕ → List ℕ → Search
at q k start acc = record { position = q; match_pos = k; start = start; matches = acc }

module _ (input match : List ℕ) where
  -- A round that goes on.
  round_on :
      (fuel : ℕ) (s next : Search)
      → search_round input match s ≡ goes_on next
      → search_loop input match (suc fuel) s ≡ search_loop input match fuel next
  unfolding search_loop
  round_on fuel s next e = ap (next_round (search_loop input match fuel) s) e

  -- A round at a byte, and at the end.
  round_at_byte :
      (s : Search) (i c : ℕ) {ys ms : List ℕ}
      → length s.matches < 32
      → drop s.position input ≡ i ∷ ys
      → drop s.match_pos match ≡ c ∷ ms
      → search_round input match s ≡ goes_on (if c == i then matched match s else mismatched s)
  round_at_byte s i c few e e' =
      rw
        (
          below (length s.matches) few,
          get_elem?-at s.position input e,
          get_elem?-at s.match_pos match e',
        )
        refl

  pub round_at_end :
      (fuel : ℕ) (s : Search)
      → length s.matches < 32
      → drop s.position input ≡ []
      → search_loop input match (suc fuel) s ≡ gives s.matches
  unfolding search_loop
  round_at_end fuel s few e =
      rw (below (length s.matches) few, get_elem?-at s.position input e) refl

  pub round_full :
      (fuel : ℕ) (s : Search)
      → 32 ≤ length s.matches
      → search_loop input match (suc fuel) s ≡ gives s.matches
  unfolding search_loop
  round_full fuel s many = rw (not_below (length s.matches) many) refl

  -- What becomes of an attempt at place `p`, with `ms` still to match against `ys`.
  pub data Attempt (p : ℕ) (ms ys : List ℕ) (s : Search) : Type 0 where
    whole :
        starts_with ms ys ≡ true
        → ((fuel : ℕ)
            → search_loop input match (length ms + fuel) s
              ≡ search_loop input match fuel (at (p + length match) 0 p (s.matches ++ (p ∷ []))))
        → Attempt p ms ys s
    back :
        (j start : ℕ)
        → starts_with ms ys ≡ false
        → j ≤ length ms
        → ((fuel : ℕ)
            → search_loop input match (j + fuel) s
              ≡ search_loop input match fuel (at (p + 1) 0 start s.matches))
        → Attempt p ms ys s
    at_end :
        length ys < length ms
        → ((fuel : ℕ) → search_loop input match (length ms + fuel) s ≡ gives s.matches)
        → Attempt p ms ys s

  -- A byte that matches, before the rest of the attempt.
  lift :
      (p i c : ℕ) (ms ys : List ℕ) (s next : Search)
      → (c == i) ≡ true
      → search_round input match s ≡ goes_on next
      → next.matches ≡ s.matches
      → Attempt p ms ys next
      → Attempt p (c ∷ ms) (i ∷ ys) s
  lift p i c ms ys s next same r m (whole t run) = whole (rw (same, t) refl) (λ fuel.
      ap (λ n. search_loop input match n s) (suc_add (length ms) fuel)
      ∙ round_on (length ms + fuel) s next r
      ∙ run fuel
      ∙ ap (λ a. search_loop input match fuel (at (p + length match) 0 p (a ++ (p ∷ [])))) m)
  lift p i c ms ys s next same r m (back j start t le run) =
      back (suc j) start (rw (same, t) refl) (omega (arith, le)) (λ fuel.
        ap (λ n. search_loop input match n s) (suc_add j fuel)
        ∙ round_on (j + fuel) s next r
        ∙ run fuel
        ∙ ap (λ a. search_loop input match fuel (at (p + 1) 0 start a)) m)
  lift p i c ms ys s next same r m (at_end short run) = at_end (omega (arith, short)) (λ fuel.
      ap (λ n. search_loop input match n s) (suc_add (length ms) fuel)
      ∙ round_on (length ms + fuel) s next r
      ∙ run fuel
      ∙ ap gives m)

  mismatched-at :
      (q k start : ℕ) (acc : List ℕ) (p : ℕ)
      → begin_at (at q k start acc) ≡ p
      → mismatched (at q k start acc) ≡ at (p + 1) 0 start acc
  mismatched-at q zero start acc p e = ap (λ n. at (n + 1) 0 start acc) e
  mismatched-at q (suc k) start acc p e =
      ap (λ b. if b then at (start + 1) 0 start acc else at (q + 1) (suc k) start acc) (positive k)
      ∙ ap (λ n. at (n + 1) 0 start acc) (ap (λ b. if b then q else start) (sym (not_zero k)) ∙ e)

  -- The last byte of the match, and one before.
  matched-last :
      (s : Search) (p : ℕ)
      → s.match_pos + 1 ≡ length match
      → begin_at s ≡ p
      → s.position ≡ p + s.match_pos
      → matched match s ≡ at (p + length match) 0 p (s.matches ++ (p ∷ []))
  matched-last s p last e at_p =
      ap
        (λ b.
          if b
          then at (s.position + 1) 0 (begin_at s) (s.matches ++ (begin_at s ∷ []))
          else at (s.position + 1) (s.match_pos + 1) (begin_at s) s.matches)
        (same_number last)
      ∙ ap₂ (λ q b. at q 0 b (s.matches ++ (b ∷ []))) (omega (arith, last, at_p)) e

  matched-more :
      (s : Search) (p : ℕ)
      → s.match_pos + 1 < length match
      → begin_at s ≡ p
      → matched match s ≡ at (s.position + 1) (s.match_pos + 1) p s.matches
  matched-more s p more e =
      ap
        (λ b.
          if b
          then at (s.position + 1) 0 (begin_at s) (s.matches ++ (begin_at s ∷ []))
          else at (s.position + 1) (s.match_pos + 1) (begin_at s) s.matches)
        (less_number more)
      ∙ ap (λ b. at (s.position + 1) (s.match_pos + 1) b s.matches) e

  -- The byte does not match.
  mismatch :
      (p i c : ℕ) (ms ys : List ℕ) (s : Search)
      → length s.matches < 32
      → drop s.position input ≡ i ∷ ys
      → drop s.match_pos match ≡ c ∷ ms
      → begin_at s ≡ p
      → (c == i) ≡ false
      → Attempt p (c ∷ ms) (i ∷ ys) s
  mismatch p i c ms ys s few e e' from_p t = back 1 s.start (rw t refl) (omega arith) (λ fuel.
      ap (λ n. search_loop input match n s) (suc_add 0 fuel ∙ ap suc (zero_add fuel))
      ∙ round_on fuel s (mismatched s) (
          round_at_byte s i c few e e'
          ∙ ap (λ b. goes_on (if b then matched match s else mismatched s)) t)
      ∙ ap (search_loop input match fuel)
          (mismatched-at s.position s.match_pos s.start s.matches p from_p))

  -- The byte matches, and is the last one.
  last_byte :
      (p i c : ℕ) (ys : List ℕ) (s : Search)
      → length s.matches < 32
      → drop s.position input ≡ i ∷ ys
      → drop s.match_pos match ≡ c ∷ []
      → s.position ≡ p + s.match_pos
      → begin_at s ≡ p
      → (c == i) ≡ true
      → Attempt p (c ∷ []) (i ∷ ys) s
  last_byte p i c ys s few e e' at_p from_p t = whole (rw t refl) (λ fuel.
      ap (λ n. search_loop input match n s) (suc_add 0 fuel ∙ ap suc (zero_add fuel))
      ∙ round_on fuel s (matched match s) (
          round_at_byte s i c few e e'
          ∙ ap (λ b. goes_on (if b then matched match s else mismatched s)) t)
      ∙ ap (search_loop input match fuel) (
          matched-last s p (omega (arith, ap length e', length-drop s.match_pos match)) from_p
            at_p))

  pub attempt :
      (p : ℕ) (ms ys : List ℕ) (s : Search)
      → length s.matches < 32
      → 0 < length ms
      → drop s.position input ≡ ys
      → drop s.match_pos match ≡ ms
      → s.position ≡ p + s.match_pos
      → begin_at s ≡ p
      → Attempt p ms ys s
  attempt p [] ys s few some_left e e' at_p from_p = absurd (omega arith)
  attempt p (c ∷ ms) [] s few some_left e e' at_p from_p = at_end (omega arith) (λ fuel.
      ap (λ n. search_loop input match n s) (suc_add (length ms) fuel)
      ∙ round_at_end (length ms + fuel) s few e)
  attempt p (c ∷ []) (i ∷ ys) s few some_left e e' at_p from_p = compare_byte (c == i) refl
    where
      compare_byte : (t : Bool) → (c == i) ≡ t → Attempt p (c ∷ []) (i ∷ ys) s
      compare_byte false t = mismatch p i c [] ys s few e e' from_p t
      compare_byte true t = last_byte p i c ys s few e e' at_p from_p t
  attempt p (c ∷ (c' ∷ ms)) (i ∷ ys) s few some_left e e' at_p from_p = compare_byte (c == i) refl (
      attempt p (c' ∷ ms) ys next few (omega arith) (drop-next s.position input e)
        (drop-next s.match_pos match e') (omega (arith, at_p))
        (ap (λ b. if b then s.position + 1 else p) (not_first s.match_pos)))
    where
      next : Search
      next = at (s.position + 1) (s.match_pos + 1) p s.matches

      not_first : (k : ℕ) → (k + 1 == 0) ≡ false
      not_first k = ground arith

      compare_byte :
          (t : Bool)
          → (c == i) ≡ t
          → Attempt p (c' ∷ ms) ys next
          → Attempt p (c ∷ (c' ∷ ms)) (i ∷ ys) s
      compare_byte false t rest = mismatch p i c (c' ∷ ms) ys s few e e' from_p t
      compare_byte true t rest =
          lift p i c (c' ∷ ms) ys s next t
            (round_at_byte s i c few e e'
              ∙ ap (λ b. goes_on (if b then matched match s else mismatched s)) t
              ∙ ap goes_on (
                  matched-more s p (omega (arith, ap length e', length-drop s.match_pos match))
                    from_p))
            refl rest
