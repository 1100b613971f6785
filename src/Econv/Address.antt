-- ===== src/Econv/Address.antt =====
-- extract_address takes the word around the first `@`.
use trivia.Prelude.{
  ℕ, ◌-◌, ◌≤◌, ◌<◌, ◌≡◌, refl, sym, ap, ap₂, ◌∙◌, true, false, none, some, List, [], ◌∷◌, ◌++◌,
  length, take, append_assoc, append-nil, ◌==◌, ltb, if◌then◌else◌, arith,
}
use trivia.Econv.{is_delimiter, split_at, scan_end, scan_base, cut, around, extract_address}

-- No character is a delimiter, or an `@`.
abbrev pub NoDelimiter : List ℕ → Type 0
NoDelimiter [] = Unit
NoDelimiter (c ∷ cs) = (is_delimiter c ≡ false) × NoDelimiter cs

abbrev pub NoAt : List ℕ → Type 0
NoAt [] = Unit
NoAt (c ∷ cs) = ((c == b'@') ≡ false) × NoAt cs

-- What stands behind a word: nothing, or a delimiter first.
abbrev pub Bounded : List ℕ → Type 0
Bounded [] = Unit
Bounded (c ∷ cs) = is_delimiter c ≡ true

-- What stands before it: nothing, or a delimiter last.
abbrev pub BoundedBefore : List ℕ → Type 0
BoundedBefore [] = Unit
BoundedBefore (c ∷ []) = is_delimiter c ≡ true
BoundedBefore (c ∷ (d ∷ cs)) = BoundedBefore (d ∷ cs)

abbrev pub onto : List ℕ → List ℕ → List ℕ
onto [] seen = seen
onto (c ∷ cs) seen = onto cs (c ∷ seen)

split_at-NoAt :
    (xs behind seen : List ℕ)
    → NoAt xs
    → split_at seen (xs ++ (b'@' ∷ behind)) ≡ some (onto xs seen, behind)
split_at-NoAt [] behind seen h = refl
split_at-NoAt (x ∷ xs) behind seen (h, hs) = rw h (split_at-NoAt xs behind (x ∷ seen) hs)

split_at-none : (xs seen : List ℕ) → NoAt xs → split_at seen xs ≡ none
split_at-none [] seen h = refl
split_at-none (x ∷ xs) seen (h, hs) = rw h (split_at-none xs (x ∷ seen) hs)

scan_end-word :
    (word rest : List ℕ) → NoDelimiter word → Bounded rest → scan_end (word ++ rest) ≡ word
scan_end-word [] [] h b = refl
scan_end-word [] (c ∷ rest) h b = rw b refl
scan_end-word (w ∷ ws) rest (h, hs) b = rw h (ap (λ q. w ∷ q) (scan_end-word ws rest hs b))

-- What the backward scan passes over, when the characters before it are on the stack.
scan_base-onto :
    (word seen passed : List ℕ)
    → NoDelimiter word
    → scan_base (onto word seen) passed ≡ scan_base seen (word ++ passed)
scan_base-onto [] seen passed h = refl
scan_base-onto (w ∷ ws) seen passed (h, hs) = scan_base-onto ws (w ∷ seen) passed hs ∙ rw h refl

onto-append : (xs ys seen : List ℕ) → onto (xs ++ ys) seen ≡ onto ys (onto xs seen)
onto-append [] ys seen = refl
onto-append (x ∷ xs) ys seen = onto-append xs ys (x ∷ seen)

scan_base_stop :
    (pre passed seen : List ℕ)
    → BoundedBefore pre
    → 0 < length pre
    → scan_base (onto pre seen) passed ≡ passed
scan_base_stop [] passed seen b h = absurd (omega arith)
scan_base_stop (c ∷ []) passed seen b h = rw b refl
scan_base_stop (c ∷ (d ∷ cs)) passed seen b h =
    scan_base_stop (d ∷ cs) passed (c ∷ seen) b (omega arith)

scan_base-bounded :
    (pre passed : List ℕ) → BoundedBefore pre → scan_base (onto pre []) passed ≡ passed
scan_base-bounded [] passed b = refl
scan_base-bounded (c ∷ cs) passed b = scan_base_stop (c ∷ cs) passed [] b (omega arith)

NoAt-append : (xs ys : List ℕ) → NoAt xs → NoAt ys → NoAt (xs ++ ys)
NoAt-append [] ys h k = k
NoAt-append (x ∷ xs) ys (h, hs) k = (h, NoAt-append xs ys hs k)

not_above : (a b : ℕ) → b ≤ a → ltb a b ≡ false
not_above a b h = ground arith

-- For a line whose first `@` stands in a word of no delimiters that has a delimiter or nothing before it and
-- behind it, extract_address gives exactly this word when it fits.
pub extract_address-word :
    (pre user domain post : List ℕ) (asize : ℕ)
    → BoundedBefore pre
    → NoAt pre
    → NoDelimiter user
    → NoAt user
    → NoDelimiter domain
    → Bounded post
    → length (user ++ (b'@' ∷ domain)) ≤ asize
    → extract_address (pre ++ (user ++ (b'@' ∷ (domain ++ post)))) asize
      ≡ some (user ++ (b'@' ∷ domain))
unfolding extract_address
extract_address-word pre user domain post asize before no_at word no_at' word' behind fits =
    ap (λ str. around asize (split_at [] str))
      (sym (append_assoc pre user (b'@' ∷ (domain ++ post))))
    ∙ ap (around asize)
        (split_at-NoAt (pre ++ user) (domain ++ post) [] (NoAt-append pre user no_at no_at'))
    ∙ ap₂ (λ x y. some (cut asize (x ++ (b'@' ∷ y)))) base (scan_end-word domain post word' behind)
    ∙ ap (λ t. some (if t then take (asize - 1) addr else addr))
        (not_above asize (length addr) fits)
  where
    addr : List ℕ
    addr = user ++ (b'@' ∷ domain)

    base : scan_base (onto (pre ++ user) []) [] ≡ user
    base =
        ap (λ s. scan_base s []) (onto-append pre user [])
        ∙ scan_base-onto user (onto pre []) [] word
        ∙ scan_base-bounded pre (user ++ []) before
        ∙ append-nil user

-- Without an `@` there is no address.
pub extract_address-none : (str : List ℕ) (asize : ℕ) → NoAt str → extract_address str asize ≡ none
unfolding extract_address
extract_address-none str asize h = ap (around asize) (split_at-none str [] h)
