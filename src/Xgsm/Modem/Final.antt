-- ===== src/Xgsm/Modem/Final.antt =====
-- When xgsm_eoc takes the response of the modem for complete.
use trivia.Prelude.{
  ℕ, zero, suc, ◌+◌, ◌-◌, ◌≤◌, ◌<◌, ◌≡◌, ◌≢◌, ◌↔◌, refl, sym, ap, ap₂, ◌∙◌, Bool, true, false, ◌&&◌,
  ◌||◌, not, Option, none, some, List, [], ◌∷◌, ◌++◌, length, take, drop, get_or, length-append,
  length-take, take-append-drop, drop-append_length, arith, leb, if◌then◌else◌, ℕ_discrete,
}
use trivia.Prelude.Slices.{
  get_or-behind, get_or-front, get_or-drop, get_or-take, drop-add, drop-cons,
}
use trivia.Prelude.Text.{ascii, toupper, same_letter, starts_nocase, equals_nocase}
use trivia.Xgsm.Modem.Reply.{crlf, find_sol, is_final, is_crlf, xgsm_eoc}

-- A line that ends a response, its end left out.
abbrev pub final_line : List ℕ → Bool
final_line line =
    equals_nocase (ascii "OK") line
    || equals_nocase (ascii "ERROR") line
    || equals_nocase (ascii "NO CARRIER") line
    || starts_nocase (ascii "+CMS ERROR:") line
    || starts_nocase (ascii "+CME ERROR:") line

-- A list with no line feed.
abbrev pub OneLine : List ℕ → Type 0
OneLine line = (k : ℕ) → k < length line → get_or line k 0 ≢ 10

-- A text before, and a last line that ends the response.
pub record Complete (resp : List ℕ) : Type 0 where
  pub before : List ℕ
  pub line : List ℕ
  pub cut : resp ≡ before ++ (10 ∷ (line ++ crlf))
  pub one : OneLine line
  pub final : final_line line ≡ true

plain : List ℕ → Bool
plain [] = true
plain (p ∷ ps) = not (same_letter p 13) && not (same_letter p 10) && plain ps

starts-crlf :
    (p line : List ℕ)
    → plain p ≡ true
    → OneLine line
    → starts_nocase (p ++ crlf) (line ++ crlf) ≡ equals_nocase p line
unfolding plain same_letter toupper
starts-crlf [] [] h one = refl
starts-crlf [] (c ∷ []) h one = ground arith
starts-crlf [] (c ∷ d ∷ line) h one = ground (arith, one 1 (omega arith))
starts-crlf (p ∷ ps) [] h one = ground arith
starts-crlf (p ∷ ps) (c ∷ line) h one =
    ground (arith, starts-crlf ps line (ground arith) (λ k lt. one (suc k) (omega arith)))

starts-line :
    (p line : List ℕ) → plain p ≡ true → starts_nocase p (line ++ crlf) ≡ starts_nocase p line
unfolding plain
starts-line [] line h = refl
starts-line (p ∷ []) [] h = ground arith
starts-line (p ∷ q ∷ ps) [] h = ground arith
starts-line (p ∷ ps) (c ∷ line) h = ground (arith, starts-line ps line (ground arith))

is_final-line : (line : List ℕ) → OneLine line → is_final (10 ∷ (line ++ crlf)) ≡ final_line line
unfolding is_final plain same_letter toupper
is_final-line line one =
    rw
      (
        starts-crlf (ascii "OK") line refl one,
        starts-crlf (ascii "ERROR") line refl one,
        starts-crlf (ascii "NO CARRIER") line refl one,
        starts-line (ascii "+CMS ERROR:") line refl,
        starts-line (ascii "+CME ERROR:") line refl,
      )
      refl

find_sol-lt :
    (resp : List ℕ) (k : ℕ) {s : ℕ}
    → find_sol resp k ≡ some s
    → (s < k) × (get_or resp s 0 ≡ 10) × ((j : ℕ) → s < j → j < k → get_or resp j 0 ≢ 10)
unfolding find_sol
find_sol-lt resp zero e = cc
find_sol-lt resp (suc k) {s} e = elim (ℕ_discrete (get_or resp k 0) 10) [
  | yes here ↦
      let same : k ≡ s = ground (arith, e, here) in
      (
        omega (arith, same),
        ap (λ i. get_or resp i 0) (sym same) ∙ here,
        λ j lt lt'. absurd (omega (arith, same)),
      )
  | no other ↦
      let (lt, at, above) = find_sol-lt resp k {s = s} (ground (arith, e, other)) in
      (
        omega (arith, lt),
        at,
        λ j lt' lt''. elim (ℕ_discrete j k) [
          | yes last ↦ λ q. other (ap (λ i. get_or resp i 0) (sym last) ∙ q)
          | no before ↦ above j lt' (omega (arith, before))
        ],
      )
]

find_sol-line :
    (before line tail : List ℕ) (j : ℕ)
    → OneLine line
    → j ≤ length line
    → find_sol (before ++ (10 ∷ (line ++ tail))) (suc (length before + j)) ≡ some (length before)
unfolding find_sol
find_sol-line before line tail zero one le =
    ground (arith, get_or-behind before (10 ∷ (line ++ tail)) 0 0)
find_sol-line before line tail (suc j) one le =
    let char : get_or (before ++ (10 ∷ (line ++ tail))) (length before + suc j) 0
        ≡ get_or line j 0 =
      get_or-behind before (10 ∷ (line ++ tail)) (suc j) 0
      ∙ get_or-front line tail j 0 (omega arith) in
    let place : length before + suc j ≡ suc (length before + j) = omega arith in
    ground
      (arith, char, place, one j (omega arith), find_sol-line before line tail j one (omega arith))

is_crlf-eq : (xs : List ℕ) → is_crlf xs ≡ true → xs ≡ crlf
is_crlf-eq [] h = cc
is_crlf-eq (c ∷ []) h = cc
is_crlf-eq (c ∷ d ∷ []) h = ap₂ (λ x y. x ∷ y ∷ []) (ground arith) (ground arith)
is_crlf-eq (c ∷ d ∷ x ∷ xs) h = cc

length-Complete :
    (before line : List ℕ)
    → length (before ++ (10 ∷ (line ++ crlf))) ≡ length before + length line + 3
length-Complete before line =
    omega (arith, length-append before (10 ∷ (line ++ crlf)), length-append line crlf)

eoc-final :
    (before line : List ℕ)
    → OneLine line
    → xgsm_eoc (before ++ (10 ∷ (line ++ crlf))) ≡ final_line line
unfolding xgsm_eoc
eoc-final before line one =
    let n : length (before ++ (10 ∷ (line ++ crlf))) ≡ length before + length line + 3 =
      length-Complete before line in
    let back : length before + length line + 3 - 2 ≡ length before + suc (length line) =
      omega arith in
    let turn : length before + suc (length line) ≡ suc (length before + length line) =
      omega arith in
    let end : drop (length before + suc (length line)) (before ++ (10 ∷ (line ++ crlf))) ≡ crlf =
      sym (drop-add (suc (length line)) (length before) (before ++ (10 ∷ (line ++ crlf))))
      ∙ ap (drop (suc (length line))) (drop-append_length before (10 ∷ (line ++ crlf)))
      ∙ drop-append_length line crlf in
    rw
      (
        n,
        back,
        end,
        turn,
        find_sol-line before line crlf (length line) one (omega arith),
        drop-append_length before (10 ∷ (line ++ crlf)),
        is_final-line line one,
      )
      (ground arith)

Complete-eoc : {resp : List ℕ} → Complete resp → xgsm_eoc resp ≡ true
Complete-eoc c = ap xgsm_eoc c.cut ∙ eoc-final c.before c.line c.one ∙ c.final

-- What find_sol gives cuts a response that CR LF ends.
cut_at :
    (resp : List ℕ) (s : ℕ)
    → 2 < length resp
    → drop (length resp - 2) resp ≡ crlf
    → (s < length resp - 2)
      × (get_or resp s 0 ≡ 10)
      × ((j : ℕ) → s < j → j < length resp - 2 → get_or resp j 0 ≢ 10)
    → is_final (drop s resp) ≡ true
    → Complete resp
cut_at resp s long end (lt, at, above) final = record {
  before = take s resp;
  line = line;
  cut = cut;
  one = one;
  final = sym (is_final-line line one) ∙ ap is_final (sym rest) ∙ final;
}
  where
    m : ℕ
    m = length resp - 3 - s

    line : List ℕ
    line = take m (drop (suc s) resp)

    behind : drop m (drop (suc s) resp) ≡ crlf
    behind = drop-add m (suc s) resp ∙ ap (λ k. drop k resp) (omega (arith, lt, long)) ∙ end

    rest : drop s resp ≡ 10 ∷ (line ++ crlf)
    rest =
        drop-cons s resp 0 (omega (arith, lt))
        ∙ ap₂ (λ x y. x ∷ y) at
            (sym (take-append-drop m (drop (suc s) resp)) ∙ ap (λ q. line ++ q) behind)

    cut : resp ≡ take s resp ++ (10 ∷ (line ++ crlf))
    cut = sym (take-append-drop s resp) ∙ ap (λ q. take s resp ++ q) rest

    one : OneLine line
    one k h =
        let small : k < m = omega (arith, h, length-take m (drop (suc s) resp)) in
        λ e. above (suc s + k) (omega arith) (omega (arith, small)) (
          sym (get_or-drop (suc s) k resp 0)
          ∙ sym (get_or-take m k (drop (suc s) resp) 0 small)
          ∙ e)

eoc-Complete : (resp : List ℕ) → xgsm_eoc resp ≡ true → Complete resp
unfolding xgsm_eoc
eoc-Complete resp h = found (find_sol resp (length resp - 2)) refl h
  where
    found :
        (o : Option ℕ)
        → find_sol resp (length resp - 2) ≡ o
        → (if leb (length resp) 2 || not (is_crlf (drop (length resp - 2) resp))
            then false
            else elim o as (λ _. Bool) [ none ↦ false | some sol ↦ is_final (drop sol resp) ])
          ≡ true
        → Complete resp
    found none e h = absurd (ground arith)
    found (some s) e h =
        cut_at resp s (ground arith) (is_crlf-eq _ (ground arith))
          (find_sol-lt resp (length resp - 2) e) (ground arith)

-- xgsm_eoc takes a response for complete exactly if a line feed, a final line (OK, ERROR or NO CARRIER, or
-- what begins with +CMS ERROR: or +CME ERROR:, in any case) without line feed, and CR LF end it.
pub xgsm_eoc-Complete : (resp : List ℕ) → (xgsm_eoc resp ≡ true) ↔ Complete resp
xgsm_eoc-Complete resp = (eoc-Complete resp, Complete-eoc)
