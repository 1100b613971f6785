-- ===== src/Econv/Conversion.antt =====
-- The conversion of a text with CR LF at the end of each line.
use trivia.Prelude.{
  ℕ, zero, suc, ◌+◌, ◌≤◌, ◌<◌, ◌≡◌, refl, ap, ap₂, ◌∙◌, Bool, true, false, List, [], ◌∷◌, ◌++◌,
  length, length-append, append_assoc, ◌==◌, if◌then◌else◌, arith,
}
use trivia.Thrplhttp.Connection.Unread.{NoLf}
use trivia.Thrplhttp.Http.Session.{c_string}
use trivia.Econv.{line_of, ends_crlf, unix_line, write_line, unix_loop}

abbrev pub NoNul : List ℕ → Type 0
NoNul [] = Unit
NoNul (c ∷ cs) = ((c == 0) ≡ false) × NoNul cs

-- A line that fits the buffer with CR LF.
pub record IsLine (ln : List ℕ) : Type 0 where
  pub no_lf : NoLf ln
  pub no_nul : NoNul ln
  pub fits : length ln + 2 ≤ 2046

abbrev pub Lines : List (List ℕ) → Type 0
Lines [] = Unit
Lines (ln ∷ lns) = IsLine ln × Lines lns

abbrev pub text_of : List ℕ → List (List ℕ) → List ℕ
text_of end [] = []
text_of end (ln ∷ lns) = ln ++ (end ++ text_of end lns)

pub line_of-crlf :
    (ln rest : List ℕ) (n : ℕ)
    → NoLf ln
    → length ln + 2 ≤ n
    → line_of n (ln ++ (13 ∷ (10 ∷ rest))) ≡ (ln ++ (13 ∷ (10 ∷ [])), rest)
line_of-crlf ln rest zero h fits = absurd (omega arith)
line_of-crlf [] rest (suc zero) h fits = absurd (omega arith)
line_of-crlf [] rest (suc (suc n)) h fits = refl
line_of-crlf (c ∷ cs) rest (suc n) (h, hs) fits =
    rw h (ap (λ q. (c ∷ q.0, q.1)) (line_of-crlf cs rest n hs (omega arith)))

pub c_string-NoNul :
    (ln : List ℕ) → NoNul ln → c_string (ln ++ (13 ∷ (10 ∷ []))) ≡ ln ++ (13 ∷ (10 ∷ []))
c_string-NoNul [] h = refl
c_string-NoNul (c ∷ cs) (h, hs) = rw h (ap (λ q. c ∷ q) (c_string-NoNul cs hs))

ends_crlf-longer : (c d : ℕ) (cs : List ℕ) → ends_crlf (c ∷ (d ∷ (cs ++ (13 ∷ (10 ∷ []))))) ≡ false
ends_crlf-longer c d [] = refl
ends_crlf-longer c d (e ∷ cs) = refl

unix_line-crlf : (ln : List ℕ) → unix_line (ln ++ (13 ∷ (10 ∷ []))) ≡ ln ++ (10 ∷ [])
unix_line-crlf [] = refl
unix_line-crlf (c ∷ []) = refl
unix_line-crlf (c ∷ (d ∷ cs)) =
    ap (λ b. if b then 10 ∷ [] else c ∷ unix_line (d ∷ (cs ++ (13 ∷ (10 ∷ [])))))
      (ends_crlf-longer c d cs)
    ∙ ap (λ q. c ∷ q) (unix_line-crlf (d ∷ cs))

unix_round :
    (accepts : List ℕ → Bool) (fuel : ℕ) (text : List ℕ)
    → 0 < length text
    → unix_loop accepts (suc fuel) text
      ≡ write_line accepts
          (unix_loop accepts fuel (line_of 2046 text).1)
          (unix_line (c_string (line_of 2046 text).0))
unfolding unix_loop
unix_round accepts fuel [] h = absurd (omega arith)
unix_round accepts fuel (c ∷ cs) h = refl

write_some :
    (accepts : List ℕ → Bool) (text out : List ℕ)
    → 0 < length text
    → accepts text ≡ true
    → write_line accepts (true, out) text ≡ (true, text ++ out)
write_some accepts [] out h e = absurd (omega arith)
write_some accepts (c ∷ cs) out h e = rw e refl

-- A text of lines that each fit the buffer and hold no LF and no NUL, with CR LF behind each line: if all writes
-- succeed, what is written is the same lines with LF behind each.
pub unix_loop-Lines :
    (accepts : List ℕ → Bool) (lns : List (List ℕ)) (fuel : ℕ)
    → ((out : List ℕ) → accepts out ≡ true)
    → Lines lns
    → length lns ≤ fuel
    → unix_loop accepts fuel (text_of (13 ∷ (10 ∷ [])) lns) ≡ (true, text_of (10 ∷ []) lns)
unfolding unix_loop
unix_loop-Lines accepts [] zero all ok enough = refl
unix_loop-Lines accepts [] (suc fuel) all ok enough = refl
unix_loop-Lines accepts (ln ∷ lns) zero all ok enough = absurd (omega arith)
unix_loop-Lines accepts (ln ∷ lns) (suc fuel) all (v, ok) enough =
    unix_round accepts fuel (ln ++ (13 ∷ (10 ∷ more)))
      (omega (arith, length-append ln (13 ∷ (10 ∷ more))))
    ∙ ap (λ q. write_line accepts (unix_loop accepts fuel q.1) (unix_line (c_string q.0)))
        (line_of-crlf ln more 2046 v.no_lf v.fits)
    ∙ ap₂ (write_line accepts) (unix_loop-Lines accepts lns fuel all ok (omega arith))
        (ap unix_line (c_string-NoNul ln v.no_nul) ∙ unix_line-crlf ln)
    ∙ write_some accepts (ln ++ (10 ∷ [])) (text_of (10 ∷ []) lns)
        (omega (arith, length-append ln (10 ∷ []))) (all (ln ++ (10 ∷ [])))
    ∙ ap (λ q. (true, q)) (append_assoc ln (10 ∷ []) (text_of (10 ∷ []) lns))
  where
    more : List ℕ
    more = text_of (13 ∷ (10 ∷ [])) lns
