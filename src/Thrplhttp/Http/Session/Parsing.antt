-- ===== src/Thrplhttp/Http/Session/Parsing.antt =====
-- The request line of process_session.
use trivia.Prelude.{
  ℕ, ◌<◌, ◌≤◌, ◌≡◌, refl, ap, ◌∙◌, Bool, true, false, none, some, List, [], ◌∷◌, ◌++◌, length, take,
  arith, ltb, if◌then◌else◌,
}
use trivia.Prelude.Slices.{take_all}
use trivia.Prelude.Text.{ascii, equals_nocase}
use trivia.Thrplhttp.Http.Session.{
  among, skip_over, break_at, cons_token, overrun, token, ended_token, skipped_token, strtok_r,
  crash, bad, request, with_version, with_doc, with_method, parse_request,
}

-- No character is a delimiter.
abbrev pub NoneOf : List ℕ → List ℕ → Type 0
NoneOf delim [] = Unit
NoneOf delim (c ∷ cs) = (among delim c ≡ false) × NoneOf delim cs

-- A word without delimiters.
pub record IsWord (delim word : List ℕ) : Type 0 where
  pub no_delim : NoneOf delim word
  pub nonempty : 0 < length word

break_at-word :
    (delim word : List ℕ) (d : ℕ) (rest : List ℕ)
    → NoneOf delim word
    → among delim d ≡ true
    → break_at delim (word ++ (d ∷ rest)) ≡ (word, some rest)
break_at-word delim [] d rest h e = rw e refl
break_at-word delim (c ∷ cs) d rest (h, hs) e =
    rw h (ap (cons_token c) (break_at-word delim cs d rest hs e))

break_at-end : (delim word : List ℕ) → NoneOf delim word → break_at delim word ≡ (word, none)
break_at-end delim [] h = refl
break_at-end delim (c ∷ cs) (h, hs) = rw h (ap (cons_token c) (break_at-end delim cs hs))

no_skip :
    (delim : List ℕ) (c : ℕ) (cs : List ℕ)
    → among delim c ≡ false
    → skip_over delim (c ∷ cs) ≡ c ∷ cs
no_skip delim c cs h = rw h refl

strtok_r-word :
    (nul : Bool) (delim word : List ℕ) (d : ℕ) (rest : List ℕ)
    → IsWord delim word
    → among delim d ≡ true
    → strtok_r nul delim (word ++ (d ∷ rest)) ≡ token word rest
strtok_r-word nul delim [] d rest w e = absurd (omega (arith, w.nonempty))
strtok_r-word nul delim (c ∷ cs) d rest w e =
    let (here, behind) = w.no_delim in
    ap (skipped_token nul delim) (no_skip delim c (cs ++ (d ∷ rest)) here)
    ∙ ap (ended_token nul) (break_at-word delim (c ∷ cs) d rest (here, behind) e)

strtok_r-overrun : (delim text : List ℕ) → NoneOf delim text → strtok_r false delim text ≡ overrun
strtok_r-overrun delim [] h = refl
strtok_r-overrun delim (c ∷ cs) (h, hs) =
    ap (skipped_token false delim) (no_skip delim c cs h)
    ∙ ap (ended_token false) (break_at-end delim (c ∷ cs) (h, hs))

-- "<method> <document> <version>\r"
abbrev pub request_line : List ℕ → List ℕ → List ℕ → List ℕ
request_line meth doc ver = meth ++ (32 ∷ (doc ++ (32 ∷ (ver ++ (13 ∷ [])))))

-- A request line of at most 2048 characters, whose parts are words, is taken apart into exactly these
-- parts, and is a request just when the method is GET in any case.
pub parse_request-request_line :
    (meth doc ver : List ℕ)
    → IsWord (32 ∷ []) meth
    → IsWord (32 ∷ []) doc
    → IsWord (32 ∷ 13 ∷ []) ver
    → length (request_line meth doc ver) ≤ 2048
    → parse_request (request_line meth doc ver)
      ≡ (if equals_nocase (ascii "GET") meth then request meth doc ver else bad)
unfolding parse_request
parse_request-request_line meth doc ver m d v fits =
    ap (λ q. with_method nul (strtok_r nul (32 ∷ []) q)) (take_all 2048 line fits)
    ∙ ap (with_method nul)
        (strtok_r-word nul (32 ∷ []) meth 32 (doc ++ (32 ∷ (ver ++ (13 ∷ [])))) m refl)
    ∙ ap (with_doc nul meth) (strtok_r-word nul (32 ∷ []) doc 32 (ver ++ (13 ∷ [])) d refl)
    ∙ ap (with_version meth doc) (strtok_r-word nul (32 ∷ 13 ∷ []) ver 13 [] v refl)
  where
    line : List ℕ
    line = request_line meth doc ver

    nul : Bool
    nul = ltb (length line) 2048

not_below : (n k : ℕ) → k ≤ n → ltb n k ≡ false
not_below n k h = ground arith

-- A line of 2048 characters or more without a space among the first 2048 fills the copy of the line, so
-- that no NUL ends it, and strtok_r reads behind it.
pub parse_request_overruns :
    (ln : List ℕ) → 2048 ≤ length ln → NoneOf (32 ∷ []) (take 2048 ln) → parse_request ln ≡ crash
unfolding parse_request
parse_request_overruns ln long h =
    ap (λ nul. with_method nul (strtok_r nul (32 ∷ []) (take 2048 ln)))
      (not_below (length ln) 2048 long)
    ∙ ap (with_method false) (strtok_r-overrun (32 ∷ []) (take 2048 ln) h)
