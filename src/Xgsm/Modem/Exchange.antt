-- ===== src/Xgsm/Modem/Exchange.antt =====
-- What xgsm_readresp makes of what the modem sends, however it comes in pieces.
use trivia.Prelude.{
  ℕ, zero, suc, ◌+◌, ◌-◌, ◌*◌, ◌<◌, ◌≡◌, refl, sym, ap, ap₂, ◌∙◌, Bool, true, false, some, List, [],
  ◌∷◌, ◌++◌, length, take, drop, length-append, length-take, arith, append_assoc, append-nil,
  if◌then◌else◌, ℕ_discrete,
}
use mathlib.Core.Path.{subst}
use trivia.Xgsm.Modem.Line.{Answer, Line, push_back, with_answers, flush, weight}
use trivia.Xgsm.Modem.Reply.{
  grown, room, got_bytes, read_blocking, response, resp_loop, xgsm_eoc, xgsm_readresp,
}
use trivia.Xgsm.Modem.Offers.{Offers, Next, Next-piece, weight-Offers, Offers-nil}

length-zero : (xs : List ℕ) → length xs ≡ 0 → xs ≡ []
length-zero [] e = refl
length-zero (x ∷ xs) e = absurd (omega arith)

eoc_some : (resp : List ℕ) → xgsm_eoc resp ≡ true → 0 < length resp
unfolding xgsm_eoc
eoc_some [] h = cc
eoc_some (c ∷ cs) h = omega arith

module _ (malloc realloc : ℕ → Bool) (enough : (n : ℕ) → realloc n ≡ true) where
  roomy : (rdbytes size : ℕ) → room realloc rdbytes size ≡ true
  roomy rdbytes size = ground (arith, enough (size * 2))

  -- The room left in the buffer, less one.
  abbrev limit : List ℕ → ℕ → ℕ
  limit before size = grown (length before) size - length before - 2

  limit-lt :
      (before : List ℕ) (size : ℕ)
      → length before < size
      → grown (length before) size - length before - 1 ≡ suc (limit before size)
  limit-lt before size h = ground arith

  resp_loop_round :
      (fuel : ℕ) {rest line : List Answer} {left : List ℕ} (before : List ℕ) (size : ℕ)
      → length before < size
      → (p : Next rest line left (limit before size))
      → resp_loop realloc (suc fuel) before size line ≡ (
          if xgsm_eoc (before ++ (p.c ∷ take (limit before size) p.cs))
          then response
              (before ++ (p.c ∷ take (limit before size) p.cs))
              (grown (length before) size)
              (push_back (drop (limit before size) p.cs) p.more)
          else resp_loop realloc fuel
              (before ++ (p.c ∷ take (limit before size) p.cs))
              (grown (length before) size)
              (push_back (drop (limit before size) p.cs) p.more))
  unfolding resp_loop
  resp_loop_round fuel before size h p = rw (roomy (length before) size) (
      ap
        (λ r.
          got_bytes realloc
            (λ resp' rest'. resp_loop realloc fuel resp' (grown (length before) size) rest') before
            (grown (length before) size) r)
        (ap₂ read_blocking (limit-lt before size h) p.head))

  abbrev Ends : List Answer → List Answer → ℕ → List ℕ → ℕ → List ℕ → Type 0
  Ends rest line fuel before size resp =
      (size' : ℕ) × (resp_loop realloc fuel before size line ≡ response resp size' rest)
      × (length resp < size')

  resp_loop-Offers :
      (fuel : ℕ) {rest line : List Answer} (before left resp : List ℕ) (size : ℕ)
      → Offers rest line left
      → length left < fuel
      → 0 < length left
      → length before < size
      → before ++ left ≡ resp
      → xgsm_eoc resp ≡ true
      → ((u v : List ℕ) → u ++ v ≡ resp → 0 < length v → xgsm_eoc u ≡ false)
      → Ends rest line fuel before size resp
  resp_loop-Offers zero before left resp size o f pos fits whole end early = absurd (omega arith)
  resp_loop-Offers (suc fuel) {rest} {line} before left resp size o f pos fits whole end early =
      elim (ℕ_discrete (length p.left) 0) [
        | yes last ↦ (
          size',
          resp_loop_round fuel before size fits p
              ∙ rw (whole' last, end) (ap (response resp size') (Offers-nil p.offers last)),
          subst (λ q. length q < size') (whole' last) shorter,
        )
        | no open_end ↦
            let (z, e, lt) =
              resp_loop-Offers fuel before' p.left resp size' p.offers
                (omega (arith, ap length p.cut, length-append (p.c ∷ take n p.cs) p.left))
                (omega (arith, open_end)) shorter joined end early in
            (
              z,
              resp_loop_round fuel before size fits p
                  ∙ rw (early before' p.left joined (omega (arith, open_end))) e,
              lt,
            )
      ]
    where
      n : ℕ
      n = limit before size

      p : Next rest line left n
      p = Next-piece n pos o

      before' : List ℕ
      before' = before ++ (p.c ∷ take n p.cs)

      size' : ℕ
      size' = grown (length before) size

      joined : before' ++ p.left ≡ resp
      joined =
          append_assoc before (p.c ∷ take n p.cs) p.left ∙ ap (λ q. before ++ q) (sym p.cut) ∙ whole

      whole' : length p.left ≡ 0 → before' ≡ resp
      whole' e =
          sym (append-nil before') ∙ ap (λ q. before' ++ q) (sym (length-zero p.left e)) ∙ joined

      shorter : length before' < size'
      shorter = omega (
        arith,
        length-append before (p.c ∷ take n p.cs),
        length-take n p.cs,
        limit-lt before size fits,
      )

  -- With memory enough, if the modem sends, in any pieces, a response that is complete at its end
  -- and not before, xgsm_readresp returns exactly that response, which fits its buffer with the NUL
  -- behind it, and takes no byte behind it but by xgsm_flushin.
  pub xgsm_readresp-Offers :
      (l : Line) {rest : List Answer} (resp : List ℕ)
      → ((n : ℕ) → malloc n ≡ true)
      → Offers rest l.answers resp
      → xgsm_eoc resp ≡ true
      → ((u v : List ℕ) → u ++ v ≡ resp → 0 < length v → xgsm_eoc u ≡ false)
      → (size : ℕ) × (resp_loop realloc (weight l.answers + 1) [] 128 l.answers
          ≡ response resp size rest)
        × (length resp < size)
        × (xgsm_readresp realloc malloc l
            ≡ some (some resp, with_answers l (flush (weight rest + 1) rest)))
  xgsm_readresp-Offers l {rest} resp memory o end early =
      let (size, e, lt) =
        resp_loop-Offers (weight l.answers + 1) [] resp resp 128 o (omega (arith, weight-Offers o))
          (eoc_some resp end) (omega arith) refl end early in
      (size, e, lt, rw (memory 128, e) refl)
