-- ===== src/Xgsm/Modem/WantReply.antt =====
-- What xgsm_want_reply makes of what the modem sends, however it comes in pieces.
use trivia.Prelude.{
  ℕ, zero, suc, ◌+◌, ◌≤◌, ◌≡◌, refl, sym, ap, ap₂, ◌∙◌, true, some, List, [], ◌∷◌, ◌++◌, length,
  take, drop, length-take, arith, min,
}
use mathlib.Core.Path.{subst}
use trivia.Prelude.Text.{same_letter}
use trivia.Xgsm.Modem.Line.{Answer, Line, push_back, with_answers, read_answer}
use trivia.Xgsm.Modem.Reply.{Wanted, matches, match_block, want_more, want_loop, xgsm_want_reply}
use trivia.Xgsm.Modem.Offers.{Offers, Next, Next-piece}

-- The same letters, in any case.
pub data Like : List ℕ → List ℕ → Type 0 where
  nil : Like [] []
  letter :
      {c b : ℕ} {reply said : List ℕ}
      → same_letter c b ≡ true
      → Like reply said
      → Like (c ∷ reply) (b ∷ said)

length-Like : {reply said : List ℕ} → Like reply said → length reply ≡ length said
length-Like nil = refl
length-Like (letter e l) = ap suc (length-Like l)

tail_eq : {a b : ℕ} {xs ys : List ℕ} → (a ∷ xs) ≡ (b ∷ ys) → (a ≡ b) × (xs ≡ ys)
tail_eq e = (cc, cc)

record Matched (reply got left more : List ℕ) : Type 0 where
  reply' : List ℕ
  said' : List ℕ
  block : match_block reply got ≡ some reply'
  like : Like reply' said'
  cut : left ≡ said' ++ more
  size : length reply ≡ length got + length reply'

match_block-Like :
    {reply said : List ℕ} (got left more : List ℕ)
    → Like reply said
    → got ++ left ≡ said ++ more
    → length got ≤ length said
    → Matched reply got left more
match_block-Like {reply} {said} [] left more l e h = record {
  reply' = reply;
  said' = said;
  block = refl;
  like = l;
  cut = e;
  size = omega arith;
}
match_block-Like (g ∷ got) left more nil e h = absurd (omega arith)
match_block-Like (g ∷ got) left more (letter {c} {b} {reply} {said} s l) e h =
    let (same, e') = tail_eq e in
    let m = match_block-Like got left more l e' (omega arith) in
    let this : same_letter c g ≡ true = ap (same_letter c) same ∙ s in
    record {
      reply' = m.reply';
      said' = m.said';
      block = rw this m.block;
      like = m.like;
      cut = m.cut;
      size = omega (arith, m.size);
    }

want_more-block :
    (again : List ℕ → List Answer → Wanted × List Answer)
    → (reply : List ℕ) (b : ℕ) (bs : List ℕ) {reply' : List ℕ} (rest : List Answer)
    → match_block reply (b ∷ bs) ≡ some reply'
    → want_more again reply (some (b ∷ bs), rest) ≡ again reply' rest
want_more-block again reply b bs rest e = rw (want_more, e) refl

want_loop_round :
    (fuel n c : ℕ) (reply : List ℕ) {rest line : List Answer} {reply' left : List ℕ}
    → (p : Next rest line left n) → min (length (c ∷ reply)) 32 ≡ suc n
    → match_block (c ∷ reply) (p.c ∷ take n p.cs) ≡ some reply'
    → want_loop (suc fuel) (c ∷ reply) line ≡ want_loop fuel reply' (push_back (drop n p.cs) p.more)
unfolding want_loop
want_loop_round fuel n c reply {reply'} p limit block =
    ap (λ a. want_more again (c ∷ reply) a) (ap₂ read_answer limit p.head)
    ∙ want_more-block again (c ∷ reply) p.c (take n p.cs) (push_back (drop n p.cs) p.more) block
  where
    again : List ℕ → List Answer → Wanted × List Answer
    again reply' rest' = want_loop fuel reply' rest'

-- If the line gives what is wanted, in any case of the letters and any pieces, the loop finds it and
-- takes no byte behind it.
want_loop-Like :
    (fuel : ℕ) {rest line : List Answer} {reply said more : List ℕ}
    → Like reply said
    → Offers rest line (said ++ more)
    → length reply ≤ fuel
    → (line' : List Answer) × (want_loop fuel reply line ≡ (matches, line'))
      × Offers rest line' more
want_loop-Like fuel {line} nil o h = (line, unfold want_loop in refl, o)
want_loop-Like zero (letter s l) o h = absurd (omega arith)
want_loop-Like (suc fuel) {rest} {line} {more} (letter {c} {b} {reply} {said} s l) o h =
    let (line', e, o') =
      want_loop-Like fuel m.like
        (subst (Offers rest (push_back (drop n p.cs) p.more)) m.cut p.offers)
        (omega (arith, m.size)) in
    (line', want_loop_round fuel n c reply p (omega arith) m.block ∙ e, o')
  where
    n : ℕ
    n = min (length reply) 31

    p : Next rest line (b ∷ (said ++ more)) n
    p = Next-piece n (omega arith) o

    m : Matched (c ∷ reply) (p.c ∷ take n p.cs) p.left more
    m =
        match_block-Like (p.c ∷ take n p.cs) p.left more (letter s l) (sym p.cut)
          (omega (arith, length-take n p.cs, length-Like l))

-- If the modem sends the reply that is wanted, in any case of the letters and in any pieces, then
-- xgsm_want_reply returns 1, and the next read gets what follows the reply.
pub xgsm_want_reply-Like :
    (l : Line) {rest : List Answer} {reply said more : List ℕ}
    → Like reply said
    → Offers rest l.answers (said ++ more)
    → (line : List Answer) × (xgsm_want_reply reply l ≡ some (matches, with_answers l line))
      × Offers rest line more
xgsm_want_reply-Like l {reply} h o =
    let (line, e, o') = want_loop-Like (length reply) h o (omega arith) in (line, rw e refl, o')
