-- ===== src/Xgsm/Modem/Offers.antt =====
-- What the modem sends, however it comes in pieces.
use trivia.Prelude.{
  ℕ, ◌≤◌, ◌<◌, ◌≡◌, refl, sym, ap, ◌∙◌, List, [], ◌∷◌, ◌++◌, length, take, drop, length-append,
  take-append-drop, arith, append_assoc,
}
use trivia.Xgsm.Modem.Line.{Answer, data_in, push_back, weight}

-- The line gives these bytes, in any pieces, and then goes on with `rest`.
pub data Offers (rest : List Answer) : List Answer → List ℕ → Type 0 where
  done : Offers rest rest []
  piece :
      {c : ℕ} {cs ys : List ℕ} {more : List Answer}
      → Offers rest more ys
      → Offers rest (data_in (c ∷ cs) ∷ more) (c ∷ (cs ++ ys))

pub push_back-Offers :
    {rest more : List Answer} {ys : List ℕ} (left : List ℕ)
    → Offers rest more ys
    → Offers rest (push_back left more) (left ++ ys)
push_back-Offers [] o = o
push_back-Offers (c ∷ cs) o = piece o

pub weight-Offers :
    {rest line : List Answer} {ys : List ℕ} → Offers rest line ys → length ys ≤ weight line
weight-Offers done = omega arith
weight-Offers (piece {c} {cs} {ys} o) = omega (arith, length-append cs ys, weight-Offers o)

-- A read of at most `n + 1` bytes where some are left.
pub record Next (rest line : List Answer) (ys : List ℕ) (n : ℕ) : Type 0 where
  pub c : ℕ
  pub cs : List ℕ
  pub more : List Answer
  pub left : List ℕ
  pub head : line ≡ data_in (c ∷ cs) ∷ more
  pub cut : ys ≡ (c ∷ take n cs) ++ left
  pub offers : Offers rest (push_back (drop n cs) more) left

pub Next-piece :
    {rest line : List Answer} {ys : List ℕ} (n : ℕ)
    → 0 < length ys
    → Offers rest line ys
    → Next rest line ys n
Next-piece n pos done = absurd (omega arith)
Next-piece n pos (piece {c} {cs} {ys} {more} o) = record {
  c = c;
  cs = cs;
  more = more;
  left = drop n cs ++ ys;
  head = refl;
  cut =
      ap (λ q. c ∷ (q ++ ys)) (sym (take-append-drop n cs))
      ∙ ap (λ q. c ∷ q) (append_assoc (take n cs) (drop n cs) ys);
  offers = push_back-Offers (drop n cs) o;
}

pub Offers-nil :
    {rest line : List Answer} {ys : List ℕ} → Offers rest line ys → length ys ≡ 0 → line ≡ rest
Offers-nil done e = refl
Offers-nil (piece o) e = absurd (omega arith)
