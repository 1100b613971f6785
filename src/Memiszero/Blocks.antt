-- ===== src/Memiszero/Blocks.antt =====
-- The loop over the words, and what stands before and behind it.
use trivia.Prelude.{
  ℕ, zero, suc, ◌+◌, ◌*◌, ◌/◌, ◌%◌, ◌^◌, ◌≤◌, ◌<◌, ◌≡◌, refl, ◌∙◌, true, false, ◌&&◌, some, ltb,
  ◌==◌, if◌then◌else◌, arith, lt→ltb,
}
use native.Mathlib.Nat.{add-mod_right}
use trivia.Memiszero.{Memory, words, stop, reached, bytes_loop, after_lead, memiszero_by, lead}
use trivia.Memiszero.Reads.{all_zero, all_zero-add, Readable, or_bytes_lem, load_word_lem}

-- `rounds` words from `p` up to `t`.
pub words_lem :
    (m : Memory) (width rounds fuel p t : ℕ)
    → 0 < width
    → p % width ≡ 0
    → t ≡ p + rounds * width
    → rounds < fuel
    → Readable m p (rounds * width)
    → words fuel m width p t ≡ some (if all_zero m.byte p (rounds * width) then reached t else stop)
unfolding words
words_lem m width rounds zero p t w a e f h = absurd (omega arith)
words_lem m width zero (suc fuel) p t w a e f h =
    let here : p ≡ t = omega arith in
    let none_left : zero * width ≡ 0 = omega arith in
    rw (none_left, here) (unfold all_zero in ground arith)
words_lem m width (suc rounds) (suc fuel) p t w a e f h =
    let more : suc rounds * width ≡ width + rounds * width = omega arith in
    let (v, made, tests) = load_word_lem m width p a (omega (arith, more)) in
    let rest =
      words_lem m width rounds fuel (p + width) t w (add-mod_right p width ∙ a)
        (omega (arith, more)) (omega arith) (omega (arith, more)) in
    let before : ltb p t ≡ true = lt→ltb p t (omega (arith, more)) in
    rw (before, made, more, all_zero-add m.byte width (rounds * width) p, ← tests, rest)
      (ground arith)

bytes_loop_lem :
    (m : Memory) (n p z : ℕ)
    → Readable m p n
    → bytes_loop m n p z ≡ some (if z == 0 && all_zero m.byte p n then 1 else 0)
unfolding bytes_loop
bytes_loop_lem m n p z h = let (z', made, tests) = or_bytes_lem m n p z h in rw (made, ← tests) refl

after_lead_lem :
    (m : Memory) (width tail rounds p t z : ℕ)
    → 0 < width
    → p % width ≡ 0
    → t ≡ p + rounds * width
    → Readable m p (rounds * width + tail)
    → after_lead m width tail p t z
      ≡ some (if z == 0 && all_zero m.byte p (rounds * width + tail) then 1 else 0)
unfolding after_lead
after_lead_lem m width tail rounds p t z w a e h =
    let few : rounds ≤ rounds * width = grind arith in
    let middle =
      words_lem m width rounds (t + 1) p t w a e (omega (arith, few, e))
        (omega (arith, h.0, h.1)) in
    let end = bytes_loop_lem m tail t z (omega (arith, e, h.0, h.1)) in
    rw (all_zero-add m.byte (rounds * width) tail p, ← e, middle) (ground (arith, end))

-- A block cut into the bytes up to the first word, whole words, and the bytes behind them.
pub memiszero_by_lem :
    (m : Memory) (width p n rounds : ℕ)
    → 0 < width
    → width ≤ n
    → p + n < 2 ^ 64
    → (p + lead width p) % width ≡ 0
    → (p + n) / width * width ≡ p + lead width p + rounds * width
    → lead width p + (rounds * width + (p + n) % width) ≡ n
    → Readable m p n
    → memiszero_by width m p n ≡ some (if all_zero m.byte p n then 1 else 0)
unfolding memiszero_by
memiszero_by_lem m width p n rounds w long fits aligned top cut h =
    let head : ℕ = lead width p in
    let tail : ℕ = (p + n) % width in
    let whole : (p + n) % 2 ^ 64 ≡ p + n = omega arith in
    let (z, made, tests) = or_bytes_lem m head p 0 (omega (arith, h.0, h.1, cut)) in
    let rest =
      after_lead_lem m width tail rounds (p + head) ((p + n) / width * width) z w aligned top
        (omega (arith, h.0, h.1, cut)) in
    let parts = all_zero-add m.byte head (rounds * width + tail) p in
    let enough : ltb n width ≡ false = ground arith in
    rw (whole, enough, made, rest, tests, ← parts, cut)

-- A block shorter than a word is read byte by byte.
pub memiszero_by_short :
    (m : Memory) (width p n : ℕ)
    → n < width
    → Readable m p n
    → memiszero_by width m p n ≡ some (if all_zero m.byte p n then 1 else 0)
unfolding memiszero_by
memiszero_by_short m width p n short h = rw (lt→ltb n width short, bytes_loop_lem m n p 0 h)
