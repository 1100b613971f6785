-- ===== src/Xgsm/Modem/Line.antt =====
-- xgsm.c, xgsm_read, xgsm_flushin and xgsm_write. The serial line is a sequence of results for the
-- calls that read and one for those that write, and the log of what the program tried to write.
use trivia.Prelude.{ℕ, zero, suc, ◌+◌, Option, none, some, List, [], ◌∷◌, ◌++◌, length, take, drop}

-- A call of poll that fails or times out; a poll without POLLIN; a read that fails; bytes to read, and
-- with none of them the end of the file.
pub data Answer : Type 0 where
  quiet : Answer
  hangup : Answer
  broken : Answer
  data_in : (bytes : List ℕ) → Answer

-- A call of poll or write that fails; a poll without POLLOUT; how many bytes were written.
pub data Written : Type 0 where
  failed : Written
  not_ready : Written
  wrote : (count : ℕ) → Written

pub record Line : Type 0 where
  pub answers : List Answer
  pub writes : List Written
  pub sent : List (List ℕ)

-- An operation of the program on the line; `none` is one that never returns.
abbrev pub Action : Type 0 → Type 0
Action A = Line → Option (A × Line)

module _ {A : Type 0} where
  abbrev pub pure : A → Action A
  pure a l = some (a, l)

module _ {A B : Type 0} where
  infixl 5 ◌>>=◌ ◌>>◌
  abbrev pub ◌>>=◌ : Action A → (A → Action B) → Action B
  ◌>>=◌ m f l = elim (m l) [ none ↦ none | some (a, l') ↦ f a l' ]

  abbrev pub ◌>>◌ : Action A → Action B → Action B
  m >> k = m >>= λ _. k

-- What a read of at most `n` bytes leaves for the next.
abbrev pub push_back : List ℕ → List Answer → List Answer
push_back [] rest = rest
push_back (b ∷ bs) rest = data_in (b ∷ bs) ∷ rest

abbrev pub with_answers : Line → List Answer → Line
with_answers l rest = record l { answers = rest }

-- The result -1 is `none`. When nothing more comes, poll times out.
abbrev pub read_answer : ℕ → List Answer → Option (List ℕ) × List Answer
read_answer n [] = (none, [])
read_answer n (quiet ∷ rest) = (none, rest)
read_answer n (hangup ∷ rest) = (some [], rest)
read_answer n (broken ∷ rest) = (none, rest)
read_answer n (data_in bytes ∷ rest) = (some (take n bytes), push_back (drop n bytes) rest)

abbrev pub xgsm_read : ℕ → Action (Option (List ℕ))
xgsm_read n l = let (got, rest) = read_answer n l.answers in some (got, with_answers l rest)

-- `n > 0` in the loop of xgsm_flushin.
abbrev pub flush_more : (List Answer → List Answer) → Option (List ℕ) × List Answer → List Answer
flush_more again (none, rest) = rest
flush_more again (some [], rest) = rest
flush_more again (some (b ∷ bs), rest) = again rest

-- The loop, with its number of rounds bounded by what there is to read.
unfoldable pub flush : ℕ → List Answer → List Answer
flush zero rest = rest
flush (suc fuel) rest = flush_more (λ rest'. flush fuel rest') (read_answer 64 rest)

abbrev pub weight : List Answer → ℕ
weight [] = 0
weight (data_in bytes ∷ rest) = 1 + length bytes + weight rest
weight (_ ∷ rest) = 1 + weight rest

abbrev pub xgsm_flushin : Action (Unit {0})
xgsm_flushin l = some (tt, with_answers l (flush (weight l.answers + 1) l.answers))

-- The result of a write: -1 is `none`. When no result is left, poll with no time limit never
-- returns.
abbrev pub xgsm_write : List ℕ → Action (Option ℕ)
xgsm_write bytes l = write_result l.writes
  where
    write_result : List Written → Option (Option ℕ × Line)
    write_result [] = none
    write_result (failed ∷ ws) =
        some (none, record l { writes = ws; sent = l.sent ++ (bytes ∷ []) })
    write_result (not_ready ∷ ws) =
        some (some 0, record l { writes = ws; sent = l.sent ++ (bytes ∷ []) })
    write_result (wrote count ∷ ws) =
        some (some count, record l { writes = ws; sent = l.sent ++ (bytes ∷ []) })
