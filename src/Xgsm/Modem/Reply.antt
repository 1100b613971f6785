-- ===== src/Xgsm/Modem/Reply.antt =====
-- xgsm.c, xgsm_eoc, xgsm_readresp and xgsm_want_reply: what the modem answers.
use trivia.Prelude.{
  ℕ, zero, suc, ◌+◌, ◌-◌, ◌*◌, Bool, true, false, ◌&&◌, ◌||◌, not, Option, none, some, List, [],
  ◌∷◌, ◌++◌, length, take, drop, get_or, leb, ◌==◌, min, if◌then◌else◌,
}
use trivia.Prelude.Text.{ascii, same_letter, starts_nocase}
use trivia.Xgsm.Modem.Line.{
  Answer, quiet, hangup, broken, data_in, Action, read_answer, push_back, with_answers, weight,
  xgsm_flushin, pure, ◌>>◌,
}

abbrev pub crlf : List ℕ
crlf = 13 ∷ 10 ∷ []

-- Back from `sol`, which is `k - 1`, to a line feed.
unfoldable pub find_sol : List ℕ → ℕ → Option ℕ
find_sol resp zero = none
find_sol resp (suc k) =
    let before = find_sol resp k in if get_or resp k 0 == 10 then some k else before

-- From the line feed on, the end of the response included.
unfoldable pub is_final : List ℕ → Bool
is_final sol =
    starts_nocase (10 ∷ ascii "OK" ++ crlf) sol
    || starts_nocase (10 ∷ ascii "ERROR" ++ crlf) sol
    || starts_nocase (10 ∷ ascii "NO CARRIER" ++ crlf) sol
    || starts_nocase (10 ∷ ascii "+CMS ERROR:") sol
    || starts_nocase (10 ∷ ascii "+CME ERROR:") sol

-- memcmp(…, CRLF_STR, 2) == 0
abbrev pub is_crlf : List ℕ → Bool
is_crlf (c ∷ d ∷ []) = c == 13 && d == 10
is_crlf _ = false

unfoldable pub xgsm_eoc : List ℕ → Bool
xgsm_eoc resp =
    if leb (length resp) 2 || not (is_crlf (drop (length resp - 2) resp))
    then false
    else elim (find_sol resp (length resp - 2)) [
      | none ↦ false
      | some sol ↦ is_final (drop sol resp)
    ]

-- How xgsm_readresp goes on after a read that blocks: `hangs` when nothing ever comes.
pub data Reading : Type 0 where
  hangs : Reading
  fails : (rest : List Answer) → Reading
  reads : (bytes : List ℕ) (rest : List Answer) → Reading

-- `read(fd, …, n)`, with no poll before it.
abbrev pub read_blocking : ℕ → List Answer → Reading
read_blocking n [] = hangs
read_blocking n (quiet ∷ rest) = read_blocking n rest
read_blocking n (hangup ∷ rest) = read_blocking n rest
read_blocking n (broken ∷ rest) = fails rest
read_blocking n (data_in bytes ∷ rest) = reads (take n bytes) (push_back (drop n bytes) rest)

-- How the loop of xgsm_readresp ends: with NULL, or with the response and the size of its buffer.
pub data Response : Type 0 where
  waits : Response
  null : (rest : List Answer) → Response
  response : (resp : List ℕ) (size : ℕ) (rest : List Answer) → Response

-- `resp` holds what was read; the buffer grows when it is full but for one byte.
abbrev pub grown : ℕ → ℕ → ℕ
grown rdbytes size = if leb size (rdbytes + 1) then size * 2 else size

module _ (realloc : ℕ → Bool) where
  abbrev pub room : ℕ → ℕ → Bool
  room rdbytes size = if leb size (rdbytes + 1) then realloc (size * 2) else true

  -- Behind the read.
  abbrev pub got_bytes : (List ℕ → List Answer → Response) → List ℕ → ℕ → Reading → Response
  got_bytes again resp size hangs = waits
  got_bytes again resp size (fails rest) = null rest
  got_bytes again resp size (reads bytes rest) =
      if xgsm_eoc (resp ++ bytes)
      then response (resp ++ bytes) size rest
      else again (resp ++ bytes) rest

  -- The loop; each round reads a byte or takes up an answer.
  unfoldable pub resp_loop : ℕ → List ℕ → ℕ → List Answer → Response
  resp_loop zero resp size rest = waits
  resp_loop (suc fuel) resp size rest =
      let size' = grown (length resp) size in
      if room (length resp) size
      then got_bytes (λ resp' rest'. resp_loop fuel resp' size' rest') resp size'
          (read_blocking (size' - length resp - 1) rest)
      else null rest

  abbrev pub finish : Response → Action (Option (List ℕ))
  finish waits l = none
  finish (null rest) l = some (none, with_answers l rest)
  finish (response resp size rest) l = (xgsm_flushin >> pure (some resp)) (with_answers l rest)

  abbrev pub xgsm_readresp : (ℕ → Bool) → Action (Option (List ℕ))
  xgsm_readresp malloc l =
      if malloc 128
      then finish (resp_loop (weight l.answers + 1) [] 128 l.answers) l
      else some (none, l)

-- The result of xgsm_want_reply: -1, 0 or 1.
pub data Wanted : Type 0 where
  ended : Wanted
  differs : Wanted
  matches : Wanted

-- The comparison of one block, and what is left of `reply`.
abbrev pub match_block : List ℕ → List ℕ → Option (List ℕ)
match_block reply [] = some reply
match_block [] (b ∷ bs) = none
match_block (c ∷ reply) (b ∷ bs) = if same_letter c b then match_block reply bs else none

-- Behind one call of xgsm_read.
abbrev pub want_more :
    (List ℕ → List Answer → Wanted × List Answer)
    → List ℕ
    → Option (List ℕ) × List Answer
    → Wanted × List Answer
want_more again reply (none, rest) = (ended, rest)
want_more again reply (some [], rest) = (ended, rest)
want_more again reply (some (b ∷ bs), rest) = elim (match_block reply (b ∷ bs)) [
  | none ↦ (differs, rest)
  | some reply' ↦ again reply' rest
]

-- The loop, for as many rounds as `reply` has bytes.
unfoldable pub want_loop : ℕ → List ℕ → List Answer → Wanted × List Answer
want_loop fuel [] rest = (matches, rest)
want_loop zero (c ∷ reply) rest = (ended, rest)
want_loop (suc fuel) (c ∷ reply) rest =
    want_more (λ reply' rest'. want_loop fuel reply' rest') (c ∷ reply)
      (read_answer (min (length (c ∷ reply)) 32) rest)

abbrev pub xgsm_want_reply : List ℕ → Action Wanted
xgsm_want_reply reply l =
    let (result, rest) = want_loop (length reply) reply l.answers in
    some (result, with_answers l rest)
