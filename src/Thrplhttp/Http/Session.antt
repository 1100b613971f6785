-- ===== src/Thrplhttp/Http/Session.antt =====
-- thrplhttp.c, process_session: the requests of a connection.
pub mod Parsing
pub mod HeaderLines
pub mod Rounds
pub mod Termination
use trivia.Prelude.{
  ℕ, zero, suc, ◌+◌, ◌-◌, ◌%◌, ◌^◌, Bool, true, false, ◌&&◌, ◌||◌, not, Option, none, some, List,
  [], ◌∷◌, ◌++◌, length, take, drop, ◌==◌, ltb, leb, if◌then◌else◌,
}
use trivia.Prelude.Int.{ℤ, pos, negsuc}
use trivia.Prelude.Text.{ascii, starts_nocase, equals_nocase}
use trivia.Thrplhttp.Stream.{size_t}
use trivia.Thrplhttp.Connection.{
  Connection, Run, returns, waits, faults, exits, unfinished, Action, pure, and_then, ◌>>=◌, ◌>>◌,
  bstream_readln, bstream_printf, bstream_open,
}
use trivia.Thrplhttp.Http.{Host, bad_request_text, send_url, starts}

-- The C string at the beginning of some bytes.
abbrev pub c_string : List ℕ → List ℕ
c_string [] = []
c_string (c ∷ cs) = let rest = c_string cs in if c == 0 then [] else c ∷ rest

-- strncpy(req, ln, sizeof(req)): the characters, and whether a NUL is behind them.
abbrev pub copied : List ℕ → List ℕ × Bool
copied ln = (take 2048 ln, ltb (length ln) 2048)

abbrev pub among : List ℕ → ℕ → Bool
among [] c = false
among (d ∷ delim) c = (c == d) || among delim c

abbrev pub skip_over : List ℕ → List ℕ → List ℕ
skip_over delim [] = []
skip_over delim (c ∷ cs) = let rest = skip_over delim cs in if among delim c then rest else c ∷ cs

-- A token, and what is behind the delimiter at its end, if there is one.
abbrev pub cons_token : ℕ → List ℕ × Option (List ℕ) → List ℕ × Option (List ℕ)
cons_token c (tok, rest) = (c ∷ tok, rest)

abbrev pub break_at : List ℕ → List ℕ → List ℕ × Option (List ℕ)
break_at delim [] = ([], none)
break_at delim (c ∷ cs) =
    let rest = break_at delim cs in if among delim c then ([], some cs) else cons_token c rest

-- strtok_r on characters that end with a NUL, or do not and run out of `req`.
pub data Token : Type 0 where
  overrun : Token
  no_token : Token
  token : (tok rest : List ℕ) → Token

abbrev pub ended_token : Bool → List ℕ × Option (List ℕ) → Token
ended_token nul (tok, some rest) = token tok rest
ended_token nul (tok, none) = if nul then token tok [] else overrun

abbrev pub skipped_token : Bool → List ℕ → List ℕ → Token
skipped_token nul delim [] = if nul then no_token else overrun
skipped_token nul delim (c ∷ cs) = ended_token nul (break_at delim (c ∷ cs))

abbrev pub strtok_r : Bool → List ℕ → List ℕ → Token
strtok_r nul delim text = skipped_token nul delim (skip_over delim text)

pub data Request : Type 0 where
  crash : Request
  bad : Request
  request : (meth doc ver : List ℕ) → Request

abbrev pub with_version : List ℕ → List ℕ → Token → Request
with_version meth doc overrun = crash
with_version meth doc no_token = bad
with_version meth doc (token ver rest) =
    if equals_nocase (ascii "GET") meth then request meth doc ver else bad

abbrev pub with_doc : Bool → List ℕ → Token → Request
with_doc nul meth overrun = crash
with_doc nul meth no_token = bad
with_doc nul meth (token doc rest) = with_version meth doc (strtok_r nul (32 ∷ 13 ∷ []) rest)

abbrev pub with_method : Bool → Token → Request
with_method nul overrun = crash
with_method nul no_token = bad
with_method nul (token meth rest) = with_doc nul meth (strtok_r nul (32 ∷ []) rest)

unfoldable pub parse_request : List ℕ → Request
parse_request ln = let (req, nul) = copied ln in with_method nul (strtok_r nul (32 ∷ []) req)

-- What the header lines set.
pub record Headers : Type 0 where
  pub clen : ℕ
  pub chunked : Bool
  pub cclose : Bool

-- An int kept in a size_t.
abbrev pub to_size : ℤ → ℕ
to_size (pos n) = size_t n
to_size (negsuc n) = 2 ^ 64 - 1 - n % 2 ^ 64

abbrev pub value_of : ℕ → List ℕ → List ℕ
value_of n ln = skip_over (32 ∷ []) (drop n ln)

abbrev pub is_blank : List ℕ → Bool
is_blank (c ∷ []) = c == 13
is_blank _ = false

abbrev pub connection_word : Bool → List ℕ
connection_word cclose = if cclose then ascii "close" else ascii "keep-alive"

abbrev pub count_request : Action (Unit {0})
count_request c = returns tt (record c { reqs = size_t (c.reqs + 1) })

abbrev pub no_headers : List ℕ → Headers
no_headers ver = record {
  clen = 0;
  chunked = false;
  cclose = not (equals_nocase (ascii "HTTP/1.1") ver);
}

module _ (atol atoi : List ℕ → ℤ) (h : Host) where
  abbrev pub set_header : Headers → List ℕ → Headers
  set_header hs ln =
      if starts_nocase (ascii "Content-Length:") ln
      then record hs { clen = to_size (atoi (value_of 15 ln)) }
      else if starts_nocase (ascii "Connection:") ln
      then record hs { cclose = starts_nocase (ascii "close") (value_of 11 ln) }
      else if starts_nocase (ascii "Transfer-Encoding:") ln
      then record hs { chunked = starts_nocase (ascii "chunked") (value_of 18 ln) }
      else hs

  -- A header line; the loop ends at NULL, and at a line that holds only CR.
  abbrev pub headed : (Headers → Action Headers) → Headers → Option (List ℕ) → Action Headers
  headed again hs none = pure hs
  headed again hs (some ln) =
      if is_blank (c_string ln) then pure hs else again (set_header hs (c_string ln))

  unfoldable pub read_headers : ℕ → Headers → Action Headers
  read_headers zero hs c = unfinished
  read_headers (suc fuel) hs c =
      and_then (bstream_readln c) (λ ln. headed (λ hs'. read_headers fuel hs') hs ln)

  abbrev pub bad_request : Action Bool
  bad_request = do bstream_printf h.malloc bad_request_text; pure false

  -- Behind the headers. The result tells if the session goes on.
  abbrev pub answer : List ℕ → List ℕ → Headers → Action Bool
  answer doc ver hs =
      if not (hs.clen == 0) || hs.chunked
      then bad_request
      else (do send_url atol atoi h doc ver (connection_word hs.cclose); pure (not hs.cclose))

  abbrev pub respond : ℕ → Request → Action Bool
  respond fuel crash = λ c. faults
  respond fuel bad = bad_request
  respond fuel (request meth doc ver) = do
    count_request
    hs ← read_headers fuel (no_headers ver)
    answer doc ver hs

  -- One round of the loop.
  abbrev pub one_request : ℕ → Option (List ℕ) → Action Bool
  one_request fuel none = pure false
  one_request fuel (some ln) = respond fuel (parse_request (c_string ln))

  -- The loop; `stopped` tells for each round if `stopsvr` is set at its end, and each list of
  -- header lines gets as many rounds as are left.
  unfoldable pub session_loop : (ℕ → Bool) → ℕ → Action (Unit {0})
  session_loop stopped zero c = unfinished
  session_loop stopped (suc fuel) c =
      and_then (and_then (bstream_readln c) (λ ln. one_request fuel ln))
        (λ on. if not (stopped fuel) && on then session_loop stopped fuel else pure tt)

  abbrev pub process_session : (ℕ → Bool) → ℕ → List ℕ → Action (Unit {0})
  process_session stopped fuel memory c =
      if h.malloc 4120 then session_loop stopped fuel (bstream_open memory c) else exits c
