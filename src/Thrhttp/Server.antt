-- ===== src/Thrhttp/Server.antt =====
-- thrhttp.c, send_doc, send_mem, send_url and thproc: the requests of a connection and their responses.
pub mod Quietness
pub mod Termination
use trivia.Prelude.{
  ℕ, zero, suc, ◌+◌, Bool, true, false, ◌&&◌, ◌||◌, not, Option, none, some, List, [], ◌∷◌, length,
  drop, ◌==◌, if◌then◌else◌,
}
use trivia.Prelude.Int.{ℤ, pos}
use trivia.Prelude.Text.{ascii, equals_nocase}
use trivia.Thrplhttp.Connection.{
  returns, faults, unfinished, Action, pure, and_then, ◌>>=◌, ◌>>◌, send_bytes, bstream_open,
}
use trivia.Thrplhttp.Http.{
  header_text, not_found_text, ok_text, bad_request_text, TxMode, tx_sendfile, tx_mmap, Host,
  doc_path, sendfile_tx, add_bytes, counted, mem_bytes, sent_all, starts,
}
use trivia.Thrplhttp.Http.Session.{
  c_string, Token, overrun, no_token, token, strtok_r, Request, crash, bad, request, Headers,
  set_header, connection_word, count_request, no_headers,
}
use trivia.Thrhttp.Stream.{bstream_readln, bstream_printf}

abbrev pub internal_error_text : List ℕ → List ℕ → List ℕ
internal_error_text ver cclose =
    header_text ver (ascii " 500 Internal server error") cclose (ascii "0")

-- A file that cannot be mapped is an error.
abbrev pub mmap_tx : Host → List ℕ → Action Bool
mmap_tx h contents =
    if h.mmaps (length contents)
    then (do txcnt ← send_bytes contents; pure (txcnt == length contents))
    else pure false

abbrev pub send_file : Host → TxMode → List ℕ → List ℕ → Action Bool
send_file h tx_sendfile path contents = sendfile_tx h path contents
send_file h tx_mmap path contents = mmap_tx h contents

abbrev pub send_found : Host → List ℕ → List ℕ → List ℕ → Option (List ℕ) → Action Bool
send_found h path ver cclose none = do
  bstream_printf h.malloc (not_found_text ver cclose)
  pure false
send_found h path ver cclose (some contents) = do
  bstream_printf h.malloc (ok_text ver cclose (pos (length contents)))
  done ← send_file h h.txmode path contents
  counted (length contents) done

abbrev pub send_doc : Host → List ℕ → List ℕ → List ℕ → Action Bool
send_doc h doc ver cclose =
    if h.malloc (length (doc_path h doc) + 1)
    then send_found h (doc_path h doc) ver cclose (h.files (doc_path h doc))
    else (do bstream_printf h.malloc (internal_error_text ver cclose); pure false)

abbrev pub send_mem : Host → ℤ → List ℕ → List ℕ → Action Bool
send_mem h size ver cclose = do
  bstream_printf h.malloc (ok_text ver cclose size)
  msent ← mem_bytes size
  add_bytes msent
  pure (sent_all size msent)

-- The request line, which ends with a NUL.
abbrev pub with_version : List ℕ → List ℕ → Token → Request
with_version meth doc overrun = crash
with_version meth doc no_token = bad
with_version meth doc (token ver rest) =
    if equals_nocase (ascii "GET") meth then request meth doc ver else bad

abbrev pub with_doc : List ℕ → Token → Request
with_doc meth overrun = crash
with_doc meth no_token = bad
with_doc meth (token doc rest) = with_version meth doc (strtok_r true (32 ∷ 13 ∷ 10 ∷ []) rest)

abbrev pub with_method : Token → Request
with_method overrun = crash
with_method no_token = bad
with_method (token meth rest) = with_doc meth (strtok_r true (32 ∷ []) rest)

unfoldable pub parse_request : List ℕ → Request
parse_request ln = with_method (strtok_r true (32 ∷ []) ln)

-- strcmp(ln, "\r\n") == 0
abbrev pub is_blank : List ℕ → Bool
is_blank (c ∷ d ∷ []) = (c == 13) && (d == 10)
is_blank _ = false

module _ (atol atoi : List ℕ → ℤ) (h : Host) where
  abbrev pub send_url : List ℕ → List ℕ → List ℕ → Action Bool
  send_url doc ver cclose =
      if starts (ascii "/mem-") doc
      then send_mem h (atol (drop 5 doc)) ver cclose
      else send_doc h doc ver cclose

  -- A header line; the loop ends at NULL, and at a line that holds only CR and LF.
  abbrev pub headed : (Headers → Action Headers) → Headers → Option (List ℕ) → Action Headers
  headed again hs none = pure hs
  headed again hs (some ln) =
      if is_blank (c_string ln) then pure hs else again (set_header atol atoi h hs (c_string ln))

  unfoldable pub read_headers : ℕ → Headers → Action Headers
  read_headers zero hs c = unfinished
  read_headers (suc fuel) hs c =
      and_then (bstream_readln h.malloc c) (λ ln. headed (λ hs'. read_headers fuel hs') hs ln)

  abbrev pub bad_request : Action Bool
  bad_request = do bstream_printf h.malloc bad_request_text; pure false

  -- Behind the headers. The result tells if the loop goes on.
  abbrev pub answer : List ℕ → List ℕ → Headers → Action Bool
  answer doc ver hs =
      if not (hs.clen == 0) || hs.chunked
      then bad_request
      else (do send_url doc ver (connection_word hs.cclose); pure (not hs.cclose))

  abbrev pub respond : ℕ → Request → Action Bool
  respond fuel crash = λ c. faults
  respond fuel bad = bad_request
  respond fuel (request meth doc ver) = do
    count_request
    hs ← read_headers fuel (no_headers ver)
    answer doc ver hs

  -- One round of the loop.
  abbrev pub one_request : ℕ → Option (List ℕ) → Action Bool
  one_request fuel none = pure false
  one_request fuel (some ln) = respond fuel (parse_request (c_string ln))

  -- The loop; `stopped` tells for each round if `stopsvr` is set at its end, and each list of
  -- header lines gets as many rounds as are left.
  unfoldable pub session_loop : (ℕ → Bool) → ℕ → Action (Unit {0})
  session_loop stopped zero c = unfinished
  session_loop stopped (suc fuel) c =
      and_then (and_then (bstream_readln h.malloc c) (λ ln. one_request fuel ln))
        (λ on. if not (stopped fuel) && on then session_loop stopped fuel else pure tt)

  -- Without memory for the stream the connection is closed.
  abbrev pub thproc : (ℕ → Bool) → ℕ → List ℕ → Action (Unit {0})
  thproc stopped fuel memory c =
      if h.malloc 4120 then session_loop stopped fuel (bstream_open memory c) else returns tt c
