-- ===== src/Thrplhttp/Http/Session/Termination.antt =====
-- process_session comes to an end.
use trivia.Prelude.{
  ℕ, zero, suc, ◌+◌, ◌<◌, ◌≢◌, sym, Bool, false, not, ◌&&◌, ◌||◌, Option, none, some, List, drop,
  arith, ◌==◌, if◌then◌else◌,
}
use mathlib.Core.Path.{subst}
use trivia.Prelude.Int.{ℤ}
use trivia.Prelude.Text.{ascii}
use trivia.Thrplhttp.Stream.{size_t}
use trivia.Thrplhttp.Connection.{
  Connection, exits, unfinished, Action, pure, and_then, ◌>>=◌, bstream_open,
}
use trivia.Thrplhttp.Connection.Budget.{
  Below, Quiet, Below-weaken, Below-choice, Quiet-never, Below-if, Quiet-pure, Quiet-if,
  Below-and_then, Quiet-bind, Below-line, and_then_assoc,
}
use trivia.Thrplhttp.Connection.Budget.{Quiet-bstream_printf}
use trivia.Thrplhttp.Connection.{bstream_readln, bstream_printf}
use trivia.Thrplhttp.Connection.Pending.{total, budget, bstream_readln-Takes}
use trivia.Thrplhttp.Http.{Host, send_doc, send_mem, starts, send_url, bad_request_text}
use trivia.Thrplhttp.Http.Quietness.{Quiet-send_doc, Quiet-send_mem}
use trivia.Thrplhttp.Http.Session.{
  Headers, headed, read_headers, bad_request, answer, no_headers, respond, one_request,
  session_loop, process_session, Request, crash, bad, request, is_blank, c_string, set_header,
  parse_request, connection_word,
}

-- One recursive call of read_headers, or none.
Below-headed :
    (atol atoi : List ℕ → ℤ) (h : Host) (n : ℕ) (again : Headers → Action Headers) (hs : Headers)
    (ln : Option (List ℕ)) (c : Connection)
    → budget.Within n c
    → ((hs' : Headers) → Below budget n (again hs' c))
    → Below budget n (headed atol atoi h again hs ln c)
Below-headed atol atoi h n again hs none c w q = w
Below-headed atol atoi h n again hs (some ln) c w q =
    Below-choice budget n (is_blank (c_string ln)) (pure hs) (again hs') c w (q hs')
  where
    hs' : Headers
    hs' = set_header atol atoi h hs (c_string ln)

module _ (atol atoi : List ℕ → ℤ) (h : Host) where
  -- The rounds suffice for the header lines.
  read_headers-Below :
      (fuel : ℕ) (hs : Headers) (n : ℕ) (c : Connection)
      → n < fuel
      → budget.Within n c
      → Below budget n (read_headers atol atoi h fuel hs c)
  unfolding read_headers
  read_headers-Below zero hs n c lt w = absurd (omega arith)
  read_headers-Below (suc fuel) hs n c lt w =
      Below-line budget n (bstream_readln c) (headed atol atoi h again hs)
        (bstream_readln-Takes n c w) (λ c' w'. w')
        (λ ln c' m less w'.
          Below-headed atol atoi h n again hs (some ln) c'
            (budget.weaken m n c' (omega (arith, less)) w')
            (λ hs'.
              Below-weaken budget m n (again hs' c') (omega (arith, less))
                (read_headers-Below fuel hs' m c' (omega (arith, less, lt)) w')))
    where
      again : Headers → Action Headers
      again hs' = read_headers atol atoi h fuel hs'

  Quiet-bad_request : Quiet budget (bad_request atol atoi h)
  Quiet-bad_request =
      Quiet-bind budget (bstream_printf h.malloc bad_request_text) (λ _. pure false)
        (Quiet-bstream_printf budget h.malloc bad_request_text) (λ _. Quiet-pure budget false)

  Quiet-send_url : (doc ver cclose : List ℕ) → Quiet budget (send_url atol atoi h doc ver cclose)
  Quiet-send_url doc ver cclose =
      Quiet-if budget (starts (ascii "/mem-") doc) (send_mem h (atol (drop 5 doc)) ver cclose)
        (send_doc h doc ver cclose) (Quiet-send_mem budget h ver cclose (atol (drop 5 doc)))
        (Quiet-send_doc budget h ver cclose doc)

  Quiet-answer : (doc ver : List ℕ) (hs : Headers) → Quiet budget (answer atol atoi h doc ver hs)
  Quiet-answer doc ver hs =
      Quiet-if budget (not (hs.clen == 0) || hs.chunked) (bad_request atol atoi h) reply
        Quiet-bad_request
        (Quiet-bind budget (send_url atol atoi h doc ver word) (λ _. pure (not hs.cclose))
          (Quiet-send_url doc ver word) (λ _. Quiet-pure budget (not hs.cclose)))
    where
      word : List ℕ
      word = connection_word hs.cclose

      reply : Action Bool
      reply = send_url atol atoi h doc ver word >>= λ _. pure (not hs.cclose)

  respond-Below :
      (fuel : ℕ) (q : Request) (n : ℕ) (c : Connection)
      → n < fuel
      → budget.Within n c
      → Below budget n (respond atol atoi h fuel q c)
  respond-Below fuel crash n c lt w = tt
  respond-Below fuel bad n c lt w = Quiet-bad_request n c w
  respond-Below fuel (request meth doc ver) n c lt w =
      Below-and_then budget n (read_headers atol atoi h fuel (no_headers ver) c')
        (λ hs. answer atol atoi h doc ver hs)
        (read_headers-Below fuel (no_headers ver) n c' lt
          (budget.stable n c c.results c.wire c.tbytes (size_t (c.reqs + 1)) w))
        (λ hs c'' w'. Quiet-answer doc ver hs n c'' w')
    where
      c' : Connection
      c' = record c { reqs = size_t (c.reqs + 1) }

  module _ (stopped : ℕ → Bool) where
    -- The test of the loop, and the next round.
    abbrev loop_on : ℕ → Bool → Action (Unit {0})
    loop_on fuel on =
        if not (stopped fuel) && on then session_loop atol atoi h stopped fuel else pure tt

    session_loop-Below :
        (fuel n : ℕ) (c : Connection)
        → n < fuel
        → budget.Within n c
        → Below budget n (session_loop atol atoi h stopped fuel c)
    unfolding session_loop
    session_loop-Below zero n c lt w = absurd (omega arith)
    session_loop-Below (suc fuel) n c lt w =
        subst (Below budget n)
          (sym (and_then_assoc (bstream_readln c) (one_request atol atoi h fuel) (loop_on fuel)))
          (Below-line budget n (bstream_readln c)
            (λ ln c'. and_then (one_request atol atoi h fuel ln c') (loop_on fuel))
            (bstream_readln-Takes n c w)
            (Quiet-never budget (not (stopped fuel)) (session_loop atol atoi h stopped fuel)
              (pure tt) (Quiet-pure budget tt) n)
            (λ ln c' m less w'.
              Below-weaken budget m n
                (and_then (one_request atol atoi h fuel (some ln) c') (loop_on fuel))
                (omega (arith, less))
                (Below-and_then budget m (one_request atol atoi h fuel (some ln) c') (loop_on fuel)
                  (respond-Below fuel (parse_request (c_string ln)) m c' (omega (arith, less, lt))
                    w')
                  (λ on c'' w''.
                    Below-choice budget m (not (stopped fuel) && on)
                      (session_loop atol atoi h stopped fuel) (pure tt) c''
                      (session_loop-Below fuel m c'' (omega (arith, less, lt)) w'') w''))))

  -- With more rounds than the bytes and the results that recv has to give, where a failed recv counts as
  -- 2^64 since it sets the number of unread bytes to as many, process_session does not run out of rounds:
  -- it returns, waits for the socket, ends the program, or reads behind its memory.
  pub process_session_ends :
      (stopped : ℕ → Bool) (fuel : ℕ) (memory : List ℕ) (c : Connection)
      → total c.incoming < fuel
      → process_session atol atoi h stopped fuel memory c ≢ unfinished
  process_session_ends stopped fuel memory c lt e = subst (Below budget (total c.incoming)) e (
      Below-if budget (total c.incoming) (h.malloc 4120)
        (session_loop atol atoi h stopped fuel (bstream_open memory c)) (exits c)
        (session_loop-Below stopped fuel (total c.incoming) (bstream_open memory c) lt
          (omega arith))
        tt)
