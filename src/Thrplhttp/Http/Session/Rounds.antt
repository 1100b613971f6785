-- ===== src/Thrplhttp/Http/Session/Rounds.antt =====
-- A round of the loop of process_session.
use trivia.Prelude.{
  ℕ, ◌+◌, ◌<◌, ◌≤◌, ◌≡◌, sym, ap, ◌∙◌, Bool, true, false, not, ◌||◌, some, List, [], ◌∷◌, length,
  ◌==◌, if◌then◌else◌,
}
use trivia.Prelude.Int.{ℤ}
use trivia.Prelude.Text.{ascii, equals_nocase}
use trivia.Thrplhttp.Stream.{size_t}
use trivia.Thrplhttp.Connection.{Connection, Received, returns, Action, and_then, bstream_readln}
use trivia.Thrplhttp.Connection.Unread.{unread, outputs, IsValid, NoLf}
use trivia.Thrplhttp.Connection.Lines.{Arrives, bstream_readln-Arrives}
use trivia.Thrplhttp.Http.{Host, send_url}
use trivia.Thrplhttp.Http.Session.{
  c_string, Headers, request, bad, parse_request, connection_word, no_headers, bad_request, answer,
  respond, one_request,
}
use trivia.Thrplhttp.Http.Session.Parsing.{IsWord, request_line, parse_request-request_line}
use trivia.Thrplhttp.Http.Session.HeaderLines.{
  lines_text, HeaderLines, set_headers, read_headers-HeaderLines,
}

-- A request: the parts of its first line, its header lines, and what is behind the blank line.
pub record Incoming : Type 0 where
  pub meth : List ℕ
  pub doc : List ℕ
  pub ver : List ℕ
  pub lns : List (List ℕ)
  pub rest : List ℕ

-- A GET request with one space between words that fits the copy of the line.
pub record IsGet (q : Incoming) : Type 0 where
  pub meth : IsWord (32 ∷ []) q.meth
  pub doc : IsWord (32 ∷ []) q.doc
  pub ver : IsWord (32 ∷ 13 ∷ []) q.ver
  pub get : equals_nocase (ascii "GET") q.meth ≡ true
  pub no_lf : NoLf (request_line q.meth q.doc q.ver)
  pub no_nul : c_string (request_line q.meth q.doc q.ver) ≡ request_line q.meth q.doc q.ver
  pub fits : length (request_line q.meth q.doc q.ver) ≤ 2048
  pub headers : HeaderLines q.lns

module _ (atol atoi : List ℕ → ℤ) (h : Host) where
  -- What the header lines of a request set.
  abbrev pub headers_of : Incoming → Headers
  headers_of q = set_headers atol atoi h (no_headers q.ver) q.lns

  -- No payload is announced.
  abbrev pub NoPayload : Incoming → Type 0
  NoPayload q = (not ((headers_of q).clen == 0) || (headers_of q).chunked) ≡ false

  -- The response, and whether the loop goes on.
  abbrev pub response : Incoming → Action Bool
  response q c =
      and_then (send_url atol atoi h q.doc q.ver (connection_word (headers_of q).cclose) c)
        (λ _ c'. returns (not (headers_of q).cclose) c')

  -- The first lines, up to the response.
  parse_round :
      (fuel : ℕ) (q : Incoming) (c : Connection)
      → IsGet q
      → one_request atol atoi h fuel (some (request_line q.meth q.doc q.ver)) c
        ≡ respond atol atoi h fuel (request q.meth q.doc q.ver) c
  parse_round fuel q c g =
      ap (λ l. respond atol atoi h fuel (parse_request l) c) g.no_nul
      ∙ ap (λ r. respond atol atoi h fuel r c)
          (parse_request-request_line q.meth q.doc q.ver g.meth g.doc g.ver g.fits
            ∙ ap (λ t. if t then request q.meth q.doc q.ver else bad) g.get)

  -- When a GET request arrives, its lines complete behind at most one recv, and announces no payload, a round of
  -- the loop counts one request, reads exactly the request, and answers as send_url does for its document, its
  -- version and its connection; the loop goes on unless the connection is to be closed.
  pub one_request-IsGet :
      (q : Incoming) (rs : List Received) (fuel : ℕ) (c : Connection)
      → IsGet q
      → NoPayload q
      → length q.lns < fuel
      → IsValid c
      → Arrives c (request_line q.meth q.doc q.ver) (lines_text q.lns q.rest) rs
      → (c' : Connection) × (and_then (bstream_readln c) (λ ln. one_request atol atoi h fuel ln)
          ≡ response q c')
        × IsValid c'
        × (unread c' ≡ q.rest)
        × (c'.incoming ≡ rs)
        × (outputs c' ≡ (c.results, c.wire, c.tbytes, size_t (c.reqs + 1)))
  one_request-IsGet q rs fuel c g p lt v a =
      let (c₁, t₁, v₁, u₁, i₁, o₁) =
        bstream_readln-Arrives c (request_line q.meth q.doc q.ver) (lines_text q.lns q.rest) rs v
          g.no_lf a in
      let c₂ : Connection = record c₁ { reqs = size_t (c₁.reqs + 1) } in
      let (c', t, v', u, i, o) =
        read_headers-HeaderLines atol atoi h q.lns q.rest rs fuel (no_headers q.ver) c₂ lt
          (record { size = v₁.size; within = v₁.within }) g.headers u₁ (sym i₁) in
      (
        c',
        ap (λ r. and_then r (λ ln. one_request atol atoi h fuel ln)) t₁
            ∙ parse_round fuel q c₁ g
            ∙ ap (λ r. and_then r (λ hs. answer atol atoi h q.doc q.ver hs)) t
            ∙ ap (λ b. (if b then bad_request atol atoi h else (λ c''. response q c'')) c') p,
        v',
        u,
        i,
        o ∙ ap (λ x. (x.0, x.1, x.2, size_t (x.3 + 1))) o₁,
      )
