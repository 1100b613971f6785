-- ===== src/Thrplhttp/Http/Session/HeaderLines.antt =====
-- The header lines of a request.
use trivia.Prelude.{
  ℕ, zero, suc, ◌<◌, ◌≡◌, refl, sym, ap, ◌∙◌, false, Option, some, List, [], ◌∷◌, ◌++◌, length,
  arith, if◌then◌else◌,
}
use trivia.Prelude.Int.{ℤ}
use trivia.Thrplhttp.Connection.{Connection, Received, returns, Action, and_then, bstream_readln}
use trivia.Thrplhttp.Connection.Unread.{unread, outputs, IsValid, NoLf}
use trivia.Thrplhttp.Connection.Lines.{buffered, bstream_readln-Arrives}
use trivia.Thrplhttp.Http.{Host}
use trivia.Thrplhttp.Http.Session.{c_string, Headers, set_header, is_blank, headed, read_headers}

-- The lines, each with its line feed, and the blank line behind them.
abbrev pub lines_text : List (List ℕ) → List ℕ → List ℕ
lines_text [] rest = 13 ∷ (10 ∷ rest)
lines_text (ln ∷ lns) rest = ln ++ (10 ∷ lines_text lns rest)

-- A line without line feed and NUL that is not blank.
pub record IsHeaderLine (ln : List ℕ) : Type 0 where
  pub no_lf : NoLf ln
  pub no_nul : c_string ln ≡ ln
  pub not_blank : is_blank ln ≡ false

abbrev pub HeaderLines : List (List ℕ) → Type 0
HeaderLines [] = Unit
HeaderLines (ln ∷ lns) = IsHeaderLine ln × HeaderLines lns

module _ (atol atoi : List ℕ → ℤ) (h : Host) where
  -- What the lines set, in their order.
  abbrev pub set_headers : Headers → List (List ℕ) → Headers
  set_headers hs [] = hs
  set_headers hs (ln ∷ lns) = set_headers (set_header atol atoi h hs ln) lns

  -- Behind one line.
  abbrev go_on : ℕ → Headers → Option (List ℕ) → Action Headers
  go_on fuel hs ln = headed atol atoi h (λ hs'. read_headers atol atoi h fuel hs') hs ln

  read_round :
      (fuel : ℕ) (hs : Headers) (c c' : Connection) (ln : List ℕ)
      → bstream_readln c ≡ returns (some ln) c'
      → read_headers atol atoi h (suc fuel) hs c ≡ go_on fuel hs (some ln) c'
  unfolding read_headers
  read_round fuel hs c c' ln e = ap (λ r. and_then r (go_on fuel hs)) e

  line_round :
      (fuel : ℕ) (hs : Headers) (c : Connection) (ln : List ℕ)
      → IsHeaderLine ln
      → go_on fuel hs (some ln) c ≡ read_headers atol atoi h fuel (set_header atol atoi h hs ln) c
  line_round fuel hs c ln w =
      ap
        (λ l.
          (if is_blank l
              then (λ c'. returns hs c')
              else read_headers atol atoi h fuel (set_header atol atoi h hs l))
            c)
        w.no_nul
      ∙ ap
          (λ t.
            (if t
                then (λ c'. returns hs c')
                else read_headers atol atoi h fuel (set_header atol atoi h hs ln))
              c)
          w.not_blank

  -- With more rounds than lines, and all header lines with the blank line behind them unread in the
  -- buffer, the loop sets what the lines say, in their order, and leaves what is behind the blank line.
  pub read_headers-HeaderLines :
      (lns : List (List ℕ)) (rest : List ℕ) (rs : List Received) (fuel : ℕ) (hs : Headers)
      (c : Connection)
      → length lns < fuel
      → IsValid c
      → HeaderLines lns
      → unread c ≡ lines_text lns rest
      → rs ≡ c.incoming
      → (c' : Connection) × (read_headers atol atoi h fuel hs c ≡ returns (set_headers hs lns) c')
        × IsValid c'
        × (unread c' ≡ rest)
        × (c'.incoming ≡ rs)
        × (outputs c' ≡ outputs c)
  read_headers-HeaderLines lns rest rs zero hs c lt v w e same = absurd (omega arith)
  read_headers-HeaderLines [] rest rs (suc fuel) hs c lt v w e same =
      let (c', t, v', u, i, o) =
        bstream_readln-Arrives c (13 ∷ []) rest c.incoming v (refl, tt) (buffered e) in
      (c', read_round fuel hs c c' (13 ∷ []) t, v', u, i ∙ sym same, o)
  read_headers-HeaderLines (ln ∷ lns) rest rs (suc fuel) hs c lt v (w, ws) e same =
      let (c', t, v', u, i, o) =
        bstream_readln-Arrives c ln (lines_text lns rest) c.incoming v w.no_lf (buffered e) in
      let (c'', t', v'', u', i', o') =
        read_headers-HeaderLines lns rest rs fuel (set_header atol atoi h hs ln) c' (omega arith) v'
          ws u (same ∙ sym i) in
      (c'', read_round fuel hs c c' ln t ∙ line_round fuel hs c' ln w ∙ t', v'', u', i', o' ∙ o)
