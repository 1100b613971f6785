-- ===== src/Thrhttp/Tests.antt =====
-- Lines and requests of thrhttp.c on concrete connections.
use trivia.Prelude.{
  ℕ, ◌≡◌, ◌≢◌, false, refl, true, some, none, [], ◌∷◌, ◌++◌, replicate, length-replicate, arith,
}
use trivia.Prelude.Text.{ascii, same_letter}
use trivia.Thrplhttp.Connection.{Connection, received, returns, unfinished}
use trivia.Thrplhttp.Connection.Unread.{outputs}
use trivia.Thrplhttp.Http.Session.{request}
use trivia.Thrhttp.Stream.{bstream_readln}
use trivia.Thrhttp.Stream.Pieces.{unread, IsValid}
use trivia.Thrhttp.Stream.Lines.{here, more, bstream_readln-Comes}
use trivia.Thrplhttp.Http.{Host, tx_sendfile}
use trivia.Prelude.Int.{pos}
use trivia.Thrhttp.Server.{parse_request, is_blank, thproc}
use trivia.Thrhttp.Server.Termination.{thproc_ends}

-- A line in two pieces, with the beginning of the next.
abbrev opened : Connection
opened = record {
  ridx = 0;
  bcnt = 0;
  buf = replicate 4096 0;
  incoming = received (ascii "GE") ∷ received (b'T' ∷ 10 ∷ b'x' ∷ []) ∷ [];
  results = [];
  wire = [];
  tbytes = 0;
  reqs = 0;
}

bstream_readln-Comes_example :
    (c' : Connection) × (bstream_readln (λ n. true) opened
      ≡ returns (some (ascii "GET" ++ (10 ∷ []))) c')
    × IsValid c'
    × (unread c' ≡ ascii "x")
    × (c'.incoming ≡ [])
    × (outputs c' ≡ outputs opened)
bstream_readln-Comes_example =
    bstream_readln-Comes (λ n. true) opened (ascii "GET") (ascii "x") [] (λ n. refl)
      (record { size = length-replicate {A = ℕ} 4096 0; order = omega arith; within = omega arith })
      (more tt (omega arith) (omega arith)
        (more (refl, (refl, tt)) (omega arith) (omega arith) (here (b'T' ∷ []) (refl, tt))))

parsed :
    parse_request (ascii "get /a HTTP/1.0" ++ (13 ∷ 10 ∷ []))
    ≡ request (ascii "get") (ascii "/a") (ascii "HTTP/1.0")
unfolding parse_request same_letter
parsed = refl

blank : is_blank (13 ∷ 10 ∷ []) ≡ true
blank = refl

abbrev host : Host
host = record {
  rootfs = ascii "/srv";
  files = λ path. none;
  sendfile = λ path. some 0;
  mmaps = λ n. true;
  malloc = λ n. true;
  txmode = tx_sendfile;
}

thproc_ends_example :
    thproc (λ s. pos 0) (λ s. pos 0) host (λ n. false) 20 (replicate 4096 0) opened ≢ unfinished
thproc_ends_example =
    thproc_ends (λ s. pos 0) (λ s. pos 0) host (λ n. false) 20 (replicate 4096 0) opened
      (omega arith)
