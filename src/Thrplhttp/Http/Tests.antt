-- ===== src/Thrplhttp/Http/Tests.antt =====
-- Requests and responses of thrplhttp.c on concrete connections, and the theorems at these.
use trivia.Prelude.{
  ℕ, zero, suc, ◌≡◌, ◌≢◌, refl, true, false, some, List, [], ◌∷◌, ◌++◌, replicate, length-replicate,
  arith,
}
use trivia.Prelude.Int.{ℤ, pos}
use trivia.Prelude.Text.{ascii, digits, same_letter}
use trivia.Thrplhttp.Stream.{sent}
use trivia.Thrplhttp.Stream.Writing.{complete, progress}
use trivia.Thrplhttp.Connection.{
  Connection, Received, received, recv_failed, returns, faults, exits, unfinished, and_then,
  bstream_readln,
}
use trivia.Thrplhttp.Connection.Unread.{unread, outputs, IsValid, NoLf}
use trivia.Thrplhttp.Connection.Lines.{one_recv, bstream_readln_faults}
use trivia.Thrplhttp.Http.{Host, tx_mmap, ok_text, mbuf, send_doc, send_mem}
use trivia.Thrplhttp.Http.Responses.{
  by_mmap, send_doc-Delivers, no_block, block, send_mem-Blocks, send_doc_exits,
}
use trivia.Thrplhttp.Http.Session.{parse_request, request, bad, process_session, one_request}
use trivia.Thrplhttp.Http.Session.Rounds.{Incoming, IsGet, response, one_request-IsGet}
use trivia.Thrplhttp.Http.Session.Termination.{process_session_ends}

-- The memory of a fresh buffer.
abbrev zeros : List ℕ
zeros = replicate 4096 0

-- A request for `a`, with one header line, in two pieces.
abbrev get_a : List ℕ
get_a = ascii "GET /a HTTP/1.1" ++ (13 ∷ [])

abbrev host_line : List ℕ
host_line = ascii "Connection: close" ++ (13 ∷ [])

abbrev get_a_text : List ℕ
get_a_text = get_a ++ (10 ∷ (host_line ++ (10 ∷ 13 ∷ 10 ∷ [])))

abbrev opened : List Received → Connection
opened rs = record {
  ridx = 0;
  bcnt = 0;
  buf = zeros;
  incoming = rs;
  results = sent 57 ∷ sent 3 ∷ [];
  wire = [];
  tbytes = 0;
  reqs = 0;
}

opened-IsValid : (rs : List Received) → IsValid (opened rs)
opened-IsValid rs = record { size = length-replicate {A = ℕ} 4096 0; within = omega arith }

zeros-NoLf : (n : ℕ) → NoLf (replicate n 0)
zeros-NoLf zero = tt
zeros-NoLf (suc n) = (refl, zeros-NoLf n)

get_a-NoLf : NoLf get_a
get_a-NoLf = (
  refl,
  (
    refl,
    (
      refl,
      (
        refl,
        (
          refl,
          (
            refl,
            (refl, (refl, (refl, (refl, (refl, (refl, (refl, (refl, (refl, (refl, tt)))))))))),
          ),
        ),
      ),
    ),
  ),
)

parsed : parse_request get_a ≡ request (ascii "GET") (ascii "/a") (ascii "HTTP/1.1")
unfolding parse_request same_letter
parsed = refl

refused : parse_request (ascii "GET /a" ++ (13 ∷ [])) ≡ bad
unfolding parse_request same_letter
refused = refl

bstream_readln_faults_example : bstream_readln (opened (recv_failed ∷ [])) ≡ faults
bstream_readln_faults_example =
    bstream_readln_faults (opened (recv_failed ∷ [])) [] (opened-IsValid (recv_failed ∷ [])) refl
      (zeros-NoLf 4096) refl

-- One file, and no file of size 0 can be mapped.
abbrev host : Host
host = record {
  rootfs = ascii ".";
  txmode = tx_mmap;
  files = λ path. some (ascii "abc");
  sendfile = λ path. some 3;
  mmaps = λ n. elim n [ zero ↦ false | suc k ↦ true ];
  malloc = λ n. true;
}

abbrev header_a : List ℕ
header_a = ok_text (ascii "HTTP/1.1") (ascii "close") (pos 3)

send_doc-Delivers_example :
    send_doc host (ascii "/a") (ascii "HTTP/1.1") (ascii "close") (opened [])
    ≡ returns true (record (opened []) { wire = header_a ++ ascii "abc"; results = []; tbytes = 3 })
unfolding digits
send_doc-Delivers_example =
    send_doc-Delivers host (ascii "/a") (ascii "HTTP/1.1") (ascii "close") (ascii "abc")
      (sent 3 ∷ []) [] (opened []) refl refl (omega arith) refl
      (progress 57 (omega arith) (omega arith) complete)
      (by_mmap refl (omega arith) (progress 3 (omega arith) (omega arith) complete))

send_mem-Blocks_example :
    send_mem host (pos 3) (ascii "HTTP/1.1") (ascii "close") (opened [])
    ≡ returns true (record (opened []) { wire = header_a ++ mbuf 3; results = []; tbytes = 3 })
unfolding digits
send_mem-Blocks_example =
    send_mem-Blocks host 3 (ascii "HTTP/1.1") (ascii "close") (sent 3 ∷ []) [] (opened []) refl
      (omega arith) (progress 57 (omega arith) (omega arith) complete)
      (block (omega arith) (progress 3 (omega arith) (omega arith) complete) no_block)

send_doc_exits_example :
    send_doc
      (record host { files = λ path. some [] })
      (ascii "/a")
      (ascii "HTTP/1.1")
      (ascii "close")
      (opened [])
    ≡ exits (record (opened []) {
      results = sent 3 ∷ [];
      wire = [] ++ ok_text (ascii "HTTP/1.1") (ascii "close") (pos 0);
    })
unfolding digits
send_doc_exits_example =
    send_doc_exits (record host { files = λ path. some [] }) (ascii "/a") (ascii "HTTP/1.1")
      (ascii "close") [] (sent 3 ∷ []) (opened []) refl refl (omega arith) refl
      (progress 57 (omega arith) (omega arith) complete) refl refl

abbrev to_a : Incoming
to_a = record {
  meth = ascii "GET";
  doc = ascii "/a";
  ver = ascii "HTTP/1.1";
  lns = host_line ∷ [];
  rest = [];
}

to_a-IsGet : IsGet to_a
unfolding same_letter
to_a-IsGet = record {
  meth = record { no_delim = (refl, (refl, (refl, tt))); nonempty = omega arith };
  doc = record { no_delim = (refl, (refl, tt)); nonempty = omega arith };
  ver = record {
    no_delim = (refl, (refl, (refl, (refl, (refl, (refl, (refl, (refl, tt))))))));
    nonempty = omega arith;
  };
  get = refl;
  no_lf = get_a-NoLf;
  no_nul = refl;
  fits = omega arith;
  headers = (
    record {
      no_lf = (
        refl,
        (
          refl,
          (
            refl,
            (
              refl,
              (
                refl,
                (
                  refl,
                  (
                    refl,
                    (
                      refl,
                      (
                        refl,
                        (refl, (refl, (refl, (refl, (refl, (refl, (refl, (refl, (refl, tt))))))))),
                      ),
                    ),
                  ),
                ),
              ),
            ),
          ),
        ),
      );
      no_nul = refl;
      not_blank = refl;
    },
    tt,
  );
}

-- No number is read.
abbrev no_number : List ℕ → ℤ
no_number text = pos 0

one_request-IsGet_example :
    (c' : Connection) × (and_then
        (bstream_readln (opened (received get_a_text ∷ [])))
        (λ ln. one_request no_number no_number host 2 ln)
      ≡ response no_number no_number host to_a c')
    × IsValid c'
    × (unread c' ≡ [])
    × (c'.incoming ≡ [])
    × (outputs c' ≡ (sent 57 ∷ sent 3 ∷ [], [], 0, 1))
unfolding same_letter
one_request-IsGet_example =
    one_request-IsGet no_number no_number host to_a [] 2 (opened (received get_a_text ∷ []))
      to_a-IsGet refl (omega arith) (opened-IsValid (received get_a_text ∷ []))
      (one_recv get_a_text tt refl (omega arith) (omega arith) refl)

process_session_ends_example :
    process_session no_number no_number host
      (λ n. false)
      50
      zeros
      (opened (received get_a_text ∷ []))
    ≢ unfinished
process_session_ends_example =
    process_session_ends no_number no_number host (λ n. false) 50 zeros
      (opened (received get_a_text ∷ [])) (omega arith)
