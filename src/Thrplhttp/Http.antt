-- ===== src/Thrplhttp/Http.antt =====
-- thrplhttp.c, send_doc, send_mem and send_url: the responses. `Session` is process_session.
pub mod Session
pub mod Responses
pub mod Quietness
mod Tests
use trivia.Prelude.{
  ℕ, zero, suc, ◌+◌, ◌-◌, ◌*◌, ◌%◌, ◌^◌, ◌<◌, ◌≤◌, ◌≡◌, Bool, true, false, ◌&&◌, ◌||◌, not, Option,
  none, some, List, [], ◌∷◌, ◌++◌, length, take, drop, replicate, min, ◌==◌, ltb, leb,
  if◌then◌else◌,
}
use trivia.Prelude.Int.{ℤ, pos, negsuc}
use trivia.Prelude.Text.{ascii, decimal, starts_nocase, equals_nocase}
use trivia.Thrplhttp.Stream.{size_t, Sent, bstream_write}
use trivia.Thrplhttp.Connection.{
  Connection, Run, returns, waits, faults, exits, Action, pure, and_then, ◌>>=◌, ◌>>◌,
  bstream_readln, send_bytes, bstream_printf, bstream_open,
}

-- `%ld`
abbrev pub print_long : ℤ → List ℕ
print_long (pos n) = decimal n
print_long (negsuc n) = b'-' ∷ decimal (suc n)

abbrev pub newline : List ℕ
newline = 13 ∷ 10 ∷ []

-- The status line, `Connection` and `Content-Length`.
abbrev pub header_text : List ℕ → List ℕ → List ℕ → List ℕ → List ℕ
header_text ver status cclose size =
    ver
    ++ (status
        ++ (newline
            ++ (ascii "Connection: "
                ++ (cclose
                    ++ (newline ++ (ascii "Content-Length: " ++ (size ++ (newline ++ newline))))))))

abbrev pub not_found_text : List ℕ → List ℕ → List ℕ
not_found_text ver cclose = header_text ver (ascii " 404 Not found") cclose (ascii "0")

abbrev pub ok_text : List ℕ → List ℕ → ℤ → List ℕ
ok_text ver cclose size = header_text ver (ascii " 200 OK") cclose (print_long size)

abbrev pub bad_request_text : List ℕ
bad_request_text =
    header_text (ascii "HTTP/1.1") (ascii " 400 Bad request") (ascii "close") (ascii "0")

-- How the document is sent: TX_SENDFILE, TX_MMAP.
pub data TxMode : Type 0 where
  tx_sendfile : TxMode
  tx_mmap : TxMode

-- `files` gives the contents of a path that can be opened and measured; `sendfile` is how many bytes a
-- call of sendfile for a file reports (-1 is `none`); `mmaps` tells if a file of a size can be mapped.
pub record Host : Type 0 where
  pub rootfs : List ℕ
  pub txmode : TxMode
  pub files : List ℕ → Option (List ℕ)
  pub sendfile : List ℕ → Option ℕ
  pub mmaps : ℕ → Bool
  pub malloc : ℕ → Bool

-- `*doc == '/' ? doc + 1 : doc`
abbrev pub relative : List ℕ → List ℕ
relative [] = []
relative (c ∷ cs) = if c == b'/' then cs else c ∷ cs

abbrev pub doc_path : Host → List ℕ → List ℕ
doc_path h doc = h.rootfs ++ (b'/' ∷ relative doc)

-- Behind sendfile, which sends what it reports.
abbrev pub sendfile_sent : List ℕ → Option ℕ → Action Bool
sendfile_sent contents none c = returns false c
sendfile_sent contents (some n) c =
    returns (n == length contents) (record c { wire = c.wire ++ take n contents })

abbrev pub sendfile_tx : Host → List ℕ → List ℕ → Action Bool
sendfile_tx h path contents = sendfile_sent contents (h.sendfile path)

-- xmmap ends the program when the file cannot be mapped.
abbrev pub mmap_tx : Host → List ℕ → Action Bool
mmap_tx h contents =
    if h.mmaps (length contents)
    then (do txcnt ← send_bytes contents; pure (txcnt == length contents))
    else (λ c. exits c)

abbrev pub send_file : Host → TxMode → List ℕ → List ℕ → Action Bool
send_file h tx_sendfile path contents = sendfile_tx h path contents
send_file h tx_mmap path contents = mmap_tx h contents

abbrev pub add_bytes : ℕ → Action (Unit {0})
add_bytes n c = returns tt (record c { tbytes = size_t (c.tbytes + n) })

-- `error < 0`, or the bytes are counted; the result 0 is `true`.
abbrev pub counted : ℕ → Bool → Action Bool
counted n false = pure false
counted n true = do add_bytes n; pure true

abbrev pub send_found : Host → List ℕ → List ℕ → List ℕ → Option (List ℕ) → Action Bool
send_found h path ver cclose none = do
  bstream_printf h.malloc (not_found_text ver cclose)
  pure false
send_found h path ver cclose (some contents) = do
  bstream_printf h.malloc (ok_text ver cclose (pos (length contents)))
  done ← send_file h h.txmode path contents
  counted (length contents) done

-- xasprintf ends the program when there is no memory for the path.
abbrev pub send_doc : Host → List ℕ → List ℕ → List ℕ → Action Bool
send_doc h doc ver cclose =
    if h.malloc (length (doc_path h doc) + 1)
    then send_found h (doc_path h doc) ver cclose (h.files (doc_path h doc))
    else (λ c. exits c)

-- One block of send_mem: `msent` is a long, as its 64-bit pattern.
abbrev pub mbuf : ℕ → List ℕ
mbuf n = replicate n 0

-- The loop of send_mem; `left` blocks are enough.
unfoldable pub mem_loop : ℕ → ℕ → ℕ → Action ℕ
mem_loop zero size msent c = returns msent c
mem_loop (suc left) size msent c =
    if ltb msent size
    then and_then (send_bytes (mbuf (min 8192 (size - msent))) c) (λ n.
      if n == min 8192 (size - msent)
      then mem_loop left size (msent + n)
      else pure (size_t (msent + n)))
    else returns msent c

abbrev pub mem_bytes : ℤ → Action ℕ
mem_bytes (pos n) = mem_loop n n 0
mem_bytes (negsuc n) = pure 0

abbrev pub sent_all : ℤ → ℕ → Bool
sent_all (pos n) msent = msent == n
sent_all (negsuc n) msent = false

abbrev pub send_mem : Host → ℤ → List ℕ → List ℕ → Action Bool
send_mem h size ver cclose = do
  bstream_printf h.malloc (ok_text ver cclose size)
  msent ← mem_bytes size
  add_bytes msent
  pure (sent_all size msent)

-- strncmp(doc, "/mem-", 5) == 0
abbrev pub starts : List ℕ → List ℕ → Bool
starts [] text = true
starts (p ∷ ps) [] = false
starts (p ∷ ps) (c ∷ cs) = p == c && starts ps cs

-- `atol` and `atoi` are the library's.
module _ (atol atoi : List ℕ → ℤ) (h : Host) where
  abbrev pub send_url : List ℕ → List ℕ → List ℕ → Action Bool
  send_url doc ver cclose =
      if starts (ascii "/mem-") doc
      then send_mem h (atol (drop 5 doc)) ver cclose
      else send_doc h doc ver cclose
