-- ===== src/Thrplhttp/Http/Responses.antt =====
-- What send_doc and send_mem put on the wire.
use trivia.Prelude.{
  ℕ, zero, suc, ◌+◌, ◌-◌, ◌^◌, ◌<◌, ◌≤◌, ◌≡◌, refl, sym, ap, ap₂, ◌∙◌, Bool, true, false, some,
  List, ◌∷◌, ◌++◌, length, length-replicate, min, arith, append_assoc, append-nil, ltb, ◌==◌,
  if◌then◌else◌,
}
use mathlib.Core.Path.{subst}
use trivia.Prelude.Int.{pos}
use trivia.Prelude.Slices.{take_all}
use trivia.Thrplhttp.Stream.{size_t, Sent}
use trivia.Thrplhttp.Stream.Writing.{Sends, bstream_write-Sends}
use trivia.Thrplhttp.Connection.{
  Connection, returns, exits, Action, and_then, pure, ◌>>=◌, written, send_bytes, bstream_printf,
}
use trivia.Thrplhttp.Http.{
  Host, TxMode, tx_sendfile, tx_mmap, doc_path, ok_text, send_file, send_found, send_doc, mbuf,
  mem_loop, send_mem, counted, add_bytes, sent_all,
}

-- More bytes on the wire, and the results of send that are left.
abbrev pub wired : List ℕ → List Sent → Connection → Connection
wired bytes left c = record c { wire = c.wire ++ bytes; results = left }

wired_again :
    (xs ys : List ℕ) (mid left : List Sent) (c : Connection)
    → wired ys left (wired xs mid c) ≡ wired (xs ++ ys) left c
wired_again xs ys mid left c =
    ap (λ w. record c { wire = w; results = left }) (append_assoc c.wire xs ys)

send_bytes-Sends :
    (bytes : List ℕ) (left : List Sent) (c : Connection)
    → length bytes < 2 ^ 64
    → Sends (length bytes) left 0 c.results
    → send_bytes bytes c ≡ returns (length bytes) (wired bytes left c)
send_bytes-Sends bytes left c lt s = ap (written c) (bstream_write-Sends bytes lt s)

printf-Sends :
    (malloc : ℕ → Bool) (text : List ℕ) (left : List Sent) (c : Connection)
    → malloc (length text + 1) ≡ true
    → length text < 2 ^ 64
    → Sends (length text) left 0 c.results
    → bstream_printf malloc text c ≡ returns (length text) (wired text left c)
printf-Sends malloc text left c m lt s =
    ap (λ t. if t then send_bytes text c else exits c) m ∙ send_bytes-Sends text left c lt s

-- The file goes out as a whole: sendfile reports its size, or it is mapped and each send makes progress.
pub data Delivers (h : Host) (path contents : List ℕ)
    : TxMode → List Sent → List Sent → Type 0 where
  by_sendfile :
      {rs : List Sent}
      → h.sendfile path ≡ some (length contents)
      → Delivers h path contents tx_sendfile rs rs
  by_mmap :
      {rs left : List Sent}
      → h.mmaps (length contents) ≡ true
      → length contents < 2 ^ 64
      → Sends (length contents) left 0 rs
      → Delivers h path contents tx_mmap rs left

same_number : (n : ℕ) → (n == n) ≡ true
same_number n = ground arith

send_file-Delivers :
    (h : Host) (path contents : List ℕ) {mode : TxMode} {rs left : List Sent} (c : Connection)
    → rs ≡ c.results
    → Delivers h path contents mode rs left
    → send_file h mode path contents c ≡ returns true (wired contents left c)
send_file-Delivers h path contents {left = left} c e (by_sendfile d) =
    rw (d, same_number (length contents), take_all (length contents) contents (omega arith), e) refl
send_file-Delivers h path contents {left = left} c e (by_mmap m lt s) =
    rw
      (
        m,
        send_bytes-Sends contents left c lt (subst (Sends (length contents) left 0) e s),
        same_number (length contents),
      )
      refl

-- When there is memory, the path names a file, and what the kernel reports lets the header and the file go
-- out as a whole, send_doc puts exactly the header, with the size of the file, and the contents on the wire, adds
-- the size to the bytes transferred, and returns success.
pub send_doc-Delivers :
    (h : Host) (doc ver cclose contents : List ℕ) (mid left : List Sent) (c : Connection)
    → h.malloc (length (doc_path h doc) + 1) ≡ true
    → h.malloc (length (ok_text ver cclose (pos (length contents))) + 1) ≡ true
    → length (ok_text ver cclose (pos (length contents))) < 2 ^ 64
    → h.files (doc_path h doc) ≡ some contents
    → Sends (length (ok_text ver cclose (pos (length contents)))) mid 0 c.results
    → Delivers h (doc_path h doc) contents h.txmode mid left
    → send_doc h doc ver cclose c
      ≡ returns true (record c {
        wire = c.wire ++ (ok_text ver cclose (pos (length contents)) ++ contents);
        results = left;
        tbytes = size_t (c.tbytes + length contents);
      })
send_doc-Delivers h doc ver cclose contents mid left c m1 m2 lt f s d =
    ap
      (λ t.
        (if t
            then send_found h (doc_path h doc) ver cclose (h.files (doc_path h doc))
            else (λ c. exits c))
          c)
      m1
    ∙ ap (λ o. send_found h (doc_path h doc) ver cclose o c) f
    ∙ ap (λ r. and_then r (λ _. go)) (printf-Sends h.malloc header mid c m2 lt s)
    ∙ ap (λ r. and_then r (counted (length contents)))
        (send_file-Delivers h (doc_path h doc) contents (wired header mid c) refl d)
    ∙ ap (λ c'. returns true (record c' { tbytes = size_t (c'.tbytes + length contents) }))
        (wired_again header contents mid left c)
  where
    header : List ℕ
    header = ok_text ver cclose (pos (length contents))

    go : Action Bool
    go c' = and_then (send_file h h.txmode (doc_path h doc) contents c') (counted (length contents))

-- The results of send for the blocks of send_mem behind `msent` of `n` bytes.
pub data Blocks (n : ℕ) (left : List Sent) : ℕ → List Sent → Type 0 where
  no_block : Blocks n left n left
  block :
      {msent : ℕ} {rs mid : List Sent}
      → msent < n
      → Sends (min 8192 (n - msent)) mid 0 rs
      → Blocks n left (msent + min 8192 (n - msent)) mid
      → Blocks n left msent rs

mbuf-add : (a b n : ℕ) → n ≡ a + b → mbuf a ++ mbuf b ≡ mbuf n
mbuf-add zero b n e = ap mbuf (omega (arith, e))
mbuf-add (suc a) b zero e = absurd (omega arith)
mbuf-add (suc a) b (suc n) e = ap (λ q. 0 ∷ q) (mbuf-add a b n (omega arith))

send_block :
    (k : ℕ) (mid : List Sent) (c : Connection)
    → k < 2 ^ 64
    → Sends k mid 0 c.results
    → send_bytes (mbuf k) c ≡ returns k (wired (mbuf k) mid c)
send_block k mid c lt s =
    send_bytes-Sends (mbuf k) mid c (omega (arith, size, lt))
      (subst (λ m. Sends m mid 0 c.results) (sym size) s)
    ∙ ap (λ m. returns m (wired (mbuf k) mid c)) size
  where
    size : length (mbuf k) ≡ k
    size = length-replicate k 0

-- One round; `k` is the size of the block.
mem_loop_round :
    (fuel n msent k : ℕ) (mid : List Sent) (c : Connection)
    → k ≡ min 8192 (n - msent)
    → k < 2 ^ 64
    → msent < n
    → Sends k mid 0 c.results
    → mem_loop (suc fuel) n msent c ≡ mem_loop fuel n (msent + k) (wired (mbuf k) mid c)
unfolding mem_loop
mem_loop_round fuel n msent k mid c e small lt s =
    rw (sym e, less, send_block k mid c small s, same_number k) refl
  where
    less : ltb msent n ≡ true
    less = ground arith

mem_loop_end : (fuel n : ℕ) (c : Connection) → mem_loop fuel n n c ≡ returns n c
unfolding mem_loop
mem_loop_end zero n c = refl
mem_loop_end (suc fuel) n c = ground arith

wired_nothing :
    (c : Connection) (left : List Sent) (k : ℕ)
    → k ≡ 0
    → left ≡ c.results
    → c ≡ wired (mbuf k) left c
wired_nothing c left k z e =
    ap₂ (λ w rs. record c { wire = w; results = rs }) (sym (append-nil c.wire)) (sym e)
    ∙ ap (λ m. wired (mbuf m) left c) (sym z)

mem_loop-Blocks :
    (n : ℕ) (left : List Sent) (fuel : ℕ) {msent : ℕ} {rs : List Sent} (c : Connection)
    → n ≤ msent + fuel
    → rs ≡ c.results
    → Blocks n left msent rs
    → mem_loop fuel n msent c ≡ returns n (wired (mbuf (n - msent)) left c)
mem_loop-Blocks n left fuel c enough e no_block =
    mem_loop_end fuel n c ∙ ap (returns n) (wired_nothing c left (n - n) (omega arith) e)
mem_loop-Blocks n left zero c enough e (block lt s b) = absurd (omega arith)
mem_loop-Blocks n left (suc fuel) {msent} c enough e (block {mid = mid} lt s b) =
    mem_loop_round fuel n msent (min 8192 (n - msent)) mid c refl (omega arith) lt
      (subst (Sends (min 8192 (n - msent)) mid 0) e s)
    ∙ mem_loop-Blocks n left fuel (wired (mbuf (min 8192 (n - msent))) mid c) (omega arith) refl b
    ∙ ap (returns n) (
        wired_again (mbuf (min 8192 (n - msent))) (mbuf (n - (msent + min 8192 (n - msent)))) mid
          left c)
    ∙ ap (λ m. returns n (wired m left c))
        (mbuf-add (min 8192 (n - msent)) (n - (msent + min 8192 (n - msent))) (n - msent)
          (omega arith))

-- When there is memory, and what send reports lets the header and each block of 8192 bytes go out as a
-- whole, send_mem puts exactly the header and `n` zero bytes on the wire, adds `n` to the bytes transferred,
-- and returns success.
pub send_mem-Blocks :
    (h : Host) (n : ℕ) (ver cclose : List ℕ) (mid left : List Sent) (c : Connection)
    → h.malloc (length (ok_text ver cclose (pos n)) + 1) ≡ true
    → length (ok_text ver cclose (pos n)) < 2 ^ 64
    → Sends (length (ok_text ver cclose (pos n))) mid 0 c.results
    → Blocks n left 0 mid
    → send_mem h (pos n) ver cclose c
      ≡ returns true (record c {
        wire = c.wire ++ (ok_text ver cclose (pos n) ++ mbuf n);
        results = left;
        tbytes = size_t (c.tbytes + n);
      })
send_mem-Blocks h n ver cclose mid left c m lt s b =
    ap (λ r. and_then r (λ _ c'. and_then (mem_loop n n 0 c') finish))
      (printf-Sends h.malloc header mid c m lt s)
    ∙ ap (λ r. and_then r finish)
        (mem_loop-Blocks n left n (wired header mid c) (omega arith) refl b)
    ∙ ap₂ (λ ok c'. returns ok (record c' { tbytes = size_t (c.tbytes + n) })) (same_number n)
        (wired_again header (mbuf (n - 0)) mid left c)
    ∙ ap
        (λ k. returns true (record c {
          wire = c.wire ++ (header ++ mbuf k);
          results = left;
          tbytes = size_t (c.tbytes + n);
        }))
        all_of_it
  where
    header : List ℕ
    header = ok_text ver cclose (pos n)

    finish : ℕ → Action Bool
    finish msent = add_bytes msent >>= λ _. pure (sent_all (pos n) msent)

    all_of_it : n - 0 ≡ n
    all_of_it = omega arith

-- In TX_MMAP mode, with memory enough and sends that let the header out as a whole, a file that cannot be mapped,
-- as an empty one, ends the program: on the wire is the whole header with the size of the file, and
-- nothing behind it, and no byte of the document is counted.
pub send_doc_exits :
    (h : Host) (doc ver cclose contents : List ℕ) (mid : List Sent) (c : Connection)
    → h.malloc (length (doc_path h doc) + 1) ≡ true
    → h.malloc (length (ok_text ver cclose (pos (length contents))) + 1) ≡ true
    → length (ok_text ver cclose (pos (length contents))) < 2 ^ 64
    → h.files (doc_path h doc) ≡ some contents
    → Sends (length (ok_text ver cclose (pos (length contents)))) mid 0 c.results
    → h.txmode ≡ tx_mmap
    → h.mmaps (length contents) ≡ false
    → send_doc h doc ver cclose c
      ≡ exits
          (record c { results = mid; wire = c.wire ++ ok_text ver cclose (pos (length contents)) })
send_doc_exits h doc ver cclose contents mid c m1 m2 lt f s t no_map =
    rw
      (
        m1,
        f,
        printf-Sends h.malloc (ok_text ver cclose (pos (length contents))) mid c m2 lt s,
        t,
        no_map,
      )
      refl
