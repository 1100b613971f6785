-- ===== src/Thrplhttp/Connection/Lines.antt =====
-- bstream_readln takes the next line of what the socket delivers.
use trivia.Prelude.{
  ℕ, zero, suc, ◌+◌, ◌-◌, ◌^◌, ◌≤◌, ◌<◌, ◌≡◌, refl, sym, ap, ap₂, ◌∙◌, false, none, some, List, [],
  ◌∷◌, ◌++◌, length, take, drop, set, length-append, take-append_length, drop-append_length,
  length-set, arith, append_assoc, ◌==◌, if◌then◌else◌,
}
use mathlib.Core.Path.{subst}
use trivia.Prelude.Slices.{drop-add}
use trivia.Thrplhttp.Connection.{
  Connection, Received, recv_failed, received, returns, faults, and_then, bufsize, memchr, find_eol,
  take_line, second_look, look_again, first_look, bstream_readln,
}
use trivia.Thrplhttp.Connection.Unread.{
  unread, IsValid, NoLf, memchr-found, memchr_absent, unread_split, length-unread, drop-set,
  outputs,
}
use trivia.Thrplhttp.Connection.Refill.{filled, bstream_refil-filled, filled-IsValid, unread-filled}

-- What `bstream_readln` gives: a line, with what is left.
abbrev pub Gets : Connection → List ℕ → List ℕ → List Received → Type 0
Gets c line rest rs =
    (c' : Connection) × (bstream_readln c ≡ returns (some line) c')
    × IsValid c'
    × (unread c' ≡ rest)
    × (c'.incoming ≡ rs)
    × (outputs c' ≡ outputs c)

module _ (c : Connection) (v : IsValid c) (line rest : List ℕ) (e : unread c ≡ line ++ (10 ∷ rest))
    (h : NoLf line) where
  tail : List ℕ
  tail = drop c.bcnt (drop c.ridx c.buf)

  memory : drop c.ridx c.buf ≡ line ++ (10 ∷ (rest ++ tail))
  unfolding tail
  memory =
      unread_split c
      ∙ ap (λ q. q ++ drop c.bcnt (drop c.ridx c.buf)) e
      ∙ append_assoc line (10 ∷ rest) tail

  counted : c.bcnt ≡ length line + 1 + length rest
  counted = omega (arith, sym (length-unread c v) ∙ ap length e, length-append line (10 ∷ rest))

  eol : find_eol c ≡ some (some (length line))
  eol =
      ap (λ m. memchr m c.bcnt) memory
      ∙ memchr-found line (rest ++ tail) c.bcnt h (omega (arith, counted))

  taken :
      (c' : Connection) × (take_line (length line) c ≡ returns (some line) c')
      × IsValid c'
      × (unread c' ≡ rest)
      × (c'.incoming ≡ c.incoming)
      × (outputs c' ≡ outputs c)
  taken = (
    c',
    ap (λ q. returns (some q) c')
        (ap (take (length line)) memory ∙ take-append_length line (10 ∷ (rest ++ tail))),
    record {
      size = length-set c.buf (c.ridx + length line) 0 ∙ v.size;
      within = omega (arith, v.within, counted);
    },
    left,
    refl,
    refl,
  )
    where
      i : ℕ
      i = length line

      c' : Connection
      c' = record c {
        ridx = c.ridx + (i + 1);
        bcnt = c.bcnt - (i + 1);
        buf = set c.buf (c.ridx + i) 0;
      }

      behind : drop (i + 1) (drop c.ridx c.buf) ≡ rest ++ tail
      behind =
          ap (drop (i + 1)) memory
          ∙ sym (drop-add 1 i (line ++ (10 ∷ (rest ++ tail))))
          ∙ ap (drop 1) (drop-append_length line (10 ∷ (rest ++ tail)))

      left : unread c' ≡ rest
      left =
          ap (take (c.bcnt - (i + 1))) (
            drop-set c.buf (c.ridx + i) (c.ridx + (i + 1)) 0 (omega arith)
            ∙ sym (drop-add (i + 1) c.ridx c.buf)
            ∙ behind)
          ∙ ap (λ n. take n (rest ++ tail)) (omega (arith, counted))
          ∙ take-append_length rest tail

  readln_buffered : Gets c line rest c.incoming
  unfolding bstream_readln
  readln_buffered =
      let (c', t, v', u, same, o) = taken in (c', ap (first_look c) eol ∙ t, v', u, same, o)

-- The next line is unread in the buffer, or the next recv completes it.
pub data Arrives (c : Connection) (line rest : List ℕ) : List Received → Type 0 where
  buffered : unread c ≡ line ++ (10 ∷ rest) → Arrives c line rest c.incoming
  one_recv :
      {rs : List Received} (bytes : List ℕ)
      → NoLf (unread c)
      → c.incoming ≡ received bytes ∷ rs
      → 0 < length bytes
      → length bytes ≤ bufsize - c.bcnt
      → unread c ++ bytes ≡ line ++ (10 ∷ rest)
      → Arrives c line rest rs

module _ (c : Connection) (v : IsValid c) (h : NoLf (unread c)) where
  not_buffered : find_eol c ≡ some none
  not_buffered =
      ap₂ memchr (unread_split c) (sym (length-unread c v))
      ∙ memchr_absent (unread c) (drop c.bcnt (drop c.ridx c.buf)) h

  -- Behind the first memchr.
  readln-filled :
      (bytes : List ℕ) (rs : List Received)
      → c.incoming ≡ received bytes ∷ rs
      → 0 < length bytes
      → length bytes ≤ bufsize - c.bcnt
      → bstream_readln c ≡ second_look (filled c v bytes rs) (find_eol (filled c v bytes rs))
  unfolding bstream_readln
  readln-filled bytes rs e pos fits =
      ap (first_look c) not_buffered
      ∙ ap (λ r. and_then r look_again) (bstream_refil-filled c v bytes rs e pos fits)
      ∙ ap
          (λ t.
            if t
            then returns none (filled c v bytes rs)
            else second_look (filled c v bytes rs) (find_eol (filled c v bytes rs)))
          some_came
    where
      some_came : (length bytes == 0) ≡ false
      some_came = ground arith

-- When the next line, line feed included, is unread in the buffer, or is completed by the next recv, with
-- room for what that gives, bstream_readln returns exactly the line, keeps the indices inside the buffer,
-- and leaves exactly the bytes behind the line feed unread.
pub bstream_readln-Arrives :
    (c : Connection) (line rest : List ℕ) (rs : List Received)
    → IsValid c
    → NoLf line
    → Arrives c line rest rs
    → Gets c line rest rs
bstream_readln-Arrives c line rest _ v h (buffered e) = readln_buffered c v line rest e h
bstream_readln-Arrives c line rest rs v h (one_recv bytes none_yet e pos fits split) =
    let valid = filled-IsValid c v bytes rs fits in
    let text = unread-filled c v bytes rs fits ∙ split in
    let (c', t, v', u, same, o) = taken (filled c v bytes rs) valid line rest text h in
    (
      c',
      readln-filled c v none_yet bytes rs e pos fits
          ∙ ap (second_look (filled c v bytes rs))
              (eol (filled c v bytes rs) valid line rest text h)
          ∙ t,
      v',
      u,
      same,
      o,
    )

-- When neither the buffer nor what the next recv adds holds a line feed, bstream_readln returns NULL: it
-- does not wait for the rest of the line.
bstream_readln_partial :
    (c : Connection) (bytes : List ℕ) (rs : List Received)
    → IsValid c
    → NoLf (unread c ++ bytes)
    → c.incoming ≡ received bytes ∷ rs
    → 0 < length bytes
    → length bytes ≤ bufsize - c.bcnt
    → (c' : Connection) × (bstream_readln c ≡ returns none c') × (unread c' ≡ unread c ++ bytes)
bstream_readln_partial c bytes rs v h e pos fits = (
  filled c v bytes rs,
  readln-filled c v (front (unread c) h) bytes rs e pos fits
      ∙ ap (second_look (filled c v bytes rs)) (
          not_buffered (filled c v bytes rs) (filled-IsValid c v bytes rs fits)
            (subst NoLf (sym (unread-filled c v bytes rs fits)) h)),
  unread-filled c v bytes rs fits,
)
  where
    front : (xs : List ℕ) → NoLf (xs ++ bytes) → NoLf xs
    front [] q = tt
    front (x ∷ xs) (q, qs) = (q, front xs qs)

-- No line feed in `bytes`, but more of them asked for.
memchr_past : (bytes : List ℕ) (n : ℕ) → NoLf bytes → length bytes < n → memchr bytes n ≡ none
unfolding memchr
memchr_past bytes zero h lt = absurd (omega arith)
memchr_past [] (suc n) h lt = refl
memchr_past (b ∷ bs) (suc n) (h, hs) lt = rw (h, memchr_past bs n hs (omega arith)) refl

module _ (c : Connection) (rs : List Received) where
  -- Nothing unread, and recv about to fail.
  abbrev failing : Connection
  failing = record c { bcnt = 0; incoming = recv_failed ∷ rs }

  failing_lem : length c.buf ≡ bufsize → NoLf c.buf → bstream_readln failing ≡ faults
  unfolding bstream_readln memchr
  failing_lem e h =
      ap (λ q. second_look (record failing { ridx = 0; bcnt = 2 ^ 64 - 1; incoming = rs }) q)
        (memchr_past c.buf (2 ^ 64 - 1) h (omega (arith, e)))

-- When recv fails while nothing is unread, its -1 becomes the number of unread bytes; if the memory of
-- the buffer holds no line feed, bstream_readln then reads behind its end.
pub bstream_readln_faults :
    (c : Connection) (rs : List Received)
    → IsValid c
    → c.bcnt ≡ 0
    → NoLf c.buf
    → c.incoming ≡ recv_failed ∷ rs
    → bstream_readln c ≡ faults
bstream_readln_faults c rs v z h e =
    ap₂ (λ n i. bstream_readln (record c { bcnt = n; incoming = i })) z e
    ∙ failing_lem c rs v.size h
