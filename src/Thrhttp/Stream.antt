-- ===== src/Thrhttp/Stream.antt =====
-- thrhttp.c, struct bstream: bstream_refil, bstream_readsome, bstream_readln, bstream_write and
-- bstream_printf. Here `ridx` and `bcnt` are where the unread bytes begin and end, and a line is put
-- together from as many calls of recv as it takes.
pub mod Pieces
pub mod Lines
pub mod Remaining
use trivia.Prelude.{
  ℕ, zero, suc, ◌+◌, ◌-◌, ◌^◌, Bool, true, false, not, Option, none, some, List, [], ◌∷◌, ◌++◌,
  length, take, drop, min, ◌==◌, ltb, leb, if◌then◌else◌,
}
use trivia.Thrplhttp.Connection.{
  Connection, Received, recv_failed, received, Run, returns, waits, faults, unfinished, Action,
  pure, and_then, recv_from, recv_size, recv_bytes, store, memchr, send_bytes,
}

-- Behind recv, whose result is the new `bcnt`.
abbrev pub refilled : Connection → Option (Received × List Received) → Run ℕ
refilled c none = waits
refilled c (some (r, rs)) =
    returns (recv_size r)
      (record c { ridx = 0; bcnt = recv_size r; buf = store c.buf 0 (recv_bytes r); incoming = rs })

abbrev pub bstream_refil : Action ℕ
bstream_refil c = refilled c (recv_from 4096 c.incoming)

-- Behind recv into the caller's memory.
abbrev pub received_some : Connection → Option (Received × List Received) → Run (ℕ × List ℕ)
received_some c none = waits
received_some c (some (r, rs)) = returns (recv_size r, recv_bytes r) (record c { incoming = rs })

-- The result, and the bytes copied.
abbrev pub bstream_readsome : ℕ → Action (ℕ × List ℕ)
bstream_readsome n c =
    if ltb c.ridx c.bcnt
    then returns (min (c.bcnt - c.ridx) n, take (min (c.bcnt - c.ridx) n) (drop c.ridx c.buf))
        (record c { ridx = c.ridx + min (c.bcnt - c.ridx) n })
    else received_some c (recv_from n c.incoming)

-- The test at the head of the loop: whether there is something unread.
abbrev pub some_unread : Action Bool
some_unread c =
    if c.ridx == c.bcnt
    then and_then (bstream_refil c) (λ n. pure (not (n == 0)))
    else returns true c

abbrev pub find_eol : Connection → Option (Option ℕ)
find_eol c = memchr (drop c.ridx c.buf) (c.bcnt - c.ridx)

-- `ln`, with no bytes for NULL.
abbrev pub so_far : Option (List ℕ) → List ℕ
so_far none = []
so_far (some ln) = ln

-- More than the calls of recv that can give something.
abbrev pub calls : List Received → ℕ
calls [] = 2
calls (recv_failed ∷ rs) = 1 + calls rs
calls (received bytes ∷ rs) = 1 + length bytes + calls rs

module _ (malloc : ℕ → Bool) where
  -- From realloc on: `cnt` bytes are added to the line, and the loop ends, with `true`, or goes on.
  abbrev pub add_piece :
      Option (List ℕ)
      → Bool
      → ℕ
      → (Option (List ℕ) → Action (Option (List ℕ)))
      → Action (Option (List ℕ))
  add_piece ln at_eol cnt again c =
      if malloc (length (so_far ln) + cnt + 1)
      then and_then (bstream_readsome cnt c) (λ (n, bytes).
        if at_eol then pure (some (so_far ln ++ bytes)) else again (some (so_far ln ++ bytes)))
      else returns none c

  -- Behind memchr.
  abbrev pub next_piece :
      Option (List ℕ)
      → (Option (List ℕ) → Action (Option (List ℕ)))
      → Connection
      → Option (Option ℕ)
      → Run (Option (List ℕ))
  next_piece ln again c none = faults
  next_piece ln again c (some (some i)) = add_piece ln true (i + 1) again c
  next_piece ln again c (some none) = add_piece ln false (c.bcnt - c.ridx) again c

  abbrev pub piece :
      Option (List ℕ)
      → (Option (List ℕ) → Action (Option (List ℕ)))
      → Bool
      → Action (Option (List ℕ))
  piece ln again true c = next_piece ln again c (find_eol c)
  piece ln again false c = returns ln c

  -- The loop of bstream_readln, with the line so far.
  unfoldable pub readln_loop : ℕ → Option (List ℕ) → Action (Option (List ℕ))
  readln_loop zero ln c = unfinished
  readln_loop (suc fuel) ln c = and_then (some_unread c) (λ more. piece ln (readln_loop fuel) more)

  -- The line, with its line feed if it has one; `none` is NULL.
  abbrev pub bstream_readln : Action (Option (List ℕ))
  bstream_readln c = readln_loop (calls c.incoming) none c

  -- vasprintf gives no text and -1 without memory.
  abbrev pub bstream_printf : List ℕ → Action ℕ
  bstream_printf text c =
      if malloc (length text + 1) then send_bytes text c else returns (2 ^ 64 - 1) c
