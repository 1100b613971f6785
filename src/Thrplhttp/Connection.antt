-- ===== src/Thrplhttp/Connection.antt =====
-- thrplhttp.c, a connection: struct bstream over a socket, with bstream_open, bstream_refil,
-- bstream_readln and bstream_printf. What the socket does is a sequence
-- of results for recv and one for send.
pub mod Unread
pub mod Refill
pub mod Lines
pub mod Budget
pub mod Pending
use trivia.Prelude.{
  ℕ, zero, suc, ◌+◌, ◌-◌, ◌%◌, ◌^◌, ◌<◌, ◌≤◌, ◌≡◌, Bool, true, false, ◌&&◌, not, Option, none, some,
  List, [], ◌∷◌, ◌++◌, length, take, drop, set, replicate, ◌==◌, ltb, leb, if◌then◌else◌,
}
use trivia.Thrplhttp.Stream.{size_t, Sent, bstream_write}

-- What recv returns: -1, or bytes, and with none of them the end of the connection.
pub data Received : Type 0 where
  recv_failed : Received
  received : (bytes : List ℕ) → Received

-- The stream and its socket, what went out, and the counters of the processor.
pub record Connection : Type 0 where
  pub ridx : ℕ
  pub bcnt : ℕ
  pub buf : List ℕ
  pub incoming : List Received
  pub results : List Sent
  pub wire : List ℕ
  pub tbytes : ℕ
  pub reqs : ℕ

-- bstream_open, with what the memory holds; the socket and the counters go on.
abbrev pub bstream_open : List ℕ → Connection → Connection
bstream_open memory c = record c { ridx = 0; bcnt = 0; buf = take 4096 memory }

-- How an operation ends: it returns; it waits for the socket for ever; it accesses memory outside the
-- buffer; the program exits; or the rounds that it was given are used up.
pub data Run (A : Type 0) : Type 0 where
  returns : (a : A) (c : Connection) → Run A
  waits : Run A
  faults : Run A
  exits : (c : Connection) → Run A
  unfinished : Run A

abbrev pub Action : Type 0 → Type 0
Action A = Connection → Run A

module _ {A : Type 0} where
  abbrev pub pure : A → Action A
  pure a c = returns a c

module _ {A B : Type 0} where
  abbrev pub and_then : Run A → (A → Action B) → Run B
  and_then (returns a c) f = f a c
  and_then waits f = waits
  and_then faults f = faults
  and_then (exits c) f = exits c
  and_then unfinished f = unfinished

  infixl 5 ◌>>=◌ ◌>>◌
  abbrev pub ◌>>=◌ : Action A → (A → Action B) → Action B
  ◌>>=◌ m f c = and_then (m c) f

  abbrev pub ◌>>◌ : Action A → Action B → Action B
  m >> k = m >>= λ _. k

abbrev pub bufsize : ℕ
bufsize = 4096

-- recv of at most `n` bytes; what does not fit is left for the next.
abbrev pub recv_from : ℕ → List Received → Option (Received × List Received)
recv_from n [] = none
recv_from n (recv_failed ∷ rs) = some (recv_failed, rs)
recv_from n (received bytes ∷ rs) =
    some
      (received (take n bytes), (if leb (length bytes) n then rs else received (drop n bytes) ∷ rs))

-- The result, kept in a size_t.
abbrev pub recv_size : Received → ℕ
recv_size recv_failed = 2 ^ 64 - 1
recv_size (received bytes) = length bytes

abbrev pub recv_bytes : Received → List ℕ
recv_bytes recv_failed = []
recv_bytes (received bytes) = bytes

-- Bytes stored from `i` on.
abbrev pub store : List ℕ → ℕ → List ℕ → List ℕ
store buf i bytes = take i buf ++ (bytes ++ drop (i + length bytes) buf)

-- memmove(bstr->buf, bstr->buf + bstr->ridx, bstr->bcnt)
abbrev pub moved : Connection → List ℕ
moved c =
    if ltb 0 c.bcnt && ltb 0 c.ridx then store c.buf 0 (take c.bcnt (drop c.ridx c.buf)) else c.buf

-- Behind recv. `n > 0` holds for a failed recv too.
abbrev pub refilled : Connection → Option (Received × List Received) → Run ℕ
refilled c none = waits
refilled c (some (r, rs)) = returns (recv_size r) (record c {
  ridx = 0;
  bcnt = if ltb 0 (recv_size r) then size_t (c.bcnt + recv_size r) else c.bcnt;
  buf = store (moved c) c.bcnt (recv_bytes r);
  incoming = rs;
})

abbrev pub bstream_refil : Action ℕ
bstream_refil c = refilled c (recv_from (bufsize - c.bcnt) c.incoming)

-- memchr for a line feed in the next `n` bytes of a memory that ends with the list: found there, not
-- among them, or `none` when it runs past the end.
abbrev pub shift : Option (Option ℕ) → Option (Option ℕ)
shift none = none
shift (some none) = some none
shift (some (some i)) = some (some (suc i))

unfoldable pub memchr : List ℕ → ℕ → Option (Option ℕ)
memchr bytes zero = some none
memchr [] (suc n) = none
memchr (b ∷ bytes) (suc n) =
    let later = memchr bytes n in if b == 10 then some (some 0) else shift later

abbrev pub find_eol : Connection → Option (Option ℕ)
find_eol c = memchr (drop c.ridx c.buf) c.bcnt

-- From `lsize = ...` on, with the line feed `i` bytes behind `ridx`.
abbrev pub take_line : ℕ → Action (Option (List ℕ))
take_line i c =
    returns (some (take i (drop c.ridx c.buf))) (record c {
      ridx = c.ridx + (i + 1);
      bcnt = c.bcnt - (i + 1);
      buf = set c.buf (c.ridx + i) 0;
    })

-- Behind the second memchr.
abbrev pub second_look : Connection → Option (Option ℕ) → Run (Option (List ℕ))
second_look c none = faults
second_look c (some none) = returns none c
second_look c (some (some i)) = take_line i c

abbrev pub look_again : ℕ → Action (Option (List ℕ))
look_again n c = if n == 0 then returns none c else second_look c (find_eol c)

abbrev pub first_look : Connection → Option (Option ℕ) → Run (Option (List ℕ))
first_look c none = faults
first_look c (some (some i)) = take_line i c
first_look c (some none) = and_then (bstream_refil c) look_again

-- The line, without its line feed; `none` is NULL.
unfoldable pub bstream_readln : Action (Option (List ℕ))
bstream_readln c = first_look c (find_eol c)

-- bstream_write on the connection.
abbrev pub written : Connection → Option (ℕ × List ℕ × List Sent) → Run ℕ
written c none = waits
written c (some (n, out, left)) = returns n (record c { wire = c.wire ++ out; results = left })

abbrev pub send_bytes : List ℕ → Action ℕ
send_bytes bytes c = written c (bstream_write c.results bytes)

-- bstream_printf; without memory for the text the program exits.
module _ (malloc : ℕ → Bool) where
  abbrev pub bstream_printf : List ℕ → Action ℕ
  bstream_printf text c = if malloc (length text + 1) then send_bytes text c else exits c
