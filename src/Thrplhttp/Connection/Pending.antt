-- ===== src/Thrplhttp/Connection/Pending.antt =====
-- A bound on what a connection can still read, and the operations that keep it.
use trivia.Prelude.{
  ℕ, zero, suc, ◌+◌, ◌-◌, ◌^◌, ◌<◌, ◌≤◌, ◌≡◌, refl, ap, Bool, true, false, Option, none, some, List,
  [], ◌∷◌, length, take, drop, length-take, length-drop, arith, leb, ltb, ◌==◌, if◌then◌else◌,
}
use trivia.Thrplhttp.Stream.{size_t}
use trivia.Thrplhttp.Connection.Budget.{Budget, Below, Takes, Below-weaken}
use trivia.Thrplhttp.Connection.{
  Connection, Received, recv_failed, received, Run, returns, waits, faults, exits, unfinished,
  and_then, bufsize, recv_from, refilled, bstream_refil, memchr, shift, find_eol, take_line,
  second_look, look_again, first_look, bstream_readln,
}

-- What a result of recv can add to the bytes to read, and one for the call.
abbrev pub weight : Received → ℕ
weight recv_failed = 2 ^ 64
weight (received bytes) = length bytes + 1

abbrev pub total : List Received → ℕ
total [] = 0
total (r ∷ rs) = weight r + total rs

-- A bound on the lines that can still be read.
abbrev pub pending : Connection → ℕ
pending c = c.bcnt + total c.incoming

abbrev pub budget : Budget
budget = record {
  Within = λ n c. pending c ≤ n;
  weaken = λ m n c le w. omega (arith, le, w);
  stable = λ n c results wire tbytes reqs w. w;
}

-- A line feed found is among the bytes looked at.
abbrev pub Found : ℕ → Option (Option ℕ) → Type 0
Found n none = Unit
Found n (some none) = Unit
Found n (some (some i)) = i < n

Found-shift : (n : ℕ) (o : Option (Option ℕ)) → Found n o → Found (suc n) (shift o)
Found-shift n none h = tt
Found-shift n (some none) h = tt
Found-shift n (some (some i)) h = omega (arith, h)

Found-if :
    (n : ℕ) (t : Bool) (o : Option (Option ℕ))
    → Found (suc n) o
    → Found (suc n) (if t then some (some 0) else o)
Found-if n true o h = omega arith
Found-if n false o h = h

pub memchr-Found : (bytes : List ℕ) (n : ℕ) → Found n (memchr bytes n)
unfolding memchr
memchr-Found bytes zero = tt
memchr-Found [] (suc n) = tt
memchr-Found (b ∷ bytes) (suc n) =
    Found-if n (b == 10) (shift (memchr bytes n))
      (Found-shift n (memchr bytes n) (memchr-Found bytes n))

take_line-Takes :
    (n i : ℕ) (c : Connection) → pending c ≤ n → i < c.bcnt → Takes budget n (take_line i c)
take_line-Takes n i c le h =
    (c.bcnt - (i + 1) + total c.incoming, omega (arith, le, h), omega arith)

Takes-second_look :
    (n : ℕ) (c : Connection) (o : Option (Option ℕ))
    → pending c ≤ n
    → Found c.bcnt o
    → Takes budget n (second_look c o)
Takes-second_look n c none le h = tt
Takes-second_look n c (some none) le h = le
Takes-second_look n c (some (some i)) le h = take_line-Takes n i c le h

Takes-look_again : (n k : ℕ) (c : Connection) → pending c ≤ n → Takes budget n (look_again k c)
Takes-look_again n k c le = look (k == 0)
  where
    look : (t : Bool) → Takes budget n (if t then returns none c else second_look c (find_eol c))
    look true = le
    look false = Takes-second_look n c (find_eol c) le (memchr-Found (drop c.ridx c.buf) c.bcnt)

Takes-and_then : (n : ℕ) (r : Run ℕ) → Below budget n r → Takes budget n (and_then r look_again)
Takes-and_then n (returns k c) b = Takes-look_again n k c b
Takes-and_then n waits b = tt
Takes-and_then n faults b = tt
Takes-and_then n (exits c) b = tt
Takes-and_then n unfinished b = b

count-add : (n k : ℕ) → (if ltb 0 k then size_t (n + k) else n) ≤ n + k
count-add n k = ground arith

pub total-left :
    (t : Bool) (k : ℕ) (bytes : List ℕ) (rs : List Received)
    → total (if t then rs else received (drop k bytes) ∷ rs) + length (take k bytes)
      ≤ length bytes + 1 + total rs
total-left true k bytes rs = omega (arith, length-take k bytes)
total-left false k bytes rs = omega (arith, length-take k bytes, length-drop k bytes)

Below-refilled :
    (c : Connection) (rs : List Received)
    → rs ≡ c.incoming
    → Below budget (pending c) (refilled c (recv_from (bufsize - c.bcnt) rs))
Below-refilled c [] e = tt
Below-refilled c (recv_failed ∷ rs) e = omega (arith, ap total e)
Below-refilled c (received bytes ∷ rs) e = omega (
  arith,
  ap total e,
  count-add c.bcnt (length (take k bytes)),
  total-left (leb (length bytes) k) k bytes rs,
)
  where
    k : ℕ
    k = bufsize - c.bcnt

Takes-first_look :
    (n : ℕ) (c : Connection) (o : Option (Option ℕ))
    → pending c ≤ n
    → Found c.bcnt o
    → Takes budget n (first_look c o)
Takes-first_look n c none le h = tt
Takes-first_look n c (some (some i)) le h = take_line-Takes n i c le h
Takes-first_look n c (some none) le h =
    Takes-and_then n (bstream_refil c)
      (Below-weaken budget (pending c) n (bstream_refil c) le (Below-refilled c c.incoming refl))

pub bstream_readln-Takes :
    (n : ℕ) (c : Connection) → pending c ≤ n → Takes budget n (bstream_readln c)
unfolding bstream_readln
bstream_readln-Takes n c le =
    Takes-first_look n c (find_eol c) le (memchr-Found (drop c.ridx c.buf) c.bcnt)
