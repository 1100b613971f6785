-- ===== src/Memiszero.antt =====
-- memiszero.c: is a block of memory all zero? `memiszero` and `memiszero_32` read aligned words
-- between the bytes at both ends, `memiszero_loop` reads byte by byte.
pub mod Reads
pub mod Blocks
pub mod Agree
mod Tests
use trivia.Prelude.{
  ◌>>=◌, ℕ, zero, suc, ◌+◌, ◌-◌, ◌*◌, ◌/◌, ◌%◌, ◌^◌, bit_or, Bool, true, false, ◌&&◌, Option, none,
  some, ltb, leb, ◌==◌, if◌then◌else◌,
}

-- The bytes from `low` up to `high` can be read; a read elsewhere is a fault.
pub record Memory : Type 0 where
  pub low : ℕ
  pub high : ℕ
  pub byte : ℕ → ℕ

unfoldable pub read : Memory → ℕ → Option ℕ
read m p = if leb m.low p && ltb p m.high then some (m.byte p) else none

-- The fall-through cases of a switch: `count` bytes are read from `p` on, each joined to `z`.
unfoldable pub or_bytes : Memory → ℕ → ℕ → ℕ → Option ℕ
or_bytes m zero p z = some z
or_bytes m (suc count) p z = do b ← read m p; or_bytes m count (p + 1) (bit_or z b)

unfoldable pub load_bytes : Memory → ℕ → ℕ → Option ℕ
load_bytes m zero p = some 0
load_bytes m (suc count) p = do
  b ← read m p
  more ← load_bytes m count (p + 1)
  some (b + 256 * more)

-- `*(__u64 const *) p` and `*(__u32 const *) p`: little-endian, and a fault if `p` is not aligned.
unfoldable pub load_word : Memory → ℕ → ℕ → Option ℕ
load_word m width p = if p % width == 0 then load_bytes m width p else none

-- How the loop over the words ends: by `return 0`, or with the pointer past the last word.
pub data Scan : Type 0 where
  stop : Scan
  reached : ℕ → Scan

-- `for (; p < t; p += width)`; without fuel it does not end.
unfoldable pub words : ℕ → Memory → ℕ → ℕ → ℕ → Option Scan
words zero m width p t = none
words (suc fuel) m width p t =
    let rest = words fuel m width (p + width) t in
    if ltb p t
    then (load_word m width p >>= λ v. if v == 0 then rest else some stop)
    else some (reached p)

-- The bytes up to the next word.
abbrev pub lead : ℕ → ℕ → ℕ
lead width p = if p % width == 0 then 0 else width - p % width

-- `bytes_loop:` and `return !z`.
unfoldable pub bytes_loop : Memory → ℕ → ℕ → ℕ → Option ℕ
bytes_loop m n p z = do z' ← or_bytes m n p z; some (if z' == 0 then 1 else 0)

abbrev pub after_words : Memory → ℕ → ℕ → Scan → Option ℕ
after_words m n z stop = some 0
after_words m n z (reached p) = bytes_loop m n p z

-- Behind the first switch, which joined its bytes to `z`.
unfoldable pub after_lead : Memory → ℕ → ℕ → ℕ → ℕ → ℕ → Option ℕ
after_lead m width n p t z =
    if z == 0 then (words (t + 1) m width p t >>= after_words m n z) else some 0

unfoldable pub memiszero_by : ℕ → Memory → ℕ → ℕ → Option ℕ
memiszero_by width m p n =
    let end : ℕ = (p + n) % 2 ^ 64 in
    if ltb n width
    then bytes_loop m n p 0
    else (or_bytes m (lead width p) p 0
        >>= after_lead m width (end % width) (p + lead width p) (end / width * width))

unfoldable pub memiszero : Memory → ℕ → ℕ → Option ℕ
memiszero = memiszero_by 8

unfoldable pub memiszero_32 : Memory → ℕ → ℕ → Option ℕ
memiszero_32 = memiszero_by 4

-- `for (; p < t; p++)` with `count` bytes left to `t`.
unfoldable pub bytes_until : Memory → ℕ → ℕ → Option ℕ
bytes_until m zero p = some 1
bytes_until m (suc count) p =
    let rest = bytes_until m count (p + 1) in read m p >>= λ b. if b == 0 then rest else some 0

unfoldable pub memiszero_loop : Memory → ℕ → ℕ → Option ℕ
memiszero_loop m p n = bytes_until m n p
