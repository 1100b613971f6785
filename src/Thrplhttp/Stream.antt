-- ===== src/Thrplhttp/Stream.antt =====
-- thrplhttp.c, struct bstream: bstream_write over send. What send returns is a sequence of results.
pub mod Writing
use trivia.Prelude.{
  ℕ, zero, suc, ◌+◌, ◌-◌, ◌%◌, ◌^◌, ◌<◌, ◌≤◌, ◌≡◌, Bool, true, false, ◌&&◌, not, Option, none, some,
  List, [], ◌∷◌, ◌++◌, length, take, drop, ◌==◌, ltb, leb, if◌then◌else◌,
}

-- A size_t.
abbrev pub size_t : ℕ → ℕ
size_t n = n % 2 ^ 64

-- What send returns: -1, or how many bytes were sent.
pub data Sent : Type 0 where
  failed : Sent
  sent : (count : ℕ) → Sent

-- The return value, kept in a size_t.
abbrev pub sent_size : Sent → ℕ
sent_size failed = 2 ^ 64 - 1
sent_size (sent count) = size_t count

-- The bytes from `pos` on that go out.
abbrev pub sent_bytes : List ℕ → ℕ → Sent → List ℕ
sent_bytes buf pos failed = []
sent_bytes buf pos (sent count) = take count (drop pos buf)

-- The loop of bstream_write, with `cnt` bytes sent: its result, the bytes that went out, and the results
-- of send that are left. The test `acnt < 0` of a size_t never holds. A loop that needs more results
-- of send is `none`.
unfoldable pub write_loop : List Sent → List ℕ → ℕ → ℕ → Option (ℕ × List ℕ × List Sent)
write_loop [] buf n cnt = if ltb cnt n then none else some (cnt, [], [])
write_loop (r ∷ rs) buf n cnt =
    let rest = write_loop rs buf n (size_t (cnt + sent_size r)) in
    if ltb cnt n
    then elim rest [
      | none ↦ none
      | some (m, out, left) ↦ some (m, sent_bytes buf cnt r ++ out, left)
    ]
    else some (cnt, [], r ∷ rs)

abbrev pub bstream_write : List Sent → List ℕ → Option (ℕ × List ℕ × List Sent)
bstream_write results buf = write_loop results buf (length buf) 0
