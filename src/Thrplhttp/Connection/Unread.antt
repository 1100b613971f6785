-- ===== src/Thrplhttp/Connection/Unread.antt =====
-- The unread bytes of a connection, and the search for a line feed in them.
use trivia.Prelude.{
  ℕ, zero, suc, ◌+◌, ◌≤◌, ◌<◌, ◌≡◌, refl, sym, false, none, some, List, [], ◌∷◌, ◌++◌, length, take,
  drop, set, length-take, length-drop, take-append-drop, arith, ◌==◌,
}
use trivia.Thrplhttp.Stream.{Sent}
use trivia.Thrplhttp.Connection.{Connection, bufsize, memchr}

-- The bytes received and not yet read.
abbrev pub unread : Connection → List ℕ
unread c = take c.bcnt (drop c.ridx c.buf)

pub record IsValid (c : Connection) : Type 0 where
  pub size : length c.buf ≡ bufsize
  pub within : c.ridx + c.bcnt ≤ bufsize

-- No line feed.
abbrev pub NoLf : List ℕ → Type 0
NoLf [] = Unit
NoLf (b ∷ bs) = ((b == 10) ≡ false) × NoLf bs

pub memchr-found :
    (line rest : List ℕ) (n : ℕ)
    → NoLf line
    → length line < n
    → memchr (line ++ (10 ∷ rest)) n ≡ some (some (length line))
unfolding memchr
memchr-found [] rest zero h lt = absurd (omega arith)
memchr-found [] rest (suc n) h lt = refl
memchr-found (b ∷ bs) rest zero h lt = absurd (omega arith)
memchr-found (b ∷ bs) rest (suc n) (h, hs) lt = rw (h, memchr-found bs rest n hs (omega arith)) refl

pub memchr_absent :
    (bytes more : List ℕ) → NoLf bytes → memchr (bytes ++ more) (length bytes) ≡ some none
unfolding memchr
memchr_absent [] more h = refl
memchr_absent (b ∷ bs) more (h, hs) = rw (h, memchr_absent bs more hs) refl

-- The memory from `ridx` on begins with the unread bytes.
pub unread_split :
    (c : Connection) → drop c.ridx c.buf ≡ unread c ++ drop c.bcnt (drop c.ridx c.buf)
unread_split c = sym (take-append-drop c.bcnt (drop c.ridx c.buf))

pub length-unread : (c : Connection) → IsValid c → length (unread c) ≡ c.bcnt
length-unread c v =
    omega
      (arith, v.size, v.within, length-take c.bcnt (drop c.ridx c.buf), length-drop c.ridx c.buf)

pub drop-set : (xs : List ℕ) (j k v : ℕ) → j < k → drop k (set xs j v) ≡ drop k xs
drop-set xs j zero v h = absurd (omega arith)
drop-set [] j (suc k) v h = refl
drop-set (x ∷ xs) zero (suc k) v h = refl
drop-set (x ∷ xs) (suc j) (suc k) v h = drop-set xs j k v (omega arith)

-- What is not for reading: the results of send, the wire and the counters.
abbrev pub outputs : Connection → List Sent × List ℕ × ℕ × ℕ
outputs c = (c.results, c.wire, c.tbytes, c.reqs)
