-- ===== src/Thrhttp/Stream/Pieces.antt =====
-- The steps of bstream_readln.
use trivia.Prelude.{
  ℕ, ◌+◌, ◌-◌, ◌≤◌, ◌<◌, ◌≡◌, refl, sym, ap, ap₂, ◌∙◌, true, false, not, none, some, List, ◌∷◌,
  ◌++◌, length, take, drop, min, ltb, leb, ◌==◌, if◌then◌else◌, length-append, length-take,
  length-drop, take-append-drop, take-append_length, drop-append_length, append_assoc, arith,
}
use trivia.Prelude.Slices.{drop-add, take_all}
use trivia.Thrplhttp.Connection.{
  Connection, Received, received, returns, and_then, pure, recv_from, store, memchr,
}
use trivia.Thrplhttp.Connection.Unread.{NoLf, memchr-found, memchr_absent}
use trivia.Thrplhttp.Connection.Refill.{take-store, length-store}
use trivia.Thrhttp.Stream.{refilled, bstream_refil, bstream_readsome, some_unread, find_eol}

-- The bytes received and not yet read.
abbrev pub unread : Connection → List ℕ
unread c = take (c.bcnt - c.ridx) (drop c.ridx c.buf)

pub record IsValid (c : Connection) : Type 0 where
  pub size : length c.buf ≡ 4096
  pub order : c.ridx ≤ c.bcnt
  pub within : c.bcnt ≤ 4096

pub same : {a b : ℕ} → a ≡ b → (a == b) ≡ true
same h = ground arith

pub below : (a b : ℕ) → a < b → ltb a b ≡ true
below a b h = ground arith

not_above : (a b : ℕ) → a ≤ b → leb a b ≡ true
not_above a b h = ground arith

module _ (c : Connection) (v : IsValid c) where
  pub length-unread : length (unread c) ≡ c.bcnt - c.ridx
  length-unread = omega (
    arith,
    v.size,
    v.order,
    v.within,
    length-take (c.bcnt - c.ridx) (drop c.ridx c.buf),
    length-drop c.ridx c.buf,
  )

  memory : drop c.ridx c.buf ≡ unread c ++ drop (c.bcnt - c.ridx) (drop c.ridx c.buf)
  memory = sym (take-append-drop (c.bcnt - c.ridx) (drop c.ridx c.buf))

  tail : List ℕ
  tail = drop (c.bcnt - c.ridx) (drop c.ridx c.buf)

  memory_split : (xs ys : List ℕ) → unread c ≡ xs ++ ys → drop c.ridx c.buf ≡ xs ++ (ys ++ tail)
  unfolding tail
  memory_split xs ys e =
      memory
      ∙ ap (λ q. q ++ drop (c.bcnt - c.ridx) (drop c.ridx c.buf)) e
      ∙ append_assoc xs ys (drop (c.bcnt - c.ridx) (drop c.ridx c.buf))

  counted : (xs ys : List ℕ) → unread c ≡ xs ++ ys → c.bcnt - c.ridx ≡ length xs + length ys
  counted xs ys e = sym length-unread ∙ ap length e ∙ length-append xs ys

  -- `k` bytes further.
  abbrev pub ahead : ℕ → Connection
  ahead k = record c { ridx = c.ridx + k }

  pub readsome-ahead :
      (xs ys : List ℕ)
      → unread c ≡ xs ++ ys
      → 0 < length xs
      → bstream_readsome (length xs) c ≡ returns (length xs, xs) (ahead (length xs))
  readsome-ahead xs ys e pos = rw (less, all, front) refl
    where
      less : ltb c.ridx c.bcnt ≡ true
      less = below c.ridx c.bcnt (omega (arith, counted xs ys e))

      all : min (c.bcnt - c.ridx) (length xs) ≡ length xs
      all = omega (arith, counted xs ys e)

      front : take (length xs) (drop c.ridx c.buf) ≡ xs
      front = ap (take (length xs)) (memory_split xs ys e) ∙ take-append_length xs (ys ++ tail)

  pub ahead-IsValid : (xs ys : List ℕ) → unread c ≡ xs ++ ys → IsValid (ahead (length xs))
  ahead-IsValid xs ys e = record {
    size = v.size;
    order = omega (arith, v.order, sym length-unread ∙ ap length e, length-append xs ys);
    within = v.within;
  }

  pub unread-ahead : (xs ys : List ℕ) → unread c ≡ xs ++ ys → unread (ahead (length xs)) ≡ ys
  unread-ahead xs ys e =
      ap (take (c.bcnt - (c.ridx + length xs))) (
        sym (drop-add (length xs) c.ridx c.buf)
        ∙ ap (drop (length xs)) (memory_split xs ys e)
        ∙ drop-append_length xs (ys ++ tail))
      ∙ ap (λ k. take k (ys ++ tail)) left_over
      ∙ take-append_length ys tail
    where
      left_over : c.bcnt - (c.ridx + length xs) ≡ length ys
      left_over = omega (arith, counted xs ys e)

  abbrev pub filled : List ℕ → List Received → Connection
  filled bytes rs = record c {
    ridx = 0;
    bcnt = length bytes;
    buf = store c.buf 0 bytes;
    incoming = rs;
  }

  refil-filled :
      (bytes : List ℕ) (rs : List Received)
      → received bytes ∷ rs ≡ c.incoming
      → length bytes ≤ 4096
      → bstream_refil c ≡ returns (length bytes) (filled bytes rs)
  refil-filled bytes rs e fits =
      ap (λ i. refilled c (recv_from 4096 i)) (sym e)
      ∙ ap₂
          (λ q t.
            refilled c (some (received q, (if t then rs else received (drop 4096 bytes) ∷ rs))))
          (take_all 4096 bytes fits) (not_above (length bytes) 4096 fits)

  pub filled-IsValid :
      (bytes : List ℕ) (rs : List Received) → length bytes ≤ 4096 → IsValid (filled bytes rs)
  filled-IsValid bytes rs fits = record {
    size = length-store c.buf 0 bytes (omega (arith, v.size)) ∙ v.size;
    order = omega arith;
    within = fits;
  }

  pub unread-filled :
      (bytes : List ℕ) (rs : List Received) → length bytes ≤ 4096 → unread (filled bytes rs) ≡ bytes
  unread-filled bytes rs fits =
      ap (λ k. take k (store c.buf 0 bytes)) zero_more ∙ take-store c.buf 0 bytes (omega arith)
    where
      zero_more : length bytes - 0 ≡ 0 + length bytes
      zero_more = omega arith

  pub find_eol-found :
      (line rest : List ℕ)
      → unread c ≡ line ++ (10 ∷ rest)
      → NoLf line
      → find_eol c ≡ some (some (length line))
  find_eol-found line rest e h =
      ap (λ m. memchr m (c.bcnt - c.ridx)) (memory_split line (10 ∷ rest) e)
      ∙ memchr-found line (rest ++ tail) (c.bcnt - c.ridx) h
          (omega (arith, counted line (10 ∷ rest) e))

  pub find_eol_absent : NoLf (unread c) → find_eol c ≡ some none
  find_eol_absent h =
      ap₂ memchr memory (sym length-unread)
      ∙ memchr_absent (unread c) (drop (c.bcnt - c.ridx) (drop c.ridx c.buf)) h

  pub some_unread-true : 0 < length (unread c) → some_unread c ≡ returns true c
  some_unread-true pos =
      ap (λ t. if t then and_then (bstream_refil c) (λ n. pure (not (n == 0))) else returns true c)
        apart
    where
      apart : (c.ridx == c.bcnt) ≡ false
      apart = ground (arith, length-unread)

  pub some_unread-filled :
      (bytes : List ℕ) (rs : List Received)
      → length (unread c) ≡ 0
      → received bytes ∷ rs ≡ c.incoming
      → 0 < length bytes
      → length bytes ≤ 4096
      → some_unread c ≡ returns true (filled bytes rs)
  some_unread-filled bytes rs z e pos fits =
      ap (λ t. if t then and_then (bstream_refil c) (λ n. pure (not (n == 0))) else returns true c)
        level
      ∙ ap (λ r. and_then r (λ n. pure (not (n == 0)))) (refil-filled bytes rs e fits)
      ∙ ap (λ t. returns (not t) (filled bytes rs)) (positive (length bytes) pos)
    where
      positive : (n : ℕ) → 0 < n → (n == 0) ≡ false
      positive n h = ground arith

      level : (c.ridx == c.bcnt) ≡ true
      level = same (omega (arith, length-unread, v.order, z))
