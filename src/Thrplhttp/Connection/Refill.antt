-- ===== src/Thrplhttp/Connection/Refill.antt =====
-- bstream_refil: the memmove and a recv that gives bytes.
use trivia.Prelude.{
  ℕ, zero, suc, ◌+◌, ◌-◌, ◌≤◌, ◌<◌, ◌≡◌, refl, sym, ap, ap₂, ◌∙◌, true, ◌&&◌, some, List, ◌∷◌, ◌++◌,
  length, take, drop, length-append, length-take, length-drop, take-append_length, arith,
  append_assoc, ltb, leb, if◌then◌else◌,
}
use trivia.Prelude.Slices.{take_all}
use trivia.Thrplhttp.Stream.{size_t}
use trivia.Thrplhttp.Connection.{
  Connection, Received, received, returns, bufsize, recv_from, store, moved, refilled,
  bstream_refil,
}
use trivia.Thrplhttp.Connection.Unread.{unread, IsValid}

pub length-store :
    (buf : List ℕ) (i : ℕ) (bytes : List ℕ)
    → i + length bytes ≤ length buf
    → length (store buf i bytes) ≡ length buf
length-store buf i bytes h = omega (
  arith,
  length-append (take i buf) (bytes ++ drop (i + length bytes) buf),
  length-append bytes (drop (i + length bytes) buf),
  length-take i buf,
  length-drop (i + length bytes) buf,
)

pub take-store :
    (buf : List ℕ) (i : ℕ) (bytes : List ℕ)
    → i ≤ length buf
    → take (i + length bytes) (store buf i bytes) ≡ take i buf ++ bytes
take-store buf i bytes h =
    ap (λ m. take m (store buf i bytes)) size
    ∙ ap (take (length (take i buf ++ bytes))) (sym (append_assoc (take i buf) bytes rest))
    ∙ take-append_length (take i buf ++ bytes) rest
  where
    rest : List ℕ
    rest = drop (i + length bytes) buf

    size : i + length bytes ≡ length (take i buf ++ bytes)
    size = omega (arith, h, length-append (take i buf) bytes, length-take i buf)

-- Where the unread bytes stand after the memmove, for `n` of them behind `r`.
abbrev slide : ℕ → ℕ → List ℕ → List ℕ
slide n r buf = if ltb 0 n && ltb 0 r then store buf 0 (take n (drop r buf)) else buf

positive : (n : ℕ) → ltb 0 (suc n) ≡ true
positive n = ground arith

slide_all :
    (n r : ℕ) (buf : List ℕ)
    → slide (suc n) (suc r) buf ≡ store buf 0 (take (suc n) (drop (suc r) buf))
slide_all n r buf = rw (positive n, positive r) refl

slide_start : (n : ℕ) (buf : List ℕ) → slide n 0 buf ≡ buf
slide_start zero buf = refl
slide_start (suc n) buf = rw (positive n) refl

length-unread_at : (n r : ℕ) (buf : List ℕ) → r + n ≤ length buf → length (take n (drop r buf)) ≡ n
length-unread_at n r buf h = omega (arith, h, length-take n (drop r buf), length-drop r buf)

length-slide : (n r : ℕ) (buf : List ℕ) → r + n ≤ length buf → length (slide n r buf) ≡ length buf
length-slide zero r buf h = refl
length-slide (suc n) zero buf h = ap length (slide_start (suc n) buf)
length-slide (suc n) (suc r) buf h =
    ap length (slide_all n r buf)
    ∙ length-store buf 0 (take (suc n) (drop (suc r) buf))
        (omega (arith, h, length-unread_at (suc n) (suc r) buf h))

take-slide :
    (n r : ℕ) (buf : List ℕ) → r + n ≤ length buf → take n (slide n r buf) ≡ take n (drop r buf)
take-slide zero r buf h = refl
take-slide (suc n) zero buf h = ap (take (suc n)) (slide_start (suc n) buf)
take-slide (suc n) (suc r) buf h =
    ap (take (suc n)) (slide_all n r buf)
    ∙ ap (λ m. take m (store buf 0 bytes)) size
    ∙ take-store buf 0 bytes (omega arith)
  where
    bytes : List ℕ
    bytes = take (suc n) (drop (suc r) buf)

    size : suc n ≡ 0 + length bytes
    size = omega (arith, length-unread_at (suc n) (suc r) buf h)

module _ (c : Connection) (v : IsValid c) (bytes : List ℕ) (rs : List Received) where
  length-moved : length (moved c) ≡ bufsize
  length-moved = length-slide c.bcnt c.ridx c.buf (omega (arith, v.size, v.within)) ∙ v.size

  take-moved : take c.bcnt (moved c) ≡ unread c
  take-moved = take-slide c.bcnt c.ridx c.buf (omega (arith, v.size, v.within))

  -- One recv that gives `bytes`, with room for all of them.
  abbrev pub filled : Connection
  filled = record c {
    ridx = 0;
    bcnt = c.bcnt + length bytes;
    buf = store (moved c) c.bcnt bytes;
    incoming = rs;
  }

  room :
      length bytes ≤ bufsize - c.bcnt
      → recv_from (bufsize - c.bcnt) (received bytes ∷ rs) ≡ some (received bytes, rs)
  room fits =
      ap₂
        (λ q t.
          some (received q, (if t then rs else received (drop (bufsize - c.bcnt) bytes) ∷ rs)))
        (take_all (bufsize - c.bcnt) bytes fits) (enough fits)
    where
      enough : length bytes ≤ bufsize - c.bcnt → leb (length bytes) (bufsize - c.bcnt) ≡ true
      enough h = ground arith

  pub bstream_refil-filled :
      c.incoming ≡ received bytes ∷ rs
      → 0 < length bytes
      → length bytes ≤ bufsize - c.bcnt
      → bstream_refil c ≡ returns (length bytes) filled
  bstream_refil-filled e pos fits =
      ap (refilled c) (ap (recv_from (bufsize - c.bcnt)) e ∙ room fits)
      ∙ ap (λ n. returns (length bytes) (record filled { bcnt = n })) counts
    where
      counts :
          (if ltb 0 (length bytes) then size_t (c.bcnt + length bytes) else c.bcnt)
          ≡ c.bcnt + length bytes
      counts = ground (arith, v.within)

  pub filled-IsValid : length bytes ≤ bufsize - c.bcnt → IsValid filled
  filled-IsValid fits = record {
    size =
        length-store (moved c) c.bcnt bytes (omega (arith, length-moved, v.within)) ∙ length-moved;
    within = omega (arith, v.within, fits);
  }

  pub unread-filled : length bytes ≤ bufsize - c.bcnt → unread filled ≡ unread c ++ bytes
  unread-filled fits =
      take-store (moved c) c.bcnt bytes (omega (arith, length-moved, v.within))
      ∙ ap (λ q. q ++ bytes) take-moved
