-- ===== src/Thrplhttp/Stream/Writing.antt =====
-- What bstream_write puts on the wire.
use trivia.Prelude.{
  ℕ, zero, suc, ◌+◌, ◌-◌, ◌^◌, ◌<◌, ◌≤◌, ◌≡◌, refl, sym, ap, ◌∙◌, some, List, [], ◌∷◌, ◌++◌, length,
  take, drop, arith,
}
use trivia.Thrplhttp.Stream.{
  size_t, Sent, failed, sent, sent_size, sent_bytes, write_loop, bstream_write,
}

-- The results of send up to the end of the data: each sends at least one byte, and no more than are
-- left; `left` are those behind them.
pub data Sends (n : ℕ) (left : List Sent) : ℕ → List Sent → Type 0 where
  complete : Sends n left n left
  progress :
      {cnt : ℕ} {rs : List Sent} (count : ℕ)
      → 0 < count
      → cnt + count ≤ n
      → Sends n left (cnt + count) rs
      → Sends n left cnt (sent count ∷ rs)

drop-nil : (n : ℕ) → drop {A = ℕ} n [] ≡ []
drop-nil zero = refl
drop-nil (suc n) = refl

take-nil : (n : ℕ) → take {A = ℕ} n [] ≡ []
take-nil zero = refl
take-nil (suc n) = refl

drop-take_add :
    (buf : List ℕ) (a b c : ℕ) → c ≡ a + b → take b (drop a buf) ++ drop c buf ≡ drop a buf
drop-take_add [] a b c e = rw (drop-nil a, drop-nil c, take-nil b) refl
drop-take_add (x ∷ buf) zero zero zero e = refl
drop-take_add (x ∷ buf) zero zero (suc c) e = absurd (omega arith)
drop-take_add (x ∷ buf) zero (suc b) zero e = absurd (omega arith)
drop-take_add (x ∷ buf) zero (suc b) (suc c) e =
    ap (λ q. x ∷ q) (drop-take_add buf zero b c (omega arith))
drop-take_add (x ∷ buf) (suc a) b zero e = absurd (omega arith)
drop-take_add (x ∷ buf) (suc a) b (suc c) e = drop-take_add buf a b c (omega arith)

drop_all : (buf : List ℕ) → drop (length buf) buf ≡ []
drop_all [] = refl
drop_all (x ∷ buf) = drop_all buf

write_loop_end :
    (rs : List Sent) (buf : List ℕ) {n cnt : ℕ}
    → n ≤ cnt
    → write_loop rs buf n cnt ≡ some (cnt, [], rs)
unfolding write_loop
write_loop_end [] buf le = ground arith
write_loop_end (r ∷ rs) buf le = ground arith

-- One round.
write_loop_round :
    (r : Sent) (rs : List Sent) (buf : List ℕ) {n cnt m m' : ℕ} {out : List ℕ} {left : List Sent}
    → cnt < n
    → size_t (cnt + sent_size r) ≡ m
    → write_loop rs buf n m ≡ some (m', out, left)
    → write_loop (r ∷ rs) buf n cnt ≡ some (m', sent_bytes buf cnt r ++ out, left)
unfolding write_loop
write_loop_round r rs buf lt e e' = ground (arith, e, e')

write_loop-Sends :
    (buf : List ℕ) {left : List Sent} {cnt : ℕ} {rs : List Sent}
    → length buf < 2 ^ 64
    → Sends (length buf) left cnt rs
    → write_loop rs buf (length buf) cnt ≡ some (length buf, drop cnt buf, left)
write_loop-Sends buf {left} lt complete =
    write_loop_end left buf (omega arith)
    ∙ ap (λ out. some (length buf, out, left)) (sym (drop_all buf))
write_loop-Sends buf {left} {cnt} lt (progress count pos le s) =
    write_loop_round (sent count) _ buf (omega arith) (omega arith) (write_loop-Sends buf lt s)
    ∙ ap (λ out. some (length buf, out, left)) (drop-take_add buf cnt count (cnt + count) refl)

-- When no send fails, and each sends at least one byte and no more than are left, bstream_write ends,
-- returns the size of the data, puts exactly the data on the wire, and calls send no further.
pub bstream_write-Sends :
    (buf : List ℕ) {rs left : List Sent}
    → length buf < 2 ^ 64
    → Sends (length buf) left 0 rs
    → bstream_write rs buf ≡ some (length buf, buf, left)
bstream_write-Sends buf lt s = write_loop-Sends buf lt s

-- When send fails after some bytes, bstream_write goes on one byte too early: if nothing fails from
-- there on, it returns the size of the data, and the last byte sent goes out twice.
pub bstream_write_resends :
    (buf : List ℕ) (count : ℕ) {rs left : List Sent}
    → suc count < length buf
    → length buf < 2 ^ 64
    → Sends (length buf) left count rs
    → bstream_write (sent (suc count) ∷ failed ∷ rs) buf
      ≡ some (length buf, take (suc count) buf ++ drop count buf, left)
bstream_write_resends buf count le lt s =
    write_loop_round (sent (suc count)) _ buf (omega arith) (omega arith)
      (write_loop_round failed _ buf le (omega arith) (write_loop-Sends buf lt s))

-- When the first send fails, bstream_write returns -1 and sends nothing.
bstream_write_fails :
    (buf : List ℕ) (rs : List Sent)
    → 0 < length buf
    → length buf < 2 ^ 64
    → bstream_write (failed ∷ rs) buf ≡ some (2 ^ 64 - 1, [], rs)
bstream_write_fails buf rs pos lt =
    write_loop_round failed _ buf pos (omega arith) (write_loop_end rs buf (omega arith))
