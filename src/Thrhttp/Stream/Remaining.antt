-- ===== src/Thrhttp/Stream/Remaining.antt =====
-- The connection of thrhttp.c and its lines: bstream_readln comes to an end, and each line uses up some of
-- what the connection can still give.
use trivia.Prelude.{
  ℕ, zero, suc, ◌+◌, ◌-◌, ◌≤◌, ◌<◌, ◌≡◌, refl, sym, ap, Bool, true, false, not, Option, none, some,
  List, [], ◌∷◌, ◌++◌, length, take, drop, min, leb, ◌==◌, if◌then◌else◌, length-drop, arith,
}
use mathlib.Core.Path.{subst}
use trivia.Thrplhttp.Connection.{
  Connection, Received, recv_failed, received, Run, returns, Action, pure, and_then, recv_from,
  recv_size, recv_bytes, store,
}
use trivia.Thrplhttp.Connection.Budget.{Budget, Takes}
use trivia.Thrplhttp.Connection.Pending.{total, total-left}
use trivia.Thrhttp.Stream.Pieces.{below, same}
use trivia.Thrhttp.Stream.Lines.{two_calls}
use trivia.Thrhttp.Stream.{
  refilled, bstream_refil, received_some, bstream_readsome, find_eol, so_far, add_piece, next_piece,
  piece, calls, readln_loop, bstream_readln,
}

-- The bytes in the buffer, whose indices are in order, and what recv can give.
abbrev pub remaining : Connection → ℕ
remaining c = (c.bcnt - c.ridx) + total c.incoming

abbrev pub budget : Budget
budget = record {
  Within = λ n c. (c.ridx ≤ c.bcnt) × (remaining c ≤ n);
  weaken = λ m n c le w. (w.0, omega (arith, le, w.1));
  stable = λ n c results wire tbytes reqs w. w;
}

Takes-if :
    (n : ℕ) (t : Bool) (r s : Run (Option (List ℕ)))
    → Takes budget n r
    → Takes budget n s
    → Takes budget n (if t then r else s)
Takes-if n true r s w w' = w
Takes-if n false r s w w' = w'

-- What was taken for a line is taken when the line is given up.
forget :
    (n : ℕ) (ln : Option (List ℕ)) (c : Connection)
    → Takes budget n (returns ln c)
    → budget.Within n c
forget n none c t = t
forget n (some ln) c (m, less, w) = budget.weaken m n c (omega (arith, less)) w

-- What was taken stays taken when as much or less is left.
Takes-left :
    (n : ℕ) (ln : Option (List ℕ)) (c c' : Connection)
    → c'.ridx ≤ c'.bcnt
    → remaining c' ≤ remaining c
    → Takes budget n (returns ln c)
    → Takes budget n (returns ln c')
Takes-left n none c c' order le w = (order, omega (arith, le, w.1))
Takes-left n (some ln) c c' order le (m, less, w) = (m, less, (order, omega (arith, le, w.1)))

-- The connection behind recv.
abbrev behind : Connection → Received → List Received → Connection
behind c r rs = record c {
  ridx = 0;
  bcnt = recv_size r;
  buf = store c.buf 0 (recv_bytes r);
  incoming = rs;
}

-- A recv of something uses up a call.
calls-left :
    (t : Bool) (bytes : List ℕ) (rs : List Received)
    → leb (length bytes) 4096 ≡ t
    → 1 + calls (if t then rs else received (drop 4096 bytes) ∷ rs) ≤ 1 + length bytes + calls rs
calls-left true bytes rs e = omega arith
calls-left false bytes rs e = omega (arith, length-drop 4096 bytes, above (length bytes) 4096 e)
  where
    above : (a b : ℕ) → leb a b ≡ false → b < a
    above a b h = ground arith

nonzero : (n : ℕ) → not (n == 0) ≡ true → 0 < n
nonzero n h = ground arith

strict : (a b : ℕ) → a ≤ b → (a == b) ≡ false → a < b
strict a b le h = ground arith

module _ (malloc : ℕ → Bool) where
  module _ (n : ℕ) (again : Option (List ℕ) → Action (Option (List ℕ))) where
    -- `again` goes on with a line for which something was taken, with everything read and the calls left.
    abbrev Going : List Received → Type 0
    Going rs =
        (ln : Option (List ℕ)) (c : Connection)
        → c.ridx ≡ c.bcnt
        → c.incoming ≡ rs
        → Takes budget n (returns ln c)
        → Takes budget n (again ln c)

    add_piece-Takes :
        (ln : Option (List ℕ)) (at_eol : Bool) (k : ℕ) (c : Connection)
        → budget.Within n c
        → c.ridx < c.bcnt
        → 0 < k
        → let c' : Connection = record c { ridx = c.ridx + min (c.bcnt - c.ridx) k } in
          ((line : List ℕ)
            → Takes budget n (returns (some line) c')
            → Takes budget n ((if at_eol then pure (some line) else again (some line)) c'))
          → Takes budget n (add_piece malloc ln at_eol k again c)
    add_piece-Takes ln at_eol k c w lt some_left go =
        Takes-if n (malloc (length (so_far ln) + k + 1)) (and_then (bstream_readsome k c) f)
          (returns none c)
          (subst
            (λ t.
              Takes budget n
                (and_then (if t then copied else received_some c (recv_from k c.incoming)) f))
            (sym (below c.ridx c.bcnt lt))
            (go line
              (remaining c', omega (arith, w.1, lt, some_left), (omega (arith, lt), omega arith))))
          w
      where
        m : ℕ
        m = min (c.bcnt - c.ridx) k

        c' : Connection
        c' = record c { ridx = c.ridx + m }

        line : List ℕ
        line = so_far ln ++ take m (drop c.ridx c.buf)

        copied : Run (ℕ × List ℕ)
        copied = returns (m, take m (drop c.ridx c.buf)) c'

        f : ℕ × List ℕ → Action (Option (List ℕ))
        f (i, bytes) =
            if at_eol then pure (some (so_far ln ++ bytes)) else again (some (so_far ln ++ bytes))

    next_piece-Takes :
        (ln : Option (List ℕ)) (c : Connection) (o : Option (Option ℕ))
        → budget.Within n c
        → c.ridx < c.bcnt
        → Going c.incoming
        → Takes budget n (next_piece malloc ln again c o)
    next_piece-Takes ln c none w lt go = tt
    next_piece-Takes ln c (some (some i)) w lt go =
        add_piece-Takes ln true (i + 1) c w lt (omega arith) (λ line taken. taken)
    next_piece-Takes ln c (some none) w lt go =
        add_piece-Takes ln false k c w lt (omega (arith, lt)) (λ line taken.
          go (some line) (record c { ridx = c.ridx + min k k }) (omega (arith, lt)) refl taken)
      where
        k : ℕ
        k = c.bcnt - c.ridx

    piece-Takes :
        (ln : Option (List ℕ)) (t : Bool) (c : Connection)
        → Takes budget n (returns ln c)
        → (t ≡ true → c.ridx < c.bcnt)
        → Going c.incoming
        → Takes budget n (piece malloc ln again t c)
    piece-Takes ln true c w lt go =
        next_piece-Takes ln c (find_eol c) (forget n ln c w) (lt refl) go
    piece-Takes ln false c w lt go = w

    -- A round that begins with recv.
    refilled-Takes :
        (ln : Option (List ℕ)) (c : Connection) (rs : List Received)
        → rs ≡ c.incoming
        → Takes budget n (returns ln c)
        → ((rs' : List Received) → 1 + calls rs' ≤ calls rs → Going rs')
        → Takes budget n (
            and_then
              (and_then (refilled c (recv_from 4096 rs)) (λ k. pure (not (k == 0))))
              (piece malloc ln again))
    refilled-Takes ln c [] e w go = tt
    refilled-Takes ln c (recv_failed ∷ rs) e w go =
        piece-Takes ln true (behind c recv_failed rs)
          (Takes-left n ln c (behind c recv_failed rs) (omega arith) (omega (arith, ap total e)) w)
          (λ h. omega arith) (go rs (omega arith))
    refilled-Takes ln c (received bytes ∷ rs) e w go =
        piece-Takes ln (not (length (take 4096 bytes) == 0)) c'
          (Takes-left n ln c c' (omega arith)
            (omega (arith, ap total e, total-left (leb (length bytes) 4096) 4096 bytes rs)) w)
          (λ h. nonzero (length (take 4096 bytes)) h)
          (go left (calls-left (leb (length bytes) 4096) bytes rs refl))
      where
        left : List Received
        left = if leb (length bytes) 4096 then rs else received (drop 4096 bytes) ∷ rs

        c' : Connection
        c' = behind c (received (take 4096 bytes)) left

  readln_loop-Takes :
      (fuel n : ℕ) (rs : List Received) → calls rs ≤ suc fuel → Going n (readln_loop malloc fuel) rs
  unfolding readln_loop
  readln_loop-Takes zero n rs few ln c level e w = absurd (omega (arith, few, two_calls rs))
  readln_loop-Takes (suc fuel) n rs few ln c level e w =
      subst
        (λ t. Takes budget n (
          and_then
            (if t then and_then (bstream_refil c) (λ k. pure (not (k == 0))) else returns true c)
            (piece malloc ln (readln_loop malloc fuel))))
        (sym (same level))
        (refilled-Takes n (readln_loop malloc fuel) ln c c.incoming refl w
          (λ rs' less. readln_loop-Takes fuel n rs' (omega (arith, less, few, ap calls e))))

  -- The first round, on a connection whose indices are in order.
  first_round :
      (fuel n : ℕ) (c : Connection) (t : Bool)
      → (c.ridx == c.bcnt) ≡ t
      → budget.Within n c
      → calls c.incoming ≤ suc fuel
      → Takes budget n (
          and_then
            (if t then and_then (bstream_refil c) (λ k. pure (not (k == 0))) else returns true c)
            (piece malloc none (readln_loop malloc fuel)))
  first_round fuel n c true level w few =
      refilled-Takes n (readln_loop malloc fuel) none c c.incoming refl w
        (λ rs' less. readln_loop-Takes fuel n rs' (omega (arith, less, few)))
  first_round fuel n c false apart w few =
      piece-Takes n (readln_loop malloc fuel) none true c w (λ h. strict c.ridx c.bcnt (w.0) apart)
        (readln_loop-Takes fuel n c.incoming few)

  -- On a connection whose indices are in order, bstream_readln does not run out of rounds, whatever recv and
  -- realloc give; a line that it returns has used up some of what is left.
  pub bstream_readln-Takes :
      (n : ℕ) (c : Connection) → budget.Within n c → Takes budget n (bstream_readln malloc c)
  unfolding readln_loop
  bstream_readln-Takes n c w =
      subst (λ k. Takes budget n (readln_loop malloc k none c)) (sym rounds)
        (first_round (calls c.incoming - 1) n c (c.ridx == c.bcnt) refl w
          (omega (arith, two_calls c.incoming)))
    where
      rounds : calls c.incoming ≡ suc (calls c.incoming - 1)
      rounds = omega (arith, two_calls c.incoming)
