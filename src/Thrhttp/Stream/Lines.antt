-- ===== src/Thrhttp/Stream/Lines.antt =====
-- bstream_readln puts a line together from what several calls of recv deliver.
use trivia.Prelude.{
  ℕ, zero, suc, ◌+◌, ◌-◌, ◌≤◌, ◌<◌, ◌≡◌, refl, sym, ap, ◌∙◌, Bool, true, false, Option, none, some,
  List, [], ◌∷◌, ◌++◌, length, if◌then◌else◌, length-append, append_assoc, append-nil, arith,
}
use mathlib.Core.Path.{subst}
use trivia.Thrplhttp.Connection.{
  Connection, Received, recv_failed, received, Run, returns, and_then, pure, Action,
}
use trivia.Thrplhttp.Connection.Unread.{NoLf, outputs}
use trivia.Thrhttp.Stream.{
  some_unread, find_eol, so_far, add_piece, next_piece, piece, readln_loop, calls, bstream_readln,
}
use trivia.Thrhttp.Stream.Pieces.{
  unread, IsValid, ahead, filled, readsome-ahead, ahead-IsValid, unread-ahead, filled-IsValid,
  unread-filled, find_eol-found, find_eol_absent, some_unread-true, some_unread-filled,
  length-unread,
}

-- A line without its line feed, and what is behind it, begin with the unread bytes `u` and go on with what
-- recv gives.
pub data Comes (rest : List ℕ) (left : List Received)
    : List ℕ → List Received → List ℕ → Type 0 where
  here : (line : List ℕ) → NoLf line → Comes rest left (line ++ (10 ∷ rest)) left line
  more :
      {u bytes line : List ℕ} {rs : List Received}
      → NoLf u
      → 0 < length bytes
      → length bytes ≤ 4096
      → Comes rest left bytes rs line
      → Comes rest left u (received bytes ∷ rs) (u ++ line)

pub two_calls : (rs : List Received) → 2 ≤ calls rs
two_calls [] = omega arith
two_calls (recv_failed ∷ rs) = omega (arith, two_calls rs)
two_calls (received bytes ∷ rs) = omega (arith, two_calls rs)

module _ (malloc : ℕ → Bool) (memory : (n : ℕ) → malloc n ≡ true) where
  -- A piece of the line is added.
  add_piece-ahead :
      (ln : Option (List ℕ)) (t : Bool) (again : Option (List ℕ) → Action (Option (List ℕ)))
      (c : Connection) (v : IsValid c) (xs ys : List ℕ)
      → unread c ≡ xs ++ ys
      → 0 < length xs
      → add_piece malloc ln t (length xs) again c
        ≡ (if t then pure (some (so_far ln ++ xs)) else again (some (so_far ln ++ xs)))
            (ahead c v (length xs))
  add_piece-ahead ln t again c v xs ys e pos =
      rw (memory (length (so_far ln) + length xs + 1), readsome-ahead c v xs ys e pos) refl

  -- The rest of a round, behind the test at its head.
  abbrev look : ℕ → Option (List ℕ) → Action (Option (List ℕ))
  look fuel ln c = next_piece malloc ln (readln_loop malloc fuel) c (find_eol c)

  -- What the loop gives.
  abbrev Gives : Run (Option (List ℕ)) → Connection → List ℕ → List ℕ → List Received → Type 0
  Gives r c line rest left =
      (c' : Connection) × (r ≡ returns (some line) c')
      × IsValid c'
      × (unread c' ≡ rest)
      × (c'.incoming ≡ left)
      × (outputs c' ≡ outputs c)

  look-here :
      (fuel : ℕ) (ln : Option (List ℕ)) (c : Connection)
      → IsValid c
      → (line rest : List ℕ) → unread c ≡ line ++ (10 ∷ rest)
      → NoLf line
      → Gives (look fuel ln c) c (so_far ln ++ (line ++ (10 ∷ []))) rest c.incoming
  look-here fuel ln c v line rest e h = (
    ahead c v (length whole),
    found,
    ahead-IsValid c v whole rest e',
    unread-ahead c v whole rest e',
    refl,
    refl,
  )
    where
      whole : List ℕ
      whole = line ++ (10 ∷ [])

      e' : unread c ≡ whole ++ rest
      e' = e ∙ sym (append_assoc line (10 ∷ []) rest)

      size : length line + 1 ≡ length whole
      size = omega (arith, length-append line (10 ∷ []))

      found : look fuel ln c ≡ returns (some (so_far ln ++ whole)) (ahead c v (length whole))
      found =
          ap (next_piece malloc ln (readln_loop malloc fuel) c) (find_eol-found c v line rest e h)
          ∙ ap (λ k. add_piece malloc ln true k (readln_loop malloc fuel) c) size
          ∙ add_piece-ahead ln true (readln_loop malloc fuel) c v whole rest e'
              (omega (arith, sym size))

  unread_round :
      (fuel : ℕ) (c c' : Connection)
      → some_unread c ≡ returns true c'
      → (ln : Option (List ℕ)) → readln_loop malloc (suc fuel) ln c ≡ look fuel ln c'
  unfolding readln_loop
  unread_round fuel c c' e ln = ap (λ r. and_then r (piece malloc ln (readln_loop malloc fuel))) e

  -- A round whose bytes hold no line feed.
  look-more :
      (fuel : ℕ) (ln : Option (List ℕ)) (c : Connection) (v : IsValid c) (u : List ℕ)
      → u ≡ unread c
      → NoLf u
      → 0 < length u
      → look fuel ln c ≡ readln_loop malloc fuel (some (so_far ln ++ u)) (ahead c v (length u))
  look-more fuel ln c v u e h pos =
      ap (next_piece malloc ln (readln_loop malloc fuel) c) (find_eol_absent c v (subst NoLf e h))
      ∙ ap (λ k. add_piece malloc ln false k (readln_loop malloc fuel) c)
          (sym (length-unread c v) ∙ ap length (sym e))
      ∙ add_piece-ahead ln false (readln_loop malloc fuel) c v u [] (sym e ∙ sym (append-nil u)) pos

  look-Comes :
      (rest : List ℕ) (left : List Received) (fuel : ℕ) (ln : Option (List ℕ)) (c : Connection)
      {u : List ℕ} {rs : List Received} {line : List ℕ}
      → IsValid c
      → Comes rest left u rs line
      → u ≡ unread c
      → rs ≡ c.incoming
      → 0 < length u
      → calls rs ≤ suc fuel
      → Gives (look fuel ln c) c (so_far ln ++ (line ++ (10 ∷ []))) rest left
  look-Comes rest left fuel ln c v (here line h) e i pos few =
      let (c', t, v', u', i', o) = look-here fuel ln c v line rest (sym e) h in
      (c', t, v', u', i' ∙ sym i, o)
  look-Comes rest left zero ln c v (more {bytes = bytes} {rs = rs} h some_bytes fits m) e i pos
        few =
      absurd (omega (arith, few, some_bytes, two_calls rs))
  look-Comes rest left (suc fuel) ln c v
        (more {u = u} {bytes = bytes} {line = line} {rs = rs} h some_bytes fits m) e i pos few =
      let (c', t, v', u', i', o) =
        look-Comes rest left fuel (some (so_far ln ++ u)) (filled c₁ v₁ bytes rs)
          (filled-IsValid c₁ v₁ bytes rs fits) m (sym (unread-filled c₁ v₁ bytes rs fits)) refl
          some_bytes (omega (arith, few, some_bytes)) in
      (
        c',
        look-more (suc fuel) ln c v u e h pos
            ∙ unread_round fuel c₁ (filled c₁ v₁ bytes rs)
                (some_unread-filled c₁ v₁ bytes rs (ap length empty) i some_bytes fits)
                (some (so_far ln ++ u))
            ∙ t
            ∙ ap (λ q. returns (some q) c') whole,
        v',
        u',
        i',
        o,
      )
    where
      all_of_it : unread c ≡ u ++ []
      all_of_it = sym e ∙ sym (append-nil u)

      c₁ : Connection
      c₁ = ahead c v (length u)

      v₁ : IsValid c₁
      v₁ = ahead-IsValid c v u [] all_of_it

      empty : unread c₁ ≡ []
      empty = unread-ahead c v u [] all_of_it

      whole : (so_far ln ++ u) ++ (line ++ (10 ∷ [])) ≡ so_far ln ++ ((u ++ line) ++ (10 ∷ []))
      whole =
          append_assoc (so_far ln) u (line ++ (10 ∷ []))
          ∙ ap (λ q. so_far ln ++ q) (sym (append_assoc u line (10 ∷ [])))

  -- The first round, with something unread.
  from_unread :
      (rest : List ℕ) (left : List Received) (c : Connection) {u : List ℕ} {rs : List Received}
      {line : List ℕ}
      → IsValid c
      → Comes rest left u rs line
      → u ≡ unread c
      → rs ≡ c.incoming
      → 0 < length u
      → Gives (bstream_readln malloc c) c (line ++ (10 ∷ [])) rest left
  from_unread rest left c {rs = rs} v m e i pos =
      let (c', t, v', u', i', o) =
        look-Comes rest left (calls rs - 1) none c v m e i pos (omega arith) in
      (
        c',
        ap (λ k. readln_loop malloc k none c) (ap calls (sym i) ∙ rounds)
            ∙ unread_round (calls rs - 1) c c
                (some_unread-true c v (subst (λ q. 0 < length q) e pos)) none
            ∙ t,
        v',
        u',
        i',
        o,
      )
    where
      rounds : calls rs ≡ suc (calls rs - 1)
      rounds = omega (arith, two_calls rs)

  from_start :
      (rest : List ℕ) (left : List Received) (c : Connection) {u : List ℕ} {rs : List Received}
      {line : List ℕ}
      → IsValid c
      → Comes rest left u rs line
      → u ≡ unread c
      → rs ≡ c.incoming
      → Gives (bstream_readln malloc c) c (line ++ (10 ∷ [])) rest left
  from_start rest left c v (here line h) e i =
      from_unread rest left c v (here line h) e i (omega (arith, length-append line (10 ∷ rest)))
  from_start rest left c v (more {u = x ∷ u} h some_bytes fits m) e i =
      from_unread rest left c v (more h some_bytes fits m) e i (omega arith)
  from_start rest left c v (more {u = []} {bytes = bytes} {rs = rs} h some_bytes fits m) e i =
      let (c', t, v', u', i', o) =
        look-Comes rest left (length bytes + calls rs) none (filled c v bytes rs)
          (filled-IsValid c v bytes rs fits) m (sym (unread-filled c v bytes rs fits)) refl
          some_bytes (omega arith) in
      (
        c',
        ap (λ k. readln_loop malloc k none c) (ap calls (sym i) ∙ rounds)
            ∙ unread_round (length bytes + calls rs) c (filled c v bytes rs)
                (some_unread-filled c v bytes rs (ap length (sym e)) i some_bytes fits) none
            ∙ t,
        v',
        u',
        i',
        o,
      )
    where
      rounds : 1 + length bytes + calls rs ≡ suc (length bytes + calls rs)
      rounds = omega arith

-- When there is memory, and the unread bytes with what recv delivers, in pieces of any sizes up to 4096, hold
-- a line, bstream_readln returns exactly the line with its line feed, keeps the indices inside the buffer,
-- leaves exactly the bytes behind the line feed unread, and calls recv no further.
pub bstream_readln-Comes :
    (malloc : ℕ → Bool) (c : Connection) (line rest : List ℕ) (left : List Received)
    → ((n : ℕ) → malloc n ≡ true)
    → IsValid c
    → Comes rest left (unread c) c.incoming line
    → (c' : Connection) × (bstream_readln malloc c ≡ returns (some (line ++ (10 ∷ []))) c')
      × IsValid c'
      × (unread c' ≡ rest)
      × (c'.incoming ≡ left)
      × (outputs c' ≡ outputs c)
bstream_readln-Comes malloc c line rest left memory v m =
    from_start malloc memory rest left c v m refl refl
