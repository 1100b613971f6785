-- ===== src/Splitmb/Mailbox/Messages.antt =====
-- The mailbox as a sequence of messages, and the files that splitmb writes.
use trivia.Prelude.{
  ℕ, ◌+◌, ◌≡◌, refl, sym, ap, ◌∙◌, inl, inr, Bool, true, false, Option, none, some, List, [], ◌∷◌,
  ◌++◌, length, arith, append_assoc, append-nil, Bool-cases,
}
use mathlib.Core.Path.{subst}
use trivia.Splitmb.Mailbox.{Message, close, put_line, separates, split_loop}

module _ (scan : List ℕ → Option (List ℕ)) (opens : ℕ → Bool) (add_xfile : Bool) where
  -- Lines that stand in one message.
  pub data Body : List (List ℕ) → Type 0 where
    over : Body []
    line :
        {ln : List ℕ} {lns : List (List ℕ)}
        → separates scan opens add_xfile ln ≡ false
        → Body lns
        → Body (ln ∷ lns)

  -- The lines from the line `n` on, and their messages: each is a separator and a body.
  pub data Messages : ℕ → List (List ℕ) → List Message → Type 0 where
    done : {n : ℕ} → Messages n [] []
    message :
        {n n' : ℕ} {ln : List ℕ} {body lns : List (List ℕ)} {ms : List Message}
        → separates scan opens add_xfile ln ≡ true
        → Body body
        → n' ≡ n + 1 + length body
        → Messages n' lns ms
        → Messages n (ln ∷ body ++ lns) (record { lnum = n; xfile = add_xfile; lines = body } ∷ ms)

  -- The loop with a file open, or with none.
  abbrev open_files : Option Message → List (List ℕ) → List Message
  open_files none body = []
  open_files (some m) body = record m { lines = m.lines ++ body } ∷ []

  open_files-nil : (ofil : Option Message) → open_files ofil [] ≡ close ofil
  open_files-nil none = refl
  open_files-nil (some m) = ap (λ q. record m { lines = q } ∷ []) (append-nil m.lines)

  open_files-put_line :
      (ofil : Option Message) (ln : List ℕ) (body : List (List ℕ))
      → open_files (put_line ofil ln) body ≡ open_files ofil (ln ∷ body)
  open_files-put_line none ln body = refl
  open_files-put_line (some m) ln body =
      ap (λ q. record m { lines = q } ∷ []) (append_assoc m.lines (ln ∷ []) body)

  record Written (ofil : Option Message) (n : ℕ) (lns : List (List ℕ)) : Type 0 where
    body : List (List ℕ)
    rest : List (List ℕ)
    ms : List Message
    from : ℕ
    cut : lns ≡ body ++ rest
    kept : Body body
    place : from ≡ n + length body
    messages : Messages from rest ms
    result : split_loop scan opens add_xfile ofil n lns ≡ some (open_files ofil body ++ ms)

  fresh : ℕ → Option Message
  fresh n = some (record { lnum = n; xfile = add_xfile; lines = [] })

  at_separator :
      (ofil : Option Message) (n : ℕ) (ln : List ℕ) (lns : List (List ℕ))
      → opens n ≡ true
      → separates scan opens add_xfile ln ≡ true
      → Written (fresh n) (n + 1) lns
      → Written ofil n (ln ∷ lns)
  unfolding split_loop fresh
  at_separator ofil n ln lns can sep w = record {
    body = [];
    rest = ln ∷ (w.body ++ w.rest);
    ms = record { lnum = n; xfile = add_xfile; lines = w.body } ∷ w.ms;
    from = n;
    cut = ap (λ q. ln ∷ q) w.cut;
    kept = over;
    place = omega arith;
    messages = message sep w.kept w.place w.messages;
    result = ground (arith, sep, can, w.result, open_files-nil ofil);
  }

  at_line :
      (ofil : Option Message) (n : ℕ) (ln : List ℕ) (lns : List (List ℕ))
      → separates scan opens add_xfile ln ≡ false
      → Written (put_line ofil ln) (n + 1) lns
      → Written ofil n (ln ∷ lns)
  unfolding split_loop
  at_line ofil n ln lns sep w = record {
    body = ln ∷ w.body;
    rest = w.rest;
    ms = w.ms;
    from = w.from;
    cut = ap (λ q. ln ∷ q) w.cut;
    kept = line sep w.kept;
    place = omega (arith, w.place);
    messages = w.messages;
    result = rw sep (w.result ∙ ap (λ q. some (q ++ w.ms)) (open_files-put_line ofil ln w.body));
  }

  written :
      ((n : ℕ) → opens n ≡ true)
      → (ofil : Option Message) (n : ℕ) (lns : List (List ℕ)) → Written ofil n lns
  unfolding split_loop
  written can ofil n [] = record {
    body = [];
    rest = [];
    ms = [];
    from = n;
    cut = refl;
    kept = over;
    place = omega arith;
    messages = done;
    result = ap some (sym (append-nil (open_files ofil []) ∙ open_files-nil ofil));
  }
  written can ofil n (ln ∷ lns) = elim (Bool-cases (separates scan opens add_xfile ln)) [
    | inl sep ↦ at_separator ofil n ln lns (can n) sep (written can (fresh n) (n + 1) lns)
    | inr other ↦ at_line ofil n ln lns other (written can (put_line ofil ln) (n + 1) lns)
  ]

  -- If every file can be opened, splitmb ends and writes a file for each message of the mailbox, in
  -- order: its number is that of the separator's line, its lines are those behind the separator up to
  -- the next one; the lines before the first separator are in no file.
  pub split_loop-Messages :
      ((n : ℕ) → opens n ≡ true)
      → (lns : List (List ℕ))
      → (pre : List (List ℕ)) × (rest : List (List ℕ)) × (ms : List Message) × (lns ≡ pre ++ rest)
        × Body pre
        × Messages (1 + length pre) rest ms
        × (split_loop scan opens add_xfile none 1 lns ≡ some ms)
  split_loop-Messages can lns =
      let w = written can none 1 lns in
      (
        w.body,
        w.rest,
        w.ms,
        w.cut,
        w.kept,
        subst (λ n. Messages n w.rest w.ms) w.place w.messages,
        w.result,
      )
