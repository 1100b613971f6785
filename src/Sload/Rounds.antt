-- ===== src/Sload/Rounds.antt =====
-- The loop of a child of sload.c: what it reports.
use trivia.Prelude.{
  ℕ, zero, suc, ◌+◌, ◌-◌, ◌*◌, ◌%◌, ◌^◌, ◌≤◌, ◌<◌, ◌≡◌, refl, sym, Bool, true, false, Option, none,
  some, ◌>>=◌, List, [], ◌∷◌, length, ltb, ◌==◌, if◌then◌else◌, arith,
}
use mathlib.Core.Path.{subst}
use trivia.Sload.{
  myrand, base, jval, SlTask, Child, burnt, burn_phase, sleeping, sleep_phase, wait_until, waiting,
  wait_phase, child_round, child_loop, child_begin,
}
use trivia.Sload.Jitter.{jval-base}

-- A duration and its jitter that jval can serve.
abbrev pub IsMild : ℕ → ℕ → Type 0
IsMild v jitter = (jitter < 2 ^ 62) × (v + jitter ≤ 2 ^ 64)

base_sub : (v j : ℕ) → base v j ≡ v - j
base_sub v j = ground arith

-- The values of jval.
abbrev pub Between : ℕ → ℕ → ℕ → Type 0
Between v jitter x = (v - jitter ≤ x) × (x ≤ (v - jitter) + 2 * jitter)

-- jval gives something within the jitter.
jval-Between :
    (v jitter next : ℕ)
    → IsMild v jitter
    → (x : ℕ) × (next' : ℕ) × (jval v jitter next ≡ some (x, next')) × Between v jitter x
unfolding jval
jval-Between v zero next mild = (v, next, refl, (omega arith, omega arith))
jval-Between v (suc j) next (small, fits) =
    let (x, e, lt) = (jval-base v (suc j) (omega arith) small fits).0 next in
    (
      base v (suc j) + x,
      myrand next,
      e,
      (omega (arith, base_sub v (suc j)), omega (arith, base_sub v (suc j), lt)),
    )

-- Durations and jitters of a task that jval can serve; it burns in each round.
pub record IsMildTask (t : SlTask) : Type 0 where
  pub burns : IsMild t.bus t.jbus
  pub sleeps : IsMild t.sus t.jsus
  pub waits : IsMild t.wus t.jwus

-- A child that ran, with `a` to `b` more on its report than before.
abbrev Adds : ℕ → ℕ → Child → Option Child → Type 0
Adds a b c none = ⊥
Adds a b c (some c') = (c.rep.time + a ≤ c'.rep.time) × (c'.rep.time ≤ c.rep.time + b)

module _ (f : Child → Option Child) where
  -- A phase that leaves the time alone, behind one that ran.
  Adds-keep :
      (a b : ℕ) (c : Child) (o : Option Child)
      → Adds a b c o
      → ((c' : Child) → Adds 0 0 c' (f c'))
      → Adds a b c (o >>= f)
  Adds-keep a b c none h k = h
  Adds-keep a b c (some c') h k = kept (f c') (k c')
    where
      kept : (o : Option Child) → Adds 0 0 c' o → Adds a b c o
      kept none none_kept = none_kept
      kept (some c'') same_time = (omega (arith, h.0, same_time.0), omega (arith, h.1, same_time.1))

  -- More rounds.
  Adds-bind :
      (a b a' b' : ℕ) (c : Child) (o : Option Child)
      → Adds a b c o
      → ((c' : Child) → c'.rep.time ≤ c.rep.time + b → Adds a' b' c' (f c'))
      → Adds (a + a') (b + b') c (o >>= f)
  Adds-bind a b a' b' c none h k = h
  Adds-bind a b a' b' c (some c') h k = both (f c') (k c' (h.1))
    where
      both : (o : Option Child) → Adds a' b' c' o → Adds (a + a') (b + b') c o
      both none nothing = nothing
      both (some c'') more = (omega (arith, h.0, more.0), omega (arith, h.1, more.1))

Adds-if :
    (a b : ℕ) (c : Child) (t : Bool) (o : Option Child)
    → Adds a b c o
    → Adds a b c (some c)
    → Adds a b c (if t then some c else o)
Adds-if a b c true o h idle = idle
Adds-if a b c false o h idle = h

sleep_phase-Adds : (t : SlTask) (c : Child) → IsMild t.sus t.jsus → Adds 0 0 c (sleep_phase t c)
sleep_phase-Adds t c mild =
    let (x, next, e, h) = jval-Between t.sus t.jsus c.next mild in
    Adds-if 0 0 c (t.sus == 0) (sleeping c (jval t.sus t.jsus c.next))
      (subst (λ o. Adds 0 0 c (sleeping c o)) (sym e) (omega arith, omega arith))
      (omega arith, omega arith)

wait_until-Adds :
    (deadline tn next : ℕ) (c : Child) (t : Bool)
    → ltb tn deadline ≡ t
    → Adds 0 0 c (some (wait_until deadline tn (record c { next = next })))
wait_until-Adds deadline tn next c true e = rw e (omega arith, omega arith)
wait_until-Adds deadline tn next c false e = rw e (omega arith, omega arith)

wait_phase-Adds :
    (t : SlTask) (ts tn : ℕ) (c : Child) → IsMild t.wus t.jwus → Adds 0 0 c (wait_phase t ts tn c)
wait_phase-Adds t ts tn c mild =
    let (x, next, e, h) = jval-Between t.wus t.jwus c.next mild in
    let deadline : ℕ = (ts + x) % 2 ^ 64 in
    Adds-if 0 0 c (t.wus == 0) (waiting ts tn c (jval t.wus t.jwus c.next))
      (subst (λ o. Adds 0 0 c (waiting ts tn c o)) (sym e)
        (wait_until-Adds deadline tn next c (ltb tn deadline) refl))
      (omega arith, omega arith)

-- The least and the most that a round burns.
abbrev pub least : SlTask → ℕ
least t = t.bus - t.jbus

abbrev pub most : SlTask → ℕ
most t = least t + 2 * t.jbus

-- Without burning nothing is added.
is_zero : (n : ℕ) → (n == 0) ≡ true → n ≡ 0
is_zero n h = ground arith

burn_phase-Adds :
    (t : SlTask) (c : Child)
    → IsMild t.bus t.jbus
    → c.rep.time + most t < 2 ^ 64
    → Adds (least t) (most t) c (burn_phase t c)
burn_phase-Adds t c mild fits = burn (t.bus == 0) refl
  where
    burn :
        (idle : Bool)
        → (t.bus == 0) ≡ idle
        → Adds (least t) (most t) c (if idle then some c else burnt c (jval t.bus t.jbus c.next))
    burn true e = (omega (arith, is_zero t.bus e), omega arith)
    burn false e =
        let (x, next, e, (lo, hi)) = jval-Between t.bus t.jbus c.next mild in
        subst (λ o. Adds (least t) (most t) c (burnt c o)) (sym e)
          (omega (arith, lo, hi, fits), omega (arith, lo, hi, fits))

child_round-Adds :
    (t : SlTask) (clock : ℕ × ℕ) (c : Child)
    → IsMildTask t
    → c.rep.time + most t < 2 ^ 64
    → Adds (least t) (most t) c (child_round t clock c)
child_round-Adds t (ts, tn) c mild fits =
    Adds-keep (wait_phase t ts tn) (least t) (most t) c (burn_phase t c >>= sleep_phase t)
      (Adds-keep (sleep_phase t) (least t) (most t) c (burn_phase t c)
        (burn_phase-Adds t c mild.burns fits) (λ c'. sleep_phase-Adds t c' mild.sleeps))
      (λ c'. wait_phase-Adds t ts tn c' mild.waits)

child_loop-Adds :
    (t : SlTask) (clocks : List (ℕ × ℕ)) (c : Child)
    → IsMildTask t
    → c.rep.time + length clocks * most t < 2 ^ 64
    → Adds (length clocks * least t) (length clocks * most t) c (child_loop t clocks c)
unfolding child_loop
child_loop-Adds t [] c mild fits = (omega arith, omega arith)
child_loop-Adds t (clock ∷ clocks) c mild fits =
    rw (one_more (least t), one_more (most t))
      (Adds-bind (child_loop t clocks) (least t) (most t) (n * least t) (n * most t) c
        (child_round t clock c)
        (child_round-Adds t clock c mild (omega (arith, fits, one_more (most t))))
        (λ c' burnt_most.
          child_loop-Adds t clocks c' mild (omega (arith, fits, one_more (most t), burnt_most))))
  where
    n : ℕ
    n = length clocks

    one_more : (k : ℕ) → suc n * k ≡ k + n * k
    one_more k = omega arith

result-Adds :
    (a b : ℕ) (c : Child) (o : Option Child)
    → Adds a b c o
    → (c' : Child) × (o ≡ some c') × (c.rep.time + a ≤ c'.rep.time) × (c'.rep.time ≤ c.rep.time + b)
result-Adds a b c none h = absurd h
result-Adds a b c (some c') h = (c', refl, h.0, h.1)

-- If each duration and its jitter are small enough for jval, and the rounds together burn less than 2^64 at most, the
-- loop of a child ends with a report, whatever the clock shows in its rounds: no shift or division is undefined, and
-- the time reported is from `bus - jbus`, or 0, to twice `jbus` more, for each round.
pub child_loop-least :
    (t : SlTask) (clocks : List (ℕ × ℕ))
    → IsMildTask t
    → length clocks * most t < 2 ^ 64
    → (c : Child) × (child_loop t clocks child_begin ≡ some c)
      × (length clocks * least t ≤ c.rep.time)
      × (c.rep.time ≤ length clocks * most t)
child_loop-least t clocks mild fits =
    let (c, e, lo, hi) =
      result-Adds (length clocks * least t) (length clocks * most t) child_begin
        (child_loop t clocks child_begin)
        (child_loop-Adds t clocks child_begin mild (omega (arith, fits))) in
    (c, e, omega (arith, lo), omega (arith, hi))
