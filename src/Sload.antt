-- ===== src/Sload.antt =====
-- sload.c: processes that burn, sleep and wait. What main makes of the options, and the loop of a child. An
-- unsigned long has 64 bits.
pub mod Jitter
pub mod Rounds
pub mod Options
pub mod Tasks
mod Tests
use trivia.Prelude.{
  ℕ, zero, suc, ◌+◌, ◌-◌, ◌*◌, ◌/◌, ◌%◌, ◌^◌, Bool, true, false, Option, none, some, List, [], ◌∷◌,
  ◌++◌, ◌>>=◌, ltb, ◌==◌, if◌then◌else◌,
}
use trivia.Prelude.Int.{ℤ}

-- The next value of the static `next`, which is the result.
abbrev pub myrand : ℕ → ℕ
myrand next = (next * 1103515245 + 12345) % 2 ^ 64

-- The loop, at most `fuel` rounds; 64 halve every word to 0.
unfoldable pub ilog2 : ℕ → ℕ → ℕ
ilog2 zero v = 0
ilog2 (suc fuel) v = let l = ilog2 fuel (v / 2) in if v == 0 then 0 else l + 1

-- r >> s; a shift by the width of the type or more is undefined.
abbrev pub shift_right : ℕ → ℕ → Option ℕ
shift_right r s = if ltb s 64 then some (r / 2 ^ s) else none

-- b + r % range; a division by 0 has no result.
abbrev pub added : ℕ → ℕ → Option ℕ → Option ℕ
added b range none = none
added b range (some r) = if range == 0 then none else some ((b + r % range) % 2 ^ 64)

-- The value and the new `next`.
abbrev pub with_next : ℕ → Option ℕ → Option (ℕ × ℕ)
with_next next none = none
with_next next (some v) = some (v, next)

-- `v - jitter`, from 0 on
abbrev pub base : ℕ → ℕ → ℕ
base v jitter = if ltb jitter v then v - jitter else 0

-- The shift, an unsigned long.
abbrev pub shift_of : ℕ → ℕ
shift_of jitter = (2 ^ 64 + 64 - ilog2 64 (2 * jitter % 2 ^ 64) - 1) % 2 ^ 64

unfoldable pub jval : ℕ → ℕ → ℕ → Option (ℕ × ℕ)
jval v jitter next =
    if ltb 0 jitter
    then with_next (myrand next)
        (added (base v jitter) (2 * jitter % 2 ^ 64) (shift_right (myrand next) (shift_of jitter)))
    else some (v, next)

pub record SlReport : Type 0 where
  pub missd : ℕ
  pub time : ℕ

-- A task as the options describe it.
pub record SlTask : Type 0 where
  pub name : List ℕ
  pub nice : ℤ
  pub bus : ℕ
  pub sus : ℕ
  pub wus : ℕ
  pub jbus : ℕ
  pub jsus : ℕ
  pub jwus : ℕ
  pub count : ℤ

-- A child: the generator's state, its report, and the arguments of usleep, the first one first.
pub record Child : Type 0 where
  pub next : ℕ
  pub rep : SlReport
  pub slept : List ℕ

-- Behind fork: `next` is set nowhere, so every child begins with the same.
abbrev pub child_begin : Child
child_begin = record { next = 0; rep = record { missd = 0; time = 0 }; slept = [] }

-- usleep takes an unsigned int.
abbrev pub usleep : ℕ → Child → Child
usleep n c = record c { slept = c.slept ++ (n % 2 ^ 32 ∷ []) }

abbrev pub burnt : Child → Option (ℕ × ℕ) → Option Child
burnt c none = none
burnt c (some (bus, next)) = some (record c {
  next = next;
  rep = record { missd = c.rep.missd; time = (c.rep.time + bus) % 2 ^ 64 };
})

abbrev pub burn_phase : SlTask → Child → Option Child
burn_phase t c = if t.bus == 0 then some c else burnt c (jval t.bus t.jbus c.next)

abbrev pub sleeping : Child → Option (ℕ × ℕ) → Option Child
sleeping c none = none
sleeping c (some (sus, next)) = some (usleep sus (record c { next = next }))

abbrev pub sleep_phase : SlTask → Child → Option Child
sleep_phase t c = if t.sus == 0 then some c else sleeping c (jval t.sus t.jsus c.next)

-- At the time `tn` in a round that began at `ts`.
abbrev pub wait_until : ℕ → ℕ → Child → Child
wait_until deadline tn c =
    if ltb tn deadline
    then usleep (deadline - tn) c
    else record c { rep = record { missd = (c.rep.missd + 1) % 2 ^ 64; time = c.rep.time } }

abbrev pub waiting : ℕ → ℕ → Child → Option (ℕ × ℕ) → Option Child
waiting ts tn c none = none
waiting ts tn c (some (wus, next)) =
    some (wait_until ((ts + wus) % 2 ^ 64) tn (record c { next = next }))

abbrev pub wait_phase : SlTask → ℕ → ℕ → Child → Option Child
wait_phase t ts tn c = if t.wus == 0 then some c else waiting ts tn c (jval t.wus t.jwus c.next)

-- A round, with the times that getustime gives in it.
abbrev pub child_round : SlTask → ℕ × ℕ → Child → Option Child
child_round t (ts, tn) c = burn_phase t c >>= sleep_phase t >>= wait_phase t ts tn

-- The loop, with a pair of times for each round until `stop_test` is set.
unfoldable pub child_loop : SlTask → List (ℕ × ℕ) → Child → Option Child
child_loop t [] c = some c
child_loop t (clock ∷ clocks) c = child_round t clock c >>= child_loop t clocks
