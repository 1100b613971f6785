-- ===== src/Sload/Tests.antt =====
-- Jitters and rounds of sload.c, and their theorems at these.
use trivia.Prelude.{
  ℕ, ◌+◌, ◌*◌, ◌^◌, ◌≤◌, ◌<◌, ◌≡◌, refl, Bool, true, none, some, List, [], ◌∷◌, map, length, arith,
}
use trivia.Prelude.Int.{ℤ, pos}
use trivia.Prelude.Text.{ascii}
use trivia.Sload.{myrand, base, jval, ilog2, SlTask, Child, child_begin, child_loop}
use trivia.Sload.Jitter.{jval-base}
use trivia.Sload.Options.{
  Opt, opt_T, opt_b, opt_N, Settings, parsed, faults, options_loop, parse_options,
}
use trivia.Sload.Tasks.{names_onto, parse_options-IsSettled}
use trivia.Sload.Rounds.{least, most, child_loop-least}

jval-base_example :
    ((next : ℕ) → (x : ℕ) × (jval 100 10 next ≡ some (base 100 10 + x, myrand next)) × (x < 2 * 10))
    × ((x : ℕ)
        → x < 2 * 10
        → (next : ℕ) × (next < 2 ^ 64) × (jval 100 10 next ≡ some (base 100 10 + x, myrand next)))
jval-base_example = jval-base 100 10 (omega arith) (omega arith) (omega arith)

-- A jitter of 2^62 or more shifts by more than the width of the type.
too_much_jitter : jval 0 (2 ^ 62) 0 ≡ none
unfolding jval ilog2
too_much_jitter = refl

abbrev task : SlTask
task = record {
  name = ascii "t";
  nice = pos 0;
  bus = 100;
  sus = 20;
  wus = 500;
  jbus = 10;
  jsus = 0;
  jwus = 0;
  count = pos 1;
}

abbrev clocks : List (ℕ × ℕ)
clocks = (1000, 1130) ∷ ((1500, 2100) ∷ [])

child_loop-least_example :
    (c : Child) × (child_loop task clocks child_begin ≡ some c)
    × (length clocks * least task ≤ c.rep.time)
    × (c.rep.time ≤ length clocks * most task)
child_loop-least_example =
    child_loop-least task clocks
      (record {
        burns = (omega arith, omega arith);
        sleeps = (omega arith, omega arith);
        waits = (omega arith, omega arith);
      })
      (omega arith)

abbrev number : List ℕ → ℤ
number s = pos (length s)

abbrev plenty : ℕ → Bool
plenty n = true

abbrev options : List Opt
options =
    opt_T (ascii "a") ∷ (opt_b (ascii "100:10") ∷ (opt_T (ascii "b") ∷ (opt_N (ascii "2") ∷ [])))

parse_options-IsSettled_example :
    (s : Settings) × (parse_options number number plenty options ≡ parsed s)
    × (map (λ t. t.name) s.tasks ≡ names_onto [] options)
parse_options-IsSettled_example =
    parse_options-IsSettled number number plenty options (λ n. refl) (tt, (tt, tt)) tt

-- An option about a task that stands before the first -T is about tasks[-1].
no_task : parse_options number number plenty (opt_b (ascii "5") ∷ []) ≡ faults
unfolding options_loop
no_task = refl
