-- ===== src/Sload/Options.antt =====
-- sload.c, main: the tasks that the options describe. What getopt finds is a sequence of options; atol and atoi are parameters.
use trivia.Prelude.{
  ℕ, ◌-◌, ◌*◌, ◌%◌, ◌^◌, Bool, true, false, ◌&&◌, Option, none, some, List, [], ◌∷◌, ltb, ◌==◌,
  if◌then◌else◌,
}
use trivia.Prelude.Int.{ℤ, pos, negsuc}
use trivia.Thrplhttp.Http.Session.{to_size}
use trivia.Sload.{SlTask}

-- The cases of the switch, each with `optarg`.
pub data Opt : Type 0 where
  opt_T : List ℕ → Opt
  opt_b : List ℕ → Opt
  opt_s : List ℕ → Opt
  opt_w : List ℕ → Opt
  opt_n : List ℕ → Opt
  opt_N : List ℕ → Opt
  opt_R : List ℕ → Opt
  opt_B : List ℕ → Opt
  opt_D : Opt
  opt_h : Opt
  unknown : Opt

-- A long as an int.
abbrev pub to_int : ℤ → ℤ
to_int n =
    let low = to_size n % 2 ^ 32 in if ltb low (2 ^ 31) then pos low else negsuc (2 ^ 32 - 1 - low)

-- The tasks, the current one first, and the other options.
pub record Settings : Type 0 where
  pub tasks : List SlTask
  pub runfor : ℤ
  pub cpu_bind : ℤ
  pub debug : Bool

-- What the options lead to; `faults` is an access to tasks[-1].
pub data Parsed : Type 0 where
  parsed : (s : Settings) → Parsed
  faults : Parsed
  exits : Parsed

abbrev pub and_then : Parsed → (Settings → Parsed) → Parsed
and_then (parsed s) f = f s
and_then faults f = faults
and_then exits f = exits

-- The three arrays of a task can be allocated.
abbrev pub has_memory : (ℕ → Bool) → SlTask → Bool
has_memory malloc t =
    malloc (to_size t.count * 4 % 2 ^ 64)
    && (malloc (to_size t.count * 16 % 2 ^ 64) && malloc (to_size t.count * 8 % 2 ^ 64))

-- The arrays of the current task, if there is one.
abbrev pub allocated : (ℕ → Bool) → Settings → List SlTask → Parsed
allocated malloc s [] = parsed s
allocated malloc s (t ∷ ts) = if has_memory malloc t then parsed s else exits

abbrev pub next_task : (ℕ → Bool) → Settings → Parsed
next_task malloc s = allocated malloc s s.tasks

-- The memory is cleared.
abbrev pub new_task : List ℕ → SlTask
new_task name = record {
  name = name;
  nice = pos 0;
  bus = 0;
  sus = 0;
  wus = 0;
  jbus = 0;
  jsus = 0;
  jwus = 0;
  count = pos 1;
}

abbrev pub add_task : List ℕ → Settings → Parsed
add_task name s = parsed (record s { tasks = new_task name ∷ s.tasks })

abbrev pub set_first : (SlTask → SlTask) → Settings → List SlTask → Parsed
set_first f s [] = faults
set_first f s (t ∷ ts) = parsed (record s { tasks = f t ∷ ts })

abbrev pub set_current : (SlTask → SlTask) → Settings → Parsed
set_current f s = set_first f s s.tasks

-- Behind the colon.
abbrev pub behind_colon : List ℕ → Option (List ℕ)
behind_colon [] = none
behind_colon (c ∷ cs) = let rest = behind_colon cs in if c == b':' then some cs else rest

abbrev pub no_settings : Settings
no_settings = record { tasks = []; runfor = pos 0; cpu_bind = negsuc 0; debug = false }

module _ (atol atoi : List ℕ → ℤ) (malloc : ℕ → Bool) where
  -- The jitter, or the one that was set before.
  abbrev pub jitter_of : ℕ → Option (List ℕ) → ℕ
  jitter_of before none = before
  jitter_of before (some text) = to_size (atol text)

  abbrev pub set_bus : List ℕ → SlTask → SlTask
  set_bus optarg t = record t {
    bus = to_size (atol optarg);
    jbus = jitter_of t.jbus (behind_colon optarg);
  }

  abbrev pub set_sus : List ℕ → SlTask → SlTask
  set_sus optarg t = record t {
    sus = to_size (atol optarg);
    jsus = jitter_of t.jsus (behind_colon optarg);
  }

  abbrev pub set_wus : List ℕ → SlTask → SlTask
  set_wus optarg t = record t {
    wus = to_size (atol optarg);
    jwus = jitter_of t.jwus (behind_colon optarg);
  }

  -- The switch.
  abbrev pub on_option : Opt → Settings → Parsed
  on_option (opt_T optarg) s = and_then (next_task malloc s) (add_task optarg)
  on_option (opt_b optarg) s = set_current (set_bus optarg) s
  on_option (opt_s optarg) s = set_current (set_sus optarg) s
  on_option (opt_w optarg) s = set_current (set_wus optarg) s
  on_option (opt_n optarg) s = set_current (λ t. record t { nice = atoi optarg }) s
  on_option (opt_N optarg) s = set_current (λ t. record t { count = atoi optarg }) s
  on_option (opt_R optarg) s = parsed (record s { runfor = atoi optarg })
  on_option (opt_B optarg) s = parsed (record s { cpu_bind = to_int (atol optarg) })
  on_option opt_D s = parsed (record s { debug = true })
  on_option opt_h s = exits
  on_option unknown s = parsed s

  unfoldable pub options_loop : List Opt → Settings → Parsed
  options_loop [] s = parsed s
  options_loop (o ∷ rest) s = and_then (on_option o s) (options_loop rest)

  abbrev pub unless_none : Settings → List SlTask → Parsed
  unless_none s [] = exits
  unless_none s (t ∷ ts) = next_task malloc s

  -- Behind the loop: without a task the usage is printed.
  abbrev pub last_task : Settings → Parsed
  last_task s = unless_none s s.tasks

  abbrev pub parse_options : List Opt → Parsed
  parse_options opts = and_then (options_loop opts no_settings) last_task
