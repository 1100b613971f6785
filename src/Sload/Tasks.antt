-- ===== src/Sload/Tasks.antt =====
-- The tasks of sload.c are those that the options name.
use trivia.Prelude.{ℕ, ◌≡◌, refl, sym, ap, ◌∙◌, ◌*◌, ◌%◌, ◌^◌, Bool, true, List, [], ◌∷◌, map}
use trivia.Prelude.Int.{ℤ}
use mathlib.Core.Path.{subst}
use trivia.Thrplhttp.Http.Session.{to_size}
use trivia.Sload.{SlTask}
use trivia.Sload.Options.{
  Opt, opt_T, opt_b, opt_s, opt_w, opt_n, opt_N, opt_R, opt_B, opt_D, opt_h, unknown, Settings,
  Parsed, parsed, faults, exits, and_then, next_task, add_task, set_first, allocated, set_current,
  set_bus, set_sus, set_wus, to_int, unless_none, options_loop, last_task, parse_options,
  no_settings,
}

-- The arguments of -T behind those of `before`, the last one first.
abbrev pub names_onto : List (List ℕ) → List Opt → List (List ℕ)
names_onto before [] = before
names_onto before (opt_T name ∷ rest) = names_onto (name ∷ before) rest
names_onto before (_ ∷ rest) = names_onto before rest

abbrev pub HasTask : List (List ℕ) → Type 0
HasTask [] = ⊥
HasTask (name ∷ before) = Unit

-- An option that is about a task stands behind a -T, and there is no -h.
abbrev pub IsSettled : List (List ℕ) → List Opt → Type 0
IsSettled before [] = Unit
IsSettled before (opt_T name ∷ rest) = IsSettled (name ∷ before) rest
IsSettled before (opt_b _ ∷ rest) = HasTask before × IsSettled before rest
IsSettled before (opt_s _ ∷ rest) = HasTask before × IsSettled before rest
IsSettled before (opt_w _ ∷ rest) = HasTask before × IsSettled before rest
IsSettled before (opt_n _ ∷ rest) = HasTask before × IsSettled before rest
IsSettled before (opt_N _ ∷ rest) = HasTask before × IsSettled before rest
IsSettled before (opt_R _ ∷ rest) = IsSettled before rest
IsSettled before (opt_B _ ∷ rest) = IsSettled before rest
IsSettled before (opt_D ∷ rest) = IsSettled before rest
IsSettled before (unknown ∷ rest) = IsSettled before rest
IsSettled before (opt_h ∷ rest) = ⊥

abbrev pub names_of : Settings → List (List ℕ)
names_of s = map (λ t. t.name) s.tasks

-- The options go on, with tasks of these names.
abbrev Named : List (List ℕ) → Parsed → Type 0
Named names (parsed s) = names_of s ≡ names
Named names faults = ⊥
Named names exits = ⊥

Named-and_then :
    (names more : List (List ℕ)) (r : Parsed) (f : Settings → Parsed)
    → Named names r
    → ((s : Settings) → names_of s ≡ names → Named more (f s))
    → Named more (and_then r f)
Named-and_then names more (parsed s) f h k = k s h
Named-and_then names more faults f h k = h
Named-and_then names more exits f h k = h

-- What leaves the name of a task alone.
set_first-Named :
    (f : SlTask → SlTask) (s : Settings) (tasks : List SlTask) (names : List (List ℕ))
    → ((t : SlTask) → (f t).name ≡ t.name)
    → map (λ t. t.name) tasks ≡ names
    → HasTask names
    → Named names (set_first f s tasks)
set_first-Named f s [] names keeps h has = subst HasTask (sym h) has
set_first-Named f s (t ∷ ts) names keeps h has =
    ap (λ name. name ∷ map (λ t. t.name) ts) (keeps t) ∙ h

module _ (atol atoi : List ℕ → ℤ) (malloc : ℕ → Bool) (plenty : (n : ℕ) → malloc n ≡ true) where
  allocated-Named :
      (s : Settings) (tasks : List SlTask) (names : List (List ℕ))
      → names_of s ≡ names
      → Named names (allocated malloc s tasks)
  allocated-Named s [] names h = h
  allocated-Named s (t ∷ ts) names h =
      rw
        (
          plenty (to_size t.count * 4 % 2 ^ 64),
          plenty (to_size t.count * 16 % 2 ^ 64),
          plenty (to_size t.count * 8 % 2 ^ 64),
        )
        h

  changed-Named :
      (f : SlTask → SlTask) (s : Settings) (names more : List (List ℕ)) (rest : Settings → Parsed)
      → ((t : SlTask) → (f t).name ≡ t.name)
      → names_of s ≡ names
      → HasTask names
      → ((s' : Settings) → names_of s' ≡ names → Named more (rest s'))
      → Named more (and_then (set_current f s) rest)
  changed-Named f s names more rest keeps h has go =
      Named-and_then names more (set_current f s) rest
        (set_first-Named f s s.tasks names keeps h has) go

  options_loop-Named :
      (opts : List Opt) (s : Settings) (names : List (List ℕ))
      → names_of s ≡ names
      → IsSettled names opts
      → Named (names_onto names opts) (options_loop atol atoi malloc opts s)
  unfolding options_loop
  options_loop-Named [] s names h ok = h
  options_loop-Named (opt_T name ∷ rest) s names h ok =
      Named-and_then (name ∷ names) (names_onto (name ∷ names) rest)
        (and_then (next_task malloc s) (add_task name)) (options_loop atol atoi malloc rest)
        (Named-and_then names (name ∷ names) (next_task malloc s) (add_task name)
          (allocated-Named s s.tasks names h) (λ s' e. ap (λ ns. name ∷ ns) e))
        (λ s' e. options_loop-Named rest s' (name ∷ names) e ok)
  options_loop-Named (opt_b optarg ∷ rest) s names h (has, ok) =
      changed-Named (set_bus atol atoi malloc optarg) s names (names_onto names rest)
        (options_loop atol atoi malloc rest) (λ t. refl) h has
        (λ s' e. options_loop-Named rest s' names e ok)
  options_loop-Named (opt_s optarg ∷ rest) s names h (has, ok) =
      changed-Named (set_sus atol atoi malloc optarg) s names (names_onto names rest)
        (options_loop atol atoi malloc rest) (λ t. refl) h has
        (λ s' e. options_loop-Named rest s' names e ok)
  options_loop-Named (opt_w optarg ∷ rest) s names h (has, ok) =
      changed-Named (set_wus atol atoi malloc optarg) s names (names_onto names rest)
        (options_loop atol atoi malloc rest) (λ t. refl) h has
        (λ s' e. options_loop-Named rest s' names e ok)
  options_loop-Named (opt_n optarg ∷ rest) s names h (has, ok) =
      changed-Named (λ t. record t { nice = atoi optarg }) s names (names_onto names rest)
        (options_loop atol atoi malloc rest) (λ t. refl) h has
        (λ s' e. options_loop-Named rest s' names e ok)
  options_loop-Named (opt_N optarg ∷ rest) s names h (has, ok) =
      changed-Named (λ t. record t { count = atoi optarg }) s names (names_onto names rest)
        (options_loop atol atoi malloc rest) (λ t. refl) h has
        (λ s' e. options_loop-Named rest s' names e ok)
  options_loop-Named (opt_R optarg ∷ rest) s names h ok =
      options_loop-Named rest (record s { runfor = atoi optarg }) names h ok
  options_loop-Named (opt_B optarg ∷ rest) s names h ok =
      options_loop-Named rest (record s { cpu_bind = to_int (atol optarg) }) names h ok
  options_loop-Named (opt_D ∷ rest) s names h ok =
      options_loop-Named rest (record s { debug = true }) names h ok
  options_loop-Named (unknown ∷ rest) s names h ok = options_loop-Named rest (s) names h ok
  options_loop-Named (opt_h ∷ rest) s names h ok = absurd ok

  last_task-Named :
      (s : Settings) (tasks : List SlTask) (names : List (List ℕ))
      → map (λ t. t.name) tasks ≡ names
      → names_of s ≡ names
      → HasTask names
      → Named names (unless_none atol atoi malloc s tasks)
  last_task-Named s [] names e h has = subst HasTask (sym e) has
  last_task-Named s (t ∷ ts) names e h has = allocated-Named s s.tasks names h

result-Named :
    (names : List (List ℕ)) (r : Parsed)
    → Named names r
    → (s : Settings) × (r ≡ parsed s) × (names_of s ≡ names)
result-Named names (parsed s) h = (s, refl, h)
result-Named names faults h = absurd h
result-Named names exits h = absurd h

-- With memory enough, and options of which each one about a task stands behind a -T, at least one of them -T and none
-- of them -h, main makes a task for each -T, with its name and in this order.
pub parse_options-IsSettled :
    (atol atoi : List ℕ → ℤ) (malloc : ℕ → Bool) (opts : List Opt)
    → ((n : ℕ) → malloc n ≡ true)
    → IsSettled [] opts
    → HasTask (names_onto [] opts)
    → (s : Settings) × (parse_options atol atoi malloc opts ≡ parsed s)
      × (map (λ t. t.name) s.tasks ≡ names_onto [] opts)
parse_options-IsSettled atol atoi malloc opts plenty ok has =
    result-Named (names_onto [] opts) (parse_options atol atoi malloc opts) (
      Named-and_then (names_onto [] opts) (names_onto [] opts)
        (options_loop atol atoi malloc opts no_settings) (last_task atol atoi malloc)
        (options_loop-Named atol atoi malloc plenty opts no_settings [] refl ok)
        (λ s e. last_task-Named atol atoi malloc plenty s s.tasks (names_onto [] opts) e e has))
