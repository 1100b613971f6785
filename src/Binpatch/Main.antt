-- ===== src/Binpatch/Main.antt =====
-- binpatch.c, main: the options, the bytes of the match and the patch, and the exit codes. The output file
-- is taken to be another file than the input.
use trivia.Prelude.{
  ℕ, zero, suc, ◌+◌, ◌-◌, ◌%◌, ◌≤◌, ◌≡◌, refl, sym, ap, ap₂, ◌∙◌, Bool, true, false, ◌||◌, Option,
  none, some, List, [], ◌∷◌, ◌++◌, map, length, drop, length-map, ◌==◌, if◌then◌else◌, arith,
}
use trivia.Prelude.Int.{ℤ, pos, negsuc}
use trivia.Prelude.Text.{ascii}
use trivia.Binpatch.{same_text, Loop, gives, reads_unset, unfinished, search, patch_loop}
use trivia.Binpatch.Places.{occurrences}
use trivia.Binpatch.Occurrences.{search-occurrences}
use trivia.Binpatch.Patching.{rewritten, patches, length-rewritten}

pub record Options : Type 0 where
  pub in_file_path : Option (List ℕ)
  pub out_file_path : Option (List ℕ)
  pub dry_run : Bool

-- The option whose value is the next argument.
pub data Wanted : Type 0 where
  nothing : Wanted
  input_path : Wanted
  output_path : Wanted

abbrev pub is_option : List ℕ → Bool
is_option a = same_text a (ascii "-i") || (same_text a (ascii "-o") || same_text a (ascii "-d"))

abbrev pub wanted_by : List ℕ → Wanted
wanted_by a =
    if same_text a (ascii "-i")
    then input_path
    else if same_text a (ascii "-o")
    then output_path
    else nothing

abbrev pub noted : List ℕ → Options → Options
noted a o = if same_text a (ascii "-d") then record o { dry_run = true } else o

-- The options, and the arguments from the first that is none on.
abbrev pub parse_options : Wanted → Options → List (List ℕ) → Options × List (List ℕ)
parse_options want o [] = (o, [])
parse_options input_path o (a ∷ as') =
    parse_options nothing (record o { in_file_path = some a }) as'
parse_options output_path o (a ∷ as') =
    parse_options nothing (record o { out_file_path = some a }) as'
parse_options nothing o (a ∷ as') =
    let rest = parse_options (wanted_by a) (noted a o) as' in
    if is_option a then rest else (o, a ∷ as')

abbrev pub no_options : Options
no_options = record { in_file_path = none; out_file_path = none; dry_run = false }

-- (char), as the byte with the same bits
abbrev pub to_char : ℤ → ℕ
to_char (pos n) = n % 256
to_char (negsuc n) = 255 - n % 256

-- `files` holds what can be opened and read, `answer` is what fgetc(stdin) returns, `can_write` tells which
-- files can be opened for writing.
pub record Host : Type 0 where
  pub files : List ℕ → Option (List ℕ)
  pub answer : Option ℕ
  pub can_write : List ℕ → Bool

-- The exit code with what was written, if it came to that.
pub data Exit : Type 0 where
  exits : (code : ℕ) (written : Option (List ℕ)) → Exit
  undefined : Exit
  out_of_rounds : Exit

module _ (strtol : List ℕ → ℤ) where
  -- The bytes up to `--`, at most `left`, and the arguments from there on.
  abbrev pub match_bytes : ℕ → List (List ℕ) → List ℕ × List (List ℕ)
  match_bytes left [] = ([], [])
  match_bytes zero (a ∷ as') = ([], a ∷ as')
  match_bytes (suc left) (a ∷ as') =
      let (bytes, rest) = match_bytes left as' in
      if same_text a (ascii "--") then ([], a ∷ as') else (to_char (strtol a) ∷ bytes, rest)

  abbrev pub patch_bytes : ℕ → List (List ℕ) → List ℕ
  patch_bytes left [] = []
  patch_bytes zero (a ∷ as') = []
  patch_bytes (suc left) (a ∷ as') = to_char (strtol a) ∷ patch_bytes left as'

  module _ (h : Host) where
    abbrev pub written : Loop → Exit
    written (gives out) = exits 0 (some out)
    written reads_unset = undefined
    written unfinished = out_of_rounds

    abbrev pub write_patched : List ℕ → List ℕ → List ℕ → Exit
    write_patched input patch ms = written (patch_loop input patch (length input + 1) 0 ms)

    abbrev pub open_output : Option (List ℕ) → Exit → Exit
    open_output none patched = patched
    open_output (some path) patched = if h.can_write path then patched else exits 4 none

    abbrev pub is_yes : Option ℕ → Bool
    is_yes none = false
    is_yes (some c) = c == b'y'

    -- Behind the search.
    abbrev pub confirm : Options → List ℕ → List ℕ → Loop → Exit
    confirm o input patch reads_unset = undefined
    confirm o input patch unfinished = out_of_rounds
    confirm o input patch (gives ms) =
        if o.dry_run
        then exits 0 none
        else if is_yes h.answer
        then open_output o.out_file_path (write_patched input patch ms)
        else exits 5 none

    abbrev pub open_input : Options → List ℕ → List ℕ → Option (List ℕ) → Exit
    open_input o match patch none = exits 3 none
    open_input o match patch (some input) = confirm o input patch (search input match)

    abbrev pub same_size : Options → List ℕ → List ℕ → List ℕ → Exit
    same_size o path match patch =
        if length match == length patch
        then open_input o match patch (h.files path)
        else exits 2 none

    abbrev pub with_match : Options → List ℕ → List ℕ × List (List ℕ) → Exit
    with_match o path (match, rest) = same_size o path match (patch_bytes 4096 (drop 1 rest))

    abbrev pub with_input : Options → List (List ℕ) → Option (List ℕ) → Exit
    with_input o rest none = exits 1 none
    with_input o rest (some path) = with_match o path (match_bytes 4096 rest)

    abbrev pub with_options : Options × List (List ℕ) → Exit
    with_options (o, rest) = with_input o rest o.in_file_path

    unfoldable pub main : List (List ℕ) → Exit
    main args = with_options (parse_options nothing no_options args)

  -- None of the words is `--`.
  abbrev pub NoDashes : List (List ℕ) → Type 0
  NoDashes [] = Unit
  NoDashes (w ∷ ws) = (same_text w (ascii "--") ≡ false) × NoDashes ws

  abbrev pub bytes_of : List (List ℕ) → List ℕ
  bytes_of = map (λ w. to_char (strtol w))

  match_bytes-NoDashes :
      (ms ws : List (List ℕ)) (left : ℕ)
      → length ms ≤ left
      → NoDashes ms
      → match_bytes left (ms ++ (ascii "--" ∷ ws)) ≡ (bytes_of ms, ascii "--" ∷ ws)
  match_bytes-NoDashes [] ws zero le d = refl
  match_bytes-NoDashes [] ws (suc left) le d = refl
  match_bytes-NoDashes (m ∷ ms) ws zero le d = absurd (omega arith)
  match_bytes-NoDashes (m ∷ ms) ws (suc left) le (d, ds) =
      rw (d, match_bytes-NoDashes ms ws left (omega arith) ds) refl

  patch_bytes_all :
      (ws : List (List ℕ)) (left : ℕ) → length ws ≤ left → patch_bytes left ws ≡ bytes_of ws
  patch_bytes_all [] left le = refl
  patch_bytes_all (w ∷ ws) zero le = absurd (omega arith)
  patch_bytes_all (w ∷ ws) (suc left) le =
      ap (λ q. to_char (strtol w) ∷ q) (patch_bytes_all ws left (omega arith))

  -- With an input file that can be read, as many bytes for the patch as for the match, at least one and at most
  -- 4096, and the answer y, the program writes to its standard output the file with the patch in place of the
  -- first 32 matches that do not overlap, which is as long as the file, and exits with 0.
  pub main-rewritten :
      (h : Host) (path m : List ℕ) (ms ws : List (List ℕ)) (input : List ℕ)
      → is_option m ≡ false
      → NoDashes (m ∷ ms)
      → length (m ∷ ms) ≤ 4096
      → length ws ≡ length (m ∷ ms)
      → h.files path ≡ some input
      → is_yes h h.answer ≡ true
      → (main h (ascii "-i" ∷ (path ∷ ((m ∷ ms) ++ (ascii "--" ∷ ws))))
          ≡ exits 0 (some (rewritten (bytes_of (m ∷ ms)) (bytes_of ws) input 32 0)))
        × (length (rewritten (bytes_of (m ∷ ms)) (bytes_of ws) input 32 0) ≡ length input)
  unfolding main
  main-rewritten h path m ms ws input word dashes small same file answered = (
    ap
          (λ t.
            with_options h
              (if t then parse_options (wanted_by m) (noted m o) tail else (o, m ∷ tail)))
          word
        ∙ ap (with_match h o path) (match_bytes-NoDashes (m ∷ ms) ws 4096 small dashes)
        ∙ ap (same_size h o path match) (patch_bytes_all ws 4096 (omega (arith, small, same)))
        ∙ ap₂ (λ t f. if t then open_input h o match patch f else exits 2 none) (equal sizes) file
        ∙ ap (confirm h o input patch) (search-occurrences input match (omega arith))
        ∙ ap
            (λ t.
              if t
              then write_patched h input patch (occurrences match input 32 0 0)
              else exits 5 none)
            answered
        ∙ ap (written h) (
            patches match input patch input 32 0 0 (length input + 1) (sym sizes) (omega arith) refl
              (omega arith)),
    omega (arith, length-rewritten match patch (sym sizes) (omega arith) input 32 0 (omega arith)),
  )
    where
      o : Options
      o = record { in_file_path = some path; out_file_path = none; dry_run = false }

      tail : List (List ℕ)
      tail = ms ++ (ascii "--" ∷ ws)

      match : List ℕ
      match = bytes_of (m ∷ ms)

      patch : List ℕ
      patch = bytes_of ws

      sizes : length match ≡ length patch
      sizes =
          length-map (m ∷ ms) (λ w. to_char (strtol w))
          ∙ sym same
          ∙ sym (length-map ws (λ w. to_char (strtol w)))

      equal : {a b : ℕ} → a ≡ b → (a == b) ≡ true
      equal e = ground arith
