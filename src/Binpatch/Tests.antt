-- ===== src/Binpatch/Tests.antt =====
-- Searches and runs of binpatch.c, and their theorems at these.
use trivia.Prelude.{ℕ, ◌≡◌, ◌-◌, refl, true, some, List, [], ◌∷◌, ◌++◌, length, arith}
use trivia.Prelude.Int.{ℤ, pos}
use trivia.Prelude.Text.{ascii}
use trivia.Binpatch.{gives, reads_unset, search, search_loop}
use trivia.Binpatch.Places.{occurrences}
use trivia.Binpatch.Occurrences.{search-occurrences}
use trivia.Binpatch.Patching.{rewritten}
use trivia.Binpatch.Main.{Host, exits, main, main-rewritten}

search-occurrences_example :
    search (ascii "aaab aab") (ascii "aab")
    ≡ gives (occurrences (ascii "aab") (ascii "aaab aab") 32 0 0)
search-occurrences_example = search-occurrences (ascii "aaab aab") (ascii "aab") (omega arith)

found : occurrences (ascii "aab") (ascii "aaab aab") 32 0 0 ≡ 1 ∷ 5 ∷ []
found = refl

-- Without a byte to match, the first comparison reads a byte that was never set.
no_match_bytes : search (ascii "a") [] ≡ reads_unset
unfolding search_loop
no_match_bytes = refl

-- The value of a word of one digit.
abbrev digit : List ℕ → ℤ
digit [] = pos 0
digit (c ∷ cs) = pos (c - b'0')

abbrev host : Host
host = record {
  files = λ path. some (1 ∷ 1 ∷ 2 ∷ 3 ∷ []);
  answer = some b'y';
  can_write = λ path. true;
}

main-rewritten_example :
    (main digit host (
        ascii "-i"
        ∷ (ascii "f"
            ∷ ((ascii "1" ∷ (ascii "2" ∷ [])) ++ (ascii "--" ∷ (ascii "8" ∷ (ascii "9" ∷ []))))))
      ≡ exits 0 (some (rewritten (1 ∷ 2 ∷ []) (8 ∷ 9 ∷ []) (1 ∷ 1 ∷ 2 ∷ 3 ∷ []) 32 0)))
    × (length (rewritten (1 ∷ 2 ∷ []) (8 ∷ 9 ∷ []) (1 ∷ 1 ∷ 2 ∷ 3 ∷ []) 32 0) ≡ 4)
main-rewritten_example =
    main-rewritten digit host (ascii "f") (ascii "1") (ascii "2" ∷ [])
      (ascii "8" ∷ (ascii "9" ∷ [])) (1 ∷ 1 ∷ 2 ∷ 3 ∷ []) refl (refl, (refl, tt)) (omega arith) refl
      refl refl

patched : rewritten (1 ∷ 2 ∷ []) (8 ∷ 9 ∷ []) (1 ∷ 1 ∷ 2 ∷ 3 ∷ []) 32 0 ≡ 1 ∷ 8 ∷ 9 ∷ 3 ∷ []
patched = refl
