-- ===== src/Splitmb/Tests.antt =====
-- Runs of splitmb.c, and its theorems at a concrete address and mailbox.
use trivia.Prelude.{
  ℕ, ◌+◌, ◌≡◌, refl, ◌↔◌, Bool, true, false, Option, none, some, List, [], ◌∷◌, ◌++◌, length, drop,
}
use trivia.Splitmb.Address.{is_valid_addr_spec, dot_atom, is_rfc822_atext}
use trivia.Splitmb.Address.Grammar.{AddrSpec, is_valid_addr_spec-AddrSpec}
use trivia.Splitmb.Mailbox.{Message, split_loop}
use trivia.Splitmb.Mailbox.Messages.{Body, Messages, split_loop-Messages}

-- "a.b@c"
abbrev address : List ℕ
address = 97 ∷ 46 ∷ 98 ∷ 64 ∷ 99 ∷ []

accepts_address : is_valid_addr_spec address ≡ true
unfolding dot_atom is_rfc822_atext
accepts_address = refl

-- "a.@c"
rejects_final_dot : is_valid_addr_spec (97 ∷ 46 ∷ 64 ∷ 99 ∷ []) ≡ false
unfolding dot_atom is_rfc822_atext
rejects_final_dot = refl

is_valid_addr_spec-AddrSpec_example : (is_valid_addr_spec address ≡ true) ↔ AddrSpec address
is_valid_addr_spec-AddrSpec_example = is_valid_addr_spec-AddrSpec address

-- A scan that takes all that follows "From " for the address.
abbrev all_behind : List ℕ → Option (List ℕ)
all_behind ln = some (drop 5 ln)

abbrev every_file : ℕ → Bool
every_file n = true

-- A line, a separator and a line.
abbrev mailbox : List (List ℕ)
mailbox = (120 ∷ []) ∷ (70 ∷ 114 ∷ 111 ∷ 109 ∷ 32 ∷ address) ∷ (121 ∷ []) ∷ []

one_message :
    split_loop all_behind every_file true none 1 mailbox
    ≡ some (record { lnum = 2; xfile = true; lines = (121 ∷ []) ∷ [] } ∷ [])
unfolding split_loop dot_atom is_rfc822_atext
one_message = refl

split_loop-Messages_example :
    (pre : List (List ℕ)) × (rest : List (List ℕ)) × (ms : List Message) × (mailbox ≡ pre ++ rest)
    × Body all_behind every_file true pre
    × Messages all_behind every_file true (1 + length pre) rest ms
    × (split_loop all_behind every_file true none 1 mailbox ≡ some ms)
split_loop-Messages_example = split_loop-Messages all_behind every_file true (λ n. refl) mailbox
