-- ===== src/Memiszero/Tests.antt =====
-- Runs of memiszero.c and its theorem at a concrete block.
use trivia.Prelude.{ℕ, ◌+◌, ◌<◌, ◌≡◌, ◌↔◌, refl, some, arith, ◌==◌, if◌then◌else◌}
use trivia.Memiszero.{
  Memory, memiszero, memiszero_32, memiszero_loop, memiszero_by, after_lead, words, load_word,
  load_bytes, or_bytes, read, bytes_loop, bytes_until,
}
use trivia.Memiszero.Agree.{memiszero-memiszero_loop}

-- 40 bytes from address 1003 on, with a one at address 1040.
abbrev memory : Memory
memory = record { low = 1003; high = 1043; byte = λ a. if a == 1040 then 1 else 0 }

finds_the_one : memiszero memory 1003 40 ≡ some 0
unfolding memiszero memiszero_by after_lead words load_word load_bytes or_bytes read bytes_loop
finds_the_one = refl

stops_before : memiszero_32 memory 1003 37 ≡ some 1
unfolding memiszero_32 memiszero_by after_lead words load_word load_bytes or_bytes read bytes_loop
stops_before = refl

stops_at_the_one : memiszero_loop memory 1003 41 ≡ some 0
unfolding memiszero_loop bytes_until read
stops_at_the_one = refl

memiszero-memiszero_loop_example :
    (r : ℕ) × (memiszero memory 1003 40 ≡ some r)
    × (memiszero_32 memory 1003 40 ≡ some r)
    × (memiszero_loop memory 1003 40 ≡ some r)
    × ((r ≡ 1) ↔ ((i : ℕ) → i < 40 → memory.byte (1003 + i) ≡ 0))
    × (r < 2)
memiszero-memiszero_loop_example =
    memiszero-memiszero_loop memory 1003 40 (omega arith) (omega arith)
