-- ===== src/Qspins/SpinLock/Holder.antt =====
-- The value of the spin lock tells whether a thread holds it, and never two hold it.
use trivia.Prelude.{
  ℕ, ◌+◌, ◌-◌, ◌%◌, ◌^◌, ◌≤◌, ◌<◌, ◌≡◌, ◌≢◌, refl, sym, ◌⊎◌, inl, inr, true, false, arith,
  ℕ_discrete,
}
use trivia.Qspins.Threads.{move_to, count, count-le, count-move_to, count_none, move_to_ne}
use trivia.Qspins.SpinLock.{
  SpinPc, outside, trying, polling, holding, Negative, SpinAccess, call, acquire, refuse, relax,
  again, unlock, SpinSystem, SpinStep, run, spin_start, SpinReach, begin, next, holds, counted,
}

-- The lock was decremented `down` times since it was last 1.
record Value (n : ℕ) (slock : ℕ) (pc : ℕ → SpinPc) : Type 0 where
  down : ℕ
  value : slock ≡ (2 ^ 32 + 1 - down) % 2 ^ 32
  by_threads : down ≤ count counted n pc
  holder : ((down ≡ 0) × (count holds n pc ≡ 0)) ⊎ ((0 < down) × (count holds n pc ≡ 1))

module _ {n : ℕ} (few : n < 2 ^ 31) {slock : ℕ} {pc : ℕ → SpinPc} (v : Value n slock pc) (i : ℕ)
    (lt : i < n) where
  bound : v.down < 2 ^ 31
  bound = omega (arith, few, v.by_threads, count-le counted n pc)

  free : slock < 2 ^ 31 → 0 < slock → v.down ≡ 0
  free h h' = omega (arith, bound, v.value)

  none_held : v.down ≡ 0 → count holds n pc ≡ 0
  none_held z = elim v.holder [ inl h ↦ h.1 | inr h ↦ absurd (omega (arith, h.0)) ]

  at_most_one : count holds n pc ≤ 1
  at_most_one = elim v.holder [ inl h ↦ omega (arith, h.1) | inr h ↦ omega (arith, h.1) ]

  -- A thread that does not hold the lock moves, and still does not.
  same_holder :
      {p : SpinPc} (p' : SpinPc) (down : ℕ)
      → pc i ≡ p
      → holds p ≡ false
      → holds p' ≡ false
      → (v.down ≡ 0 → down ≡ 0)
      → (0 < v.down → 0 < down)
      → ((down ≡ 0) × (count holds n (move_to pc i p') ≡ 0))
        ⊎ ((0 < down) × (count holds n (move_to pc i p') ≡ 1))
  same_holder {p} p' down e h h' zero pos = elim v.holder [
    | inl g ↦ inl (zero g.0, ground (arith, e, h, h', g.1, count-move_to holds n pc i p' lt))
    | inr g ↦ inr (pos g.0, ground (arith, e, h, h', g.1, count-move_to holds n pc i p' lt))
  ]

  access :
      {l : ℕ} {p p' : SpinPc} → pc i ≡ p → SpinAccess slock p l p' → Value n l (move_to pc i p')
  access e call = record {
    down = v.down;
    value = v.value;
    by_threads = ground (arith, e, v.by_threads, count-move_to counted n pc i trying lt);
    holder = same_holder trying v.down e refl refl (λ z. z) (λ z. z);
  }
  access e (acquire h) = record {
    down = 1;
    value = omega (arith, h, bound, v.value);
    by_threads = ground (arith, e, count-move_to counted n pc i holding lt);
    holder = inr (
      omega arith,
      ground (
        arith,
        e,
        count-move_to holds n pc i holding lt,
        none_held (omega (arith, h, bound, v.value)),
      ),
    );
  }
  access e (refuse h) = record {
    down = v.down + 1;
    value = omega (arith, h, bound, v.value);
    by_threads = ground (arith, e, v.by_threads, count-move_to counted n pc i polling lt);
    holder =
        same_holder polling (v.down + 1) e refl refl (λ z. absurd (omega (arith, z, h, v.value)))
          (λ z. omega arith);
  }
  access e (relax h) = record {
    down = v.down;
    value = v.value;
    by_threads = ground (arith, e, v.by_threads, count-move_to counted n pc i polling lt);
    holder = same_holder polling v.down e refl refl (λ z. z) (λ z. z);
  }
  access e (again pos h) = record {
    down = v.down;
    value = v.value;
    by_threads = omega (arith, free h pos);
    holder = same_holder trying v.down e refl refl (λ z. z) (λ z. z);
  }
  access e unlock = record {
    down = 0;
    value = omega arith;
    by_threads = omega arith;
    holder = inl (refl, ground (arith, e, count-move_to holds n pc i outside lt, at_most_one));
  }

start-Value : (n : ℕ) → Value n spin_start.slock spin_start.pc
start-Value n = record {
  down = 0;
  value = omega arith;
  by_threads = omega arith;
  holder = inl (refl, count_none holds n (λ _. outside) (λ i. refl));
}

Step-Value :
    {n : ℕ} {s t : SpinSystem}
    → n < 2 ^ 31
    → Value n s.slock s.pc
    → SpinStep n s t
    → Value n t.slock t.pc
Step-Value few v (run i lt a) = access few v i lt refl a

Reach-Value : {n : ℕ} {s : SpinSystem} → n < 2 ^ 31 → SpinReach n s → Value n s.slock s.pc
Reach-Value {n} few begin = start-Value n
Reach-Value few (next r st) = Step-Value few (Reach-Value few r) st

-- With less than 2 ^ 31 threads, in every reachable state of the spin lock either its value is 1 and
-- no thread holds it, or its value is 0 or negative and exactly one thread holds it: the
-- decrements of the threads that wait never make it positive again.
slock-holds :
    {n : ℕ} {s : SpinSystem}
    → n < 2 ^ 31
    → SpinReach n s
    → ((s.slock ≡ 1) × (count holds n s.pc ≡ 0))
      ⊎ (((s.slock ≡ 0) ⊎ Negative s.slock) × (count holds n s.pc ≡ 1))
slock-holds {n} {s} few r =
    let v = Reach-Value few r in
    elim v.holder [
      | inl h ↦ inl (omega (arith, v.value, h.0), h.1)
      | inr h ↦
          inr (taken (omega (arith, few, v.by_threads, count-le counted n s.pc)) v.value h.0, h.1)
    ]
  where
    taken : {l d : ℕ} → d < 2 ^ 31 → l ≡ (2 ^ 32 + 1 - d) % 2 ^ 32 → 0 < d → (l ≡ 0) ⊎ Negative l
    taken {l} {d} h e pos = elim (ℕ_discrete d 1) [
      | yes one ↦ inl (omega arith)
      | no more ↦ inr (omega arith)
    ]

-- With less than 2 ^ 31 threads, no two threads ever hold the spin lock together.
pub spin_exclusion :
    {n : ℕ} {s : SpinSystem}
    → n < 2 ^ 31
    → SpinReach n s
    → (i j : ℕ) → i < n
    → j < n
    → holds (s.pc i) ≡ true
    → holds (s.pc j) ≡ true
    → i ≡ j
spin_exclusion {n} {s} few r i j lt lt' h h' = elim (ℕ_discrete j i) [
  | yes same ↦ sym same
  | no other ↦ absurd (two other (at_most_one few (Reach-Value few r) i lt))
]
  where
    left : ℕ → SpinPc
    left = move_to s.pc i outside

    two : j ≢ i → count holds n s.pc ≤ 1 → ⊥
    two other le = ground (
      arith,
      h,
      h',
      move_to_ne s.pc i j outside other,
      count-move_to holds n s.pc i outside lt,
      count-move_to holds n left j outside lt',
    )
