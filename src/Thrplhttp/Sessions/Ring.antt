-- ===== src/Thrplhttp/Sessions/Ring.antt =====
-- The array of struct per_cpu_ctx as a queue: the sessions that it holds, in order.
use trivia.Prelude.{
  ℕ, zero, suc, ◌+◌, ◌-◌, ◌%◌, ◌≤◌, ◌<◌, ◌≡◌, refl, sym, ap, ◌∙◌, ◌≢◌, ◌⊎◌, inl, inr, true, some,
  List, [], ◌∷◌, ◌++◌, length, get_elem?, set, length-append, length-set, length-replicate, arith,
  ltb, ℕ_discrete, get_elem?-set_self, get_elem?-set_ne, dec_lt,
}
use native.Mathlib.Nat.{mod-lt, mod-eq_of_lt, mod-add-mod, mod-eq-sub-mod}
use trivia.Thrplhttp.Sessions.{PerCpuCtx, returns, take_session, put_session, init_per_cpu_ctx}

pub record Holds (pcx : PerCpuCtx) (q : List ℕ) : Type 0 where
  pub size : length pcx.squeue ≡ pcx.qsize
  pub read : pcx.rqpos < pcx.qsize
  pub write : pcx.wqpos ≡ (pcx.rqpos + pcx.qcount) % pcx.qsize
  pub count : pcx.qcount ≡ length q
  pub fits : pcx.qcount ≤ pcx.qsize
  pub entry :
      (k : ℕ) → k < length q → get_elem? pcx.squeue ((pcx.rqpos + k) % pcx.qsize) ≡ get_elem? q k

-- The queue does not read the count of waiting threads.
pub Holds-qwait :
    {pcx : PerCpuCtx} {q : List ℕ} (n : ℕ) → Holds pcx q → Holds (record pcx { qwait = n }) q
Holds-qwait n h = record {
  size = h.size;
  read = h.read;
  write = h.write;
  count = h.count;
  fits = h.fits;
  entry = h.entry;
}

wrap : (n x : ℕ) → x < n + n → ((x % n ≡ x) × (x < n)) ⊎ ((x % n ≡ x - n) × (n ≤ x))
wrap n x h = elim (dec_lt x n) [
  | yes below ↦ inl (mod-eq_of_lt below, below)
  | no above ↦ inr (
    mod-eq-sub-mod (omega (arith, above)) ∙ mod-eq_of_lt (omega (arith, above)),
    omega (arith, above),
  )
]

-- Two places of the ring are different.
apart : (n r k j : ℕ) → r < n → k < j → j < n → (r + j) % n ≢ (r + k) % n
apart n r k j h lt lt' e = cases (wrap n (r + j) (omega arith)) (wrap n (r + k) (omega arith))
  where
    cases :
        (((r + j) % n ≡ r + j) × (r + j < n)) ⊎ (((r + j) % n ≡ r + j - n) × (n ≤ r + j))
        → (((r + k) % n ≡ r + k) × (r + k < n)) ⊎ (((r + k) % n ≡ r + k - n) × (n ≤ r + k))
        → ⊥
    cases (inl a) (inl b) = omega (arith, a.0, b.0)
    cases (inl a) (inr b) = omega (arith, a.0, b.0, a.1, b.1)
    cases (inr a) (inl b) = omega (arith, a.0, b.0, a.1, b.1)
    cases (inr a) (inr b) = omega (arith, a.0, b.0, a.1, b.1)

pub init_per_cpu_ctx-Holds : (n : ℕ) → 0 < n → Holds (init_per_cpu_ctx n) []
init_per_cpu_ctx-Holds n h = record {
  size = length-replicate n 0;
  read = h;
  write = sym (mod-eq_of_lt h);
  count = refl;
  fits = omega arith;
  entry = λ k lt. absurd (omega arith);
}

get_elem?-snoc_ne :
    (q : List ℕ) (c k : ℕ) → k < length q → get_elem? (q ++ (c ∷ [])) k ≡ get_elem? q k
get_elem?-snoc_ne [] c k lt = absurd (omega arith)
get_elem?-snoc_ne (x ∷ q) c zero lt = refl
get_elem?-snoc_ne (x ∷ q) c (suc k) lt = get_elem?-snoc_ne q c k (omega arith)

get_elem?-snoc_self : (q : List ℕ) (c k : ℕ) → k ≡ length q → get_elem? (q ++ (c ∷ [])) k ≡ some c
get_elem?-snoc_self [] c k e = rw e refl
get_elem?-snoc_self (x ∷ q) c zero e = absurd (omega arith)
get_elem?-snoc_self (x ∷ q) c (suc k) e = get_elem?-snoc_self q c k (omega arith)

module _ {pcx : PerCpuCtx} {q : List ℕ} where
  -- The session at the read position is the first, and without it the array holds the others.
  pub take_session-Holds :
      {c : ℕ}
      → Holds pcx (c ∷ q)
      → (pcx' : PerCpuCtx) × (take_session pcx (get_elem? pcx.squeue pcx.rqpos)
          ≡ some (returns (some c) (ltb 0 pcx.qwait) pcx'))
        × Holds pcx' q
        × (pcx'.qsize ≡ pcx.qsize)
        × (pcx'.qwait ≡ pcx.qwait)
        × (pcx'.qcount + 1 ≡ pcx.qcount)
  take_session-Holds {c} h = (
    record pcx { rqpos = (pcx.rqpos + 1) % pcx.qsize; qcount = pcx.qcount - 1 },
    ap (take_session pcx) front,
    record {
      size = h.size;
      read = mod-lt (pcx.rqpos + 1) (omega (arith, h.read));
      write =
          h.write
          ∙ ap (λ x. x % pcx.qsize) (omega (arith, h.count))
          ∙ sym (mod-add-mod (pcx.rqpos + 1) pcx.qsize (pcx.qcount - 1));
      count = omega (arith, h.count);
      fits = omega (arith, h.fits);
      entry = λ k lt. ap (get_elem? pcx.squeue) (later k) ∙ h.entry (suc k) (omega arith);
    },
    refl,
    refl,
    omega (arith, h.count),
  )
    where
      first_place : (pcx.rqpos + 0) % pcx.qsize ≡ pcx.rqpos
      first_place = mod-eq_of_lt (omega (arith, h.read)) ∙ omega arith

      front : get_elem? pcx.squeue pcx.rqpos ≡ some c
      front = ap (get_elem? pcx.squeue) (sym first_place) ∙ h.entry 0 (omega arith)

      later :
          (k : ℕ) → ((pcx.rqpos + 1) % pcx.qsize + k) % pcx.qsize ≡ (pcx.rqpos + suc k) % pcx.qsize
      later k = mod-add-mod (pcx.rqpos + 1) pcx.qsize k ∙ ap (λ x. x % pcx.qsize) (omega arith)

  -- With a free place the new session is stored behind the others.
  pub put_session-Holds :
      (c : ℕ)
      → Holds pcx q
      → pcx.qcount < pcx.qsize
      → (pcx' : PerCpuCtx) × (put_session pcx c ≡ some (returns true true pcx'))
        × Holds pcx' (q ++ (c ∷ []))
        × (pcx'.qsize ≡ pcx.qsize)
        × (pcx'.qwait ≡ pcx.qwait)
        × (pcx'.qcount ≡ pcx.qcount + 1)
  put_session-Holds c h free = (
    record pcx {
      qcount = pcx.qcount + 1;
      squeue = set pcx.squeue pcx.wqpos c;
      wqpos = (pcx.wqpos + 1) % pcx.qsize;
    },
    ground (arith, place),
    record {
      size = length-set pcx.squeue pcx.wqpos c ∙ h.size;
      read = h.read;
      write =
          ap (λ x. (x + 1) % pcx.qsize) h.write
          ∙ mod-add-mod (pcx.rqpos + pcx.qcount) pcx.qsize 1
          ∙ ap (λ x. x % pcx.qsize) (omega arith);
      count = omega (arith, h.count, length-append q (c ∷ []));
      fits = omega (arith, free);
      entry =
          λ k lt. stored k (omega (arith, lt, length-append q (c ∷ []))) (ℕ_discrete k (length q));
    },
    refl,
    refl,
    refl,
  )
    where
      place : pcx.wqpos < length pcx.squeue
      place = omega (
        arith,
        h.write,
        h.size,
        mod-lt (pcx.rqpos + pcx.qcount) {m = pcx.qsize} (omega (arith, h.read)),
      )

      here : pcx.wqpos ≡ (pcx.rqpos + length q) % pcx.qsize
      here = h.write ∙ ap (λ n. (pcx.rqpos + n) % pcx.qsize) h.count

      stored :
          (k : ℕ)
          → k ≤ length q
          → Dec (k ≡ length q)
          → get_elem? (set pcx.squeue pcx.wqpos c) ((pcx.rqpos + k) % pcx.qsize)
            ≡ get_elem? (q ++ (c ∷ [])) k
      stored k le (yes last) =
          ap (get_elem? (set pcx.squeue pcx.wqpos c))
            (ap (λ n. (pcx.rqpos + n) % pcx.qsize) last ∙ sym here)
          ∙ get_elem?-set_self pcx.squeue pcx.wqpos c place
          ∙ sym (get_elem?-snoc_self q c k last)
      stored k le (no before) =
          get_elem?-set_ne pcx.squeue c (λ e.
            apart pcx.qsize pcx.rqpos k (length q) h.read (omega arith)
              (omega (arith, h.count, free)) (sym here ∙ e))
          ∙ h.entry k (omega arith)
          ∙ sym (get_elem?-snoc_ne q c k (omega arith))
