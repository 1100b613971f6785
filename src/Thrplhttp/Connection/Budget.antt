-- ===== src/Thrplhttp/Connection/Budget.antt =====
-- Runs that do not run out of rounds, and keep a bound on what a connection can still read.
use trivia.Prelude.{
  ℕ, ◌+◌, ◌<◌, ◌≤◌, ◌≡◌, refl, Bool, true, false, ◌&&◌, Option, none, some, List, ◌++◌, length,
  if◌then◌else◌,
}
use trivia.Thrplhttp.Stream.{Sent, bstream_write}
use trivia.Thrplhttp.Connection.{
  Connection, Run, returns, waits, faults, exits, unfinished, Action, pure, and_then, ◌>>=◌,
  written, send_bytes, bstream_printf,
}

-- `Within n c`: at most `n` is to be read from the connection. It is no matter of what is sent or counted.
pub record Budget : Type 1 where
  pub Within : ℕ → Connection → Type 0
  pub weaken : (m n : ℕ) (c : Connection) → m ≤ n → Within m c → Within n c
  pub stable :
      (n : ℕ) (c : Connection) (results : List Sent) (wire : List ℕ) (tbytes reqs : ℕ)
      → Within n c
      → Within n (record c { results = results; wire = wire; tbytes = tbytes; reqs = reqs })

module _ (b : Budget) where
  -- The rounds suffice, and at most `n` is left.
  abbrev pub Below : {A : Type 0} → ℕ → Run A → Type 0
  Below n (returns a c) = b.Within n c
  Below n waits = Unit
  Below n faults = Unit
  Below n (exits c) = Unit
  Below n unfinished = ⊥

  -- Nothing is read.
  abbrev pub Quiet : {A : Type 0} → Action A → Type 0
  Quiet m = (n : ℕ) (c : Connection) → b.Within n c → Below n (m c)

  -- Less is left behind a line.
  abbrev pub Takes : ℕ → Run (Option (List ℕ)) → Type 0
  Takes n (returns none c) = b.Within n c
  Takes n (returns (some ln) c) = (m : ℕ) × (m < n) × b.Within m c
  Takes n waits = Unit
  Takes n faults = Unit
  Takes n (exits c) = Unit
  Takes n unfinished = ⊥

module _ (b : Budget) {A : Type 0} where
  pub Below-weaken : (m n : ℕ) (r : Run A) → m ≤ n → Below b m r → Below b n r
  Below-weaken m n (returns a c) h w = b.weaken m n c h w
  Below-weaken m n waits h w = tt
  Below-weaken m n faults h w = tt
  Below-weaken m n (exits c) h w = tt
  Below-weaken m n unfinished h w = w

  pub Below-if :
      (n : ℕ) (t : Bool) (r s : Run A) → Below b n r → Below b n s → Below b n (if t then r else s)
  Below-if n true r s w w' = w
  Below-if n false r s w w' = w'

  pub Quiet-pure : (a : A) → Quiet b (pure a)
  Quiet-pure a n c w = w

  pub Quiet-if : (t : Bool) (m k : Action A) → Quiet b m → Quiet b k → Quiet b (if t then m else k)
  Quiet-if true m k q q' = q
  Quiet-if false m k q q' = q'

  pub Below-choice :
      (n : ℕ) (t : Bool) (m k : Action A) (c : Connection)
      → Below b n (m c)
      → Below b n (k c)
      → Below b n ((if t then m else k) c)
  Below-choice n true m k c w w' = w
  Below-choice n false m k c w w' = w'

  pub Quiet-never : (t : Bool) (m k : Action A) → Quiet b k → Quiet b (if t && false then m else k)
  Quiet-never true m k q = q
  Quiet-never false m k q = q

  pub Below-line :
      (n : ℕ) (r : Run (Option (List ℕ))) (f : Option (List ℕ) → Action A)
      → Takes b n r
      → ((c : Connection) → b.Within n c → Below b n (f none c))
      → ((ln : List ℕ) (c : Connection) (m : ℕ) → m < n → b.Within m c → Below b n (f (some ln) c))
      → Below b n (and_then r f)
  Below-line n (returns none c) f t at_end at_line = at_end c t
  Below-line n (returns (some ln) c) f (m, less, w) at_end at_line = at_line ln c m less w
  Below-line n waits f t at_end at_line = tt
  Below-line n faults f t at_end at_line = tt
  Below-line n (exits c) f t at_end at_line = tt
  Below-line n unfinished f t at_end at_line = t

pub Quiet-exits : (b : Budget) (A : Type 0) → Quiet b {A = A} (λ c. exits c)
Quiet-exits b A n c w = tt

module _ (b : Budget) {A B : Type 0} where
  pub Below-and_then :
      (n : ℕ) (r : Run A) (f : A → Action B)
      → Below b n r
      → ((a : A) (c : Connection) → b.Within n c → Below b n (f a c))
      → Below b n (and_then r f)
  Below-and_then n (returns a c) f w k = k a c w
  Below-and_then n waits f w k = tt
  Below-and_then n faults f w k = tt
  Below-and_then n (exits c) f w k = tt
  Below-and_then n unfinished f w k = w

  pub Quiet-bind :
      (m : Action A) (f : A → Action B) → Quiet b m → ((a : A) → Quiet b (f a)) → Quiet b (m >>= f)
  Quiet-bind m f q k n c w = Below-and_then n (m c) f (q n c w) (λ a c' w'. k a n c' w')

module _ (b : Budget) where
  written-Below :
      (n : ℕ) (c : Connection) (o : Option (ℕ × List ℕ × List Sent))
      → b.Within n c
      → Below b n (written c o)
  written-Below n c none w = tt
  written-Below n c (some (k, out, left)) w = b.stable n c left (c.wire ++ out) c.tbytes c.reqs w

  pub Quiet-send_bytes : (bytes : List ℕ) → Quiet b (send_bytes bytes)
  Quiet-send_bytes bytes n c w = written-Below n c (bstream_write c.results bytes) w

  pub Quiet-bstream_printf :
      (malloc : ℕ → Bool) (text : List ℕ) → Quiet b (bstream_printf malloc text)
  Quiet-bstream_printf malloc text n c w =
      Below-if b n (malloc (length text + 1)) (send_bytes text c) (exits c)
        (Quiet-send_bytes text n c w) tt

pub and_then_assoc :
    {A B C : Type 0} (r : Run A) (f : A → Action B) (g : B → Action C)
    → and_then (and_then r f) g ≡ and_then r (λ a c. and_then (f a c) g)
and_then_assoc (returns a c) f g = refl
and_then_assoc waits f g = refl
and_then_assoc faults f g = refl
and_then_assoc (exits c) f g = refl
and_then_assoc unfinished f g = refl
