-- ===== src/Thrplhttp/Sessions/Passes.antt =====
-- What one pass of dequeue_client_session or queue_client_session does to the sessions of the queue.
use trivia.Prelude.{
  ℕ, ◌+◌, ◌≤◌, ◌<◌, ◌≡◌, refl, Bool, true, false, Option, none, some, List, [], ◌∷◌, ◌++◌, arith,
  ltb, dec_lt,
}
use trivia.Thrplhttp.Sessions.{
  PerCpuCtx, Pass, waits, returns, dequeue_client_session, queue_client_session,
}
use trivia.Thrplhttp.Sessions.Ring.{Holds, take_session-Holds, put_session-Holds}

pub data Dequeued (pcx : PerCpuCtx) (q : List ℕ) : Pass (Option ℕ) → Type 0 where
  sleeps : pcx.qcount ≡ 0 → Dequeued pcx q (waits pcx)
  takes :
      {c : ℕ} {rest : List ℕ} {pcx' : PerCpuCtx}
      → q ≡ c ∷ rest
      → Holds pcx' rest
      → pcx'.qsize ≡ pcx.qsize
      → pcx'.qwait ≡ pcx.qwait
      → pcx'.qcount + 1 ≡ pcx.qcount
      → Dequeued pcx q (returns (some c) (ltb 0 pcx.qwait) pcx')
  stops : pcx.qcount ≡ 0 → Dequeued pcx q (returns none false pcx)

pub dequeue_pass :
    (stop : Bool) {pcx : PerCpuCtx} (q : List ℕ)
    → Holds pcx q
    → (p : Pass (Option ℕ)) × (dequeue_client_session stop pcx ≡ some p) × Dequeued pcx q p
dequeue_pass false {pcx} [] h = (waits pcx, ground (arith, h.count), sleeps h.count)
dequeue_pass true {pcx} [] h = (returns none false pcx, ground (arith, h.count), stops h.count)
dequeue_pass stop {pcx} (c ∷ q) h =
    let (pcx', e, h', size, wait, less) = take_session-Holds h in
    (
      returns (some c) (ltb 0 pcx.qwait) pcx',
      ground (arith, e, h.count),
      takes refl h' size wait less,
    )

pub data Queued (pcx : PerCpuCtx) (q : List ℕ) (c : ℕ) : Pass Bool → Type 0 where
  sleeps : pcx.qsize ≤ pcx.qcount → Queued pcx q c (waits (record pcx { qwait = pcx.qwait + 1 }))
  puts :
      {pcx' : PerCpuCtx}
      → Holds pcx' (q ++ (c ∷ []))
      → pcx'.qsize ≡ pcx.qsize
      → pcx'.qwait ≡ pcx.qwait
      → pcx'.qcount ≡ pcx.qcount + 1
      → Queued pcx q c (returns true true pcx')
  stops : pcx.qsize ≤ pcx.qcount → Queued pcx q c (returns false false pcx)

pub queue_pass :
    (stop : Bool) {pcx : PerCpuCtx} (q : List ℕ) (c : ℕ)
    → Holds pcx q
    → (p : Pass Bool) × (queue_client_session stop pcx c ≡ some p) × Queued pcx q c p
queue_pass stop {pcx} q c h = elim (dec_lt pcx.qcount pcx.qsize) [
  | yes free ↦
      let (pcx', e, h', size, wait, more) = put_session-Holds c h free in
      (returns true true pcx', ground (arith, e), puts h' size wait more)
  | no full ↦ refused stop full
]
  where
    refused :
        (stop : Bool)
        → ¬ (pcx.qcount < pcx.qsize)
        → (p : Pass Bool) × (queue_client_session stop pcx c ≡ some p) × Queued pcx q c p
    refused false full =
        (waits (record pcx { qwait = pcx.qwait + 1 }), ground arith, sleeps (omega (arith, full)))
    refused true full = (returns false false pcx, ground arith, stops (omega (arith, full)))
