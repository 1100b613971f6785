-- ===== src/Thrplhttp/Http/Quietness.antt =====
-- What only sends and counts reads nothing: the responses of thrplhttp.c.
use trivia.Prelude.{
  ℕ, zero, suc, ◌+◌, ◌-◌, Bool, true, false, Option, none, some, List, ◌++◌, length, take, min, ltb,
  ◌==◌, if◌then◌else◌,
}
use trivia.Prelude.Int.{ℤ, pos, negsuc}
use trivia.Thrplhttp.Stream.{size_t}
use trivia.Thrplhttp.Connection.{
  returns, exits, Action, pure, and_then, ◌>>=◌, send_bytes, bstream_printf,
}
use trivia.Thrplhttp.Connection.Budget.{
  Budget, Quiet, Below-if, Quiet-pure, Quiet-if, Quiet-exits, Below-and_then, Quiet-bind,
  Quiet-send_bytes, Quiet-bstream_printf,
}
use trivia.Thrplhttp.Http.{
  Host, TxMode, tx_sendfile, tx_mmap, doc_path, send_file, sendfile_sent, counted, add_bytes,
  send_found, send_doc, mbuf, mem_loop, mem_bytes, sent_all, send_mem, ok_text, not_found_text,
}

module _ (b : Budget) where
  pub Quiet-add_bytes : (n : ℕ) → Quiet b (add_bytes n)
  Quiet-add_bytes n k c w = b.stable k c c.results c.wire (size_t (c.tbytes + n)) c.reqs w

  pub Quiet-sendfile_sent : (contents : List ℕ) (o : Option ℕ) → Quiet b (sendfile_sent contents o)
  Quiet-sendfile_sent contents none n c w = w
  Quiet-sendfile_sent contents (some k) n c w =
      b.stable n c c.results (c.wire ++ take k contents) c.tbytes c.reqs w

  pub Quiet-send_file :
      (h : Host) (mode : TxMode) (path contents : List ℕ) → Quiet b (send_file h mode path contents)
  Quiet-send_file h tx_sendfile path contents = Quiet-sendfile_sent contents (h.sendfile path)
  Quiet-send_file h tx_mmap path contents =
      Quiet-if b (h.mmaps (length contents))
        (send_bytes contents >>= λ txcnt. pure (txcnt == length contents)) (λ c. exits c)
        (Quiet-bind b (send_bytes contents) (λ txcnt. pure (txcnt == length contents))
          (Quiet-send_bytes b contents) (λ n. Quiet-pure b (n == length contents)))
        (Quiet-exits b Bool)

  pub Quiet-counted : (n : ℕ) (done : Bool) → Quiet b (counted n done)
  Quiet-counted n false = Quiet-pure b false
  Quiet-counted n true =
      Quiet-bind b (add_bytes n) (λ _. pure true) (Quiet-add_bytes n) (λ _. Quiet-pure b true)

  Quiet-block :
      (k msent : ℕ) (again : ℕ → Action ℕ)
      → ((m : ℕ) → Quiet b (again m))
      → (n : ℕ) → Quiet b (if n == k then again (msent + n) else pure (size_t (msent + n)))
  Quiet-block k msent again q n =
      Quiet-if b (n == k) (again (msent + n)) (pure (size_t (msent + n))) (q (msent + n))
        (Quiet-pure b (size_t (msent + n)))

  pub Quiet-mem_loop : (left size msent : ℕ) → Quiet b (mem_loop left size msent)
  unfolding mem_loop
  Quiet-mem_loop zero size msent n c w = w
  Quiet-mem_loop (suc left) size msent n c w =
      Below-if b n (ltb msent size) (and_then (send_bytes (mbuf k) c) next) (returns msent c)
        (Below-and_then b n (send_bytes (mbuf k) c) next (Quiet-send_bytes b (mbuf k) n c w)
          (λ m c'.
            Quiet-block k msent (mem_loop left size) (λ m'. Quiet-mem_loop left size m') m n c'))
        w
    where
      k : ℕ
      k = min 8192 (size - msent)

      next : ℕ → Action ℕ
      next n = if n == k then mem_loop left size (msent + n) else pure (size_t (msent + n))

  pub Quiet-mem_bytes : (size : ℤ) → Quiet b (mem_bytes size)
  Quiet-mem_bytes (pos n) = Quiet-mem_loop n n 0
  Quiet-mem_bytes (negsuc n) = Quiet-pure b {A = ℕ} 0

  module _ (h : Host) (ver cclose : List ℕ) where
    Quiet-send_found :
        (path : List ℕ) (o : Option (List ℕ)) → Quiet b (send_found h path ver cclose o)
    Quiet-send_found path none =
        Quiet-bind b (bstream_printf h.malloc (not_found_text ver cclose)) (λ _. pure false)
          (Quiet-bstream_printf b h.malloc (not_found_text ver cclose)) (λ _. Quiet-pure b false)
    Quiet-send_found path (some contents) =
        Quiet-bind b (bstream_printf h.malloc header) (λ _. file)
          (Quiet-bstream_printf b h.malloc header)
          (λ _.
            Quiet-bind b (send_file h h.txmode path contents) (counted (length contents))
              (Quiet-send_file h h.txmode path contents) (Quiet-counted (length contents)))
      where
        header : List ℕ
        header = ok_text ver cclose (pos (length contents))

        file : Action Bool
        file = send_file h h.txmode path contents >>= counted (length contents)

    pub Quiet-send_doc : (doc : List ℕ) → Quiet b (send_doc h doc ver cclose)
    Quiet-send_doc doc =
        Quiet-if b (h.malloc (length (doc_path h doc) + 1))
          (send_found h (doc_path h doc) ver cclose (h.files (doc_path h doc))) (λ c. exits c)
          (Quiet-send_found (doc_path h doc) (h.files (doc_path h doc))) (Quiet-exits b Bool)

    pub Quiet-send_mem : (size : ℤ) → Quiet b (send_mem h size ver cclose)
    Quiet-send_mem size =
        Quiet-bind b (bstream_printf h.malloc (ok_text ver cclose size)) (λ _. blocks)
          (Quiet-bstream_printf b h.malloc (ok_text ver cclose size))
          (λ _. Quiet-bind b (mem_bytes size) finish (Quiet-mem_bytes size) (λ msent.
            Quiet-bind b (add_bytes msent) (λ _. pure (sent_all size msent)) (Quiet-add_bytes msent)
              (λ _. Quiet-pure b (sent_all size msent))))
      where
        finish : ℕ → Action Bool
        finish msent = add_bytes msent >>= λ _. pure (sent_all size msent)

        blocks : Action Bool
        blocks = mem_bytes size >>= finish
