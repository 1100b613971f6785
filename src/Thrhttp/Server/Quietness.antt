-- ===== src/Thrhttp/Server/Quietness.antt =====
-- The responses of thrhttp.c read nothing.
use trivia.Prelude.{ℕ, ◌+◌, Bool, false, Option, none, some, List, length, ◌^◌, ◌-◌, ◌==◌}
use trivia.Prelude.Int.{ℤ, pos}
use trivia.Thrplhttp.Connection.{returns, Action, pure, ◌>>=◌, send_bytes}
use trivia.Thrplhttp.Connection.Budget.{
  Budget, Quiet, Below-if, Quiet-pure, Quiet-if, Quiet-bind, Quiet-send_bytes,
}
use trivia.Thrplhttp.Http.{
  Host, TxMode, tx_sendfile, tx_mmap, doc_path, counted, add_bytes, mem_bytes, sent_all, ok_text,
  not_found_text,
}
use trivia.Thrplhttp.Http.Quietness.{
  Quiet-add_bytes, Quiet-counted, Quiet-mem_bytes, Quiet-sendfile_sent,
}
use trivia.Thrhttp.Stream.{bstream_printf}
use trivia.Thrhttp.Server.{internal_error_text, send_file, send_found, send_doc, send_mem}

module _ (b : Budget) where
  pub Quiet-bstream_printf :
      (malloc : ℕ → Bool) (text : List ℕ) → Quiet b (bstream_printf malloc text)
  Quiet-bstream_printf malloc text n c w =
      Below-if b n (malloc (length text + 1)) (send_bytes text c) (returns (2 ^ 64 - 1) c)
        (Quiet-send_bytes b text n c w) w

  -- A text, and then `m`.
  pub Quiet-printed :
      {A : Type 0} (malloc : ℕ → Bool) (text : List ℕ) (m : Action A)
      → Quiet b m
      → Quiet b (bstream_printf malloc text >>= λ _. m)
  Quiet-printed malloc text m q =
      Quiet-bind b (bstream_printf malloc text) (λ _. m) (Quiet-bstream_printf malloc text) (λ _. q)

  Quiet-send_file :
      (h : Host) (mode : TxMode) (path contents : List ℕ) → Quiet b (send_file h mode path contents)
  Quiet-send_file h tx_sendfile path contents = Quiet-sendfile_sent b contents (h.sendfile path)
  Quiet-send_file h tx_mmap path contents =
      Quiet-if b (h.mmaps (length contents))
        (send_bytes contents >>= λ txcnt. pure (txcnt == length contents)) (pure false)
        (Quiet-bind b (send_bytes contents) (λ txcnt. pure (txcnt == length contents))
          (Quiet-send_bytes b contents) (λ n. Quiet-pure b (n == length contents)))
        (Quiet-pure b false)

  module _ (h : Host) (ver cclose : List ℕ) where
    Quiet-send_found :
        (path : List ℕ) (o : Option (List ℕ)) → Quiet b (send_found h path ver cclose o)
    Quiet-send_found path none =
        Quiet-printed h.malloc (not_found_text ver cclose) (pure false) (Quiet-pure b false)
    Quiet-send_found path (some contents) =
        Quiet-printed h.malloc (ok_text ver cclose (pos (length contents)))
          (send_file h h.txmode path contents >>= counted (length contents))
          (Quiet-bind b (send_file h h.txmode path contents) (counted (length contents))
            (Quiet-send_file h h.txmode path contents) (Quiet-counted b (length contents)))

    pub Quiet-send_doc : (doc : List ℕ) → Quiet b (send_doc h doc ver cclose)
    Quiet-send_doc doc =
        Quiet-if b (h.malloc (length (doc_path h doc) + 1))
          (send_found h (doc_path h doc) ver cclose (h.files (doc_path h doc)))
          (bstream_printf h.malloc (internal_error_text ver cclose) >>= λ _. pure false)
          (Quiet-send_found (doc_path h doc) (h.files (doc_path h doc)))
          (Quiet-printed h.malloc (internal_error_text ver cclose) (pure false)
            (Quiet-pure b false))

    pub Quiet-send_mem : (size : ℤ) → Quiet b (send_mem h size ver cclose)
    Quiet-send_mem size =
        Quiet-printed h.malloc (ok_text ver cclose size) (mem_bytes size >>= finish) (
          Quiet-bind b (mem_bytes size) finish (Quiet-mem_bytes b size) (λ msent.
            Quiet-bind b (add_bytes msent) (λ _. pure (sent_all size msent))
              (Quiet-add_bytes b msent) (λ _. Quiet-pure b (sent_all size msent))))
      where
        finish : ℕ → Action Bool
        finish msent = add_bytes msent >>= λ _. pure (sent_all size msent)
