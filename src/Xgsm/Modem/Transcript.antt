-- ===== src/Xgsm/Modem/Transcript.antt =====
-- What the operations of the dialogue try to write, whatever the modem answers.
use trivia.Prelude.{
  ℕ, ◌+◌, ◌≡◌, ◌≢◌, refl, sym, ap, ◌∙◌, Bool, true, false, Option, none, some, List, [], ◌∷◌, ◌++◌,
  length, append_assoc, append-nil, if◌then◌else◌,
}
use trivia.Xgsm.Modem.Line.{
  Line, Action, Written, failed, not_ready, wrote, pure, ◌>>=◌, xgsm_write, weight,
}
use trivia.Xgsm.Modem.Reply.{
  Response, waits, response, resp_loop, finish, xgsm_readresp, xgsm_want_reply, Wanted, matches,
  ended, differs,
}
use trivia.Xgsm.Modem.Send.{all_written, xgsm_sendcmd, send_data, prompt, when_wanted, after_prompt}

-- Whenever the operation returns, what it tried to write satisfies `P` with the line as it was before.
abbrev pub SendsFrom : {A : Type 0} → Action A → (Line → List (List ℕ) → Type 0) → Type 0
SendsFrom {A} m P =
    (l l' : Line) (a : A)
    → m l ≡ some (a, l')
    → (xs : List (List ℕ)) × P l xs × (l'.sent ≡ l.sent ++ xs)

-- What it tried to write, whatever the line.
abbrev pub SendsAll : {A : Type 0} → Action A → List (List ℕ) → Type 0
SendsAll {A} m ys = (l l' : Line) (a : A) → m l ≡ some (a, l') → l'.sent ≡ l.sent ++ ys

module _ {A B : Type 0} (m : Action A) (f : A → Action B) where
  -- A sequence that returns, taken apart.
  pub returned :
      (l l' : Line) (b : B)
      → (m >>= f) l ≡ some (b, l')
      → (a : A) × (l1 : Line) × (m l ≡ some (a, l1)) × (f a l1 ≡ some (b, l'))
  returned l l' b e = parts (m l) refl e
    where
      parts :
          (o : Option (A × Line))
          → m l ≡ o
          → elim o as (λ _. Option (B × Line)) [ none ↦ none | some (a, l1) ↦ f a l1 ]
            ≡ some (b, l')
          → (a : A) × (l1 : Line) × (m l ≡ some (a, l1)) × (f a l1 ≡ some (b, l'))
      parts none e h = cc
      parts (some (a, l1)) e h = (a, l1, e, h)

  pub SendsAll-bind :
      (xs ys : List (List ℕ))
      → SendsAll m xs
      → ((a : A) → SendsAll (f a) ys)
      → SendsAll (m >>= f) (xs ++ ys)
  SendsAll-bind xs ys h k l l' b e =
      let (a, l1, e1, e2) = returned l l' b e in
      k a l1 l' b e2 ∙ ap (λ s. s ++ ys) (h l l1 a e1) ∙ append_assoc l.sent xs ys

pub some_pair :
    {A : Type 0} {a b : A} {l l' : Line}
    → ◌≡◌ {A = Option (A × Line)} (some (a, l)) (some (b, l'))
    → l ≡ l'
some_pair e = cc

pub same_sent : {l l' : Line} → l ≡ l' → l'.sent ≡ l.sent ++ []
same_sent {l} e = ap (λ x. x.sent) (sym e) ∙ sym (append-nil l.sent)

pub SendsAll-pure : {A : Type 0} (a : A) → SendsAll (pure a) []
SendsAll-pure a l l' b e = same_sent (some_pair e)

pub SendsAll-if :
    {A : Type 0} {m n : Action A} (b : Bool) (xs : List (List ℕ))
    → SendsAll m xs
    → SendsAll n xs
    → SendsAll (if b then m else n) xs
SendsAll-if true xs h k = h
SendsAll-if false xs h k = k

pub xgsm_write-SendsAll : (bytes : List ℕ) → SendsAll (xgsm_write bytes) (bytes ∷ [])
xgsm_write-SendsAll bytes l l' a e = written l.writes e
  where
    written :
        (ws : List Written)
        → xgsm_write bytes (record l { writes = ws }) ≡ some (a, l')
        → l'.sent ≡ l.sent ++ (bytes ∷ [])
    written [] e = cc
    written (failed ∷ ws) e = ap (λ x. x.sent) (sym (some_pair e))
    written (not_ready ∷ ws) e = ap (λ x. x.sent) (sym (some_pair e))
    written (wrote count ∷ ws) e = ap (λ x. x.sent) (sym (some_pair e))

-- Behind the command that announces a message: the text is sent exactly if the prompt comes.
pub data Later (text : List ℕ) (l : Line) : List (List ℕ) → Type 0 where
  no_prompt :
      {w : Wanted} {l1 : Line}
      → xgsm_want_reply prompt l ≡ some (w, l1)
      → w ≢ matches
      → Later text l []
  prompted :
      {l1 : Line}
      → xgsm_want_reply prompt l ≡ some (matches, l1)
      → Later text l ((text ++ (26 ∷ [])) ∷ [])

module _ (malloc realloc : ℕ → Bool) where
  finish-SendsAll : (r : Response) → SendsAll (finish realloc r) []
  finish-SendsAll waits l l' a e = cc
  finish-SendsAll (Response.null rest) l l' a e = same_sent (some_pair e)
  finish-SendsAll (response resp size rest) l l' a e = same_sent (some_pair e)

  readresp-SendsAll : SendsAll (xgsm_readresp realloc malloc) []
  readresp-SendsAll l l' a e = allocated (malloc 128) e
    where
      r : Response
      r = resp_loop realloc (weight l.answers + 1) [] 128 l.answers

      allocated :
          (b : Bool)
          → (if b then finish realloc r l else some (none, l)) ≡ some (a, l')
          → l'.sent ≡ l.sent ++ []
      allocated true e = finish-SendsAll r l l' a e
      allocated false e = same_sent (some_pair e)

  pub sendcmd-SendsAll : (cmd : List ℕ) → SendsAll (xgsm_sendcmd malloc realloc cmd) (cmd ∷ [])
  sendcmd-SendsAll cmd =
      SendsAll-bind (xgsm_write cmd) _ (cmd ∷ []) [] (xgsm_write-SendsAll cmd) (λ count.
        SendsAll-if (all_written (length cmd) count) [] readresp-SendsAll (SendsAll-pure none))

  send_data-SendsAll :
      (text : List ℕ)
      → malloc (length text + 2) ≡ true
      → SendsAll (send_data malloc realloc text) ((text ++ (26 ∷ [])) ∷ [])
  send_data-SendsAll text room = rw room (
      SendsAll-bind (xgsm_write (text ++ (26 ∷ []))) _ ((text ++ (26 ∷ [])) ∷ []) []
        (xgsm_write-SendsAll (text ++ (26 ∷ [])))
        (λ count.
          SendsAll-if (all_written (length text + 1) count) [] readresp-SendsAll
            (SendsAll-pure none)))

  want_reply-SendsAll : (reply : List ℕ) → SendsAll (xgsm_want_reply reply) []
  want_reply-SendsAll reply l l' a e = same_sent_as (some_pair e)
    where
      same_sent_as : {k : Line} → k ≡ l' → l'.sent ≡ k.sent ++ []
      same_sent_as q = same_sent q

  pub after_prompt-Later :
      (text : List ℕ)
      → malloc (length text + 2) ≡ true
      → SendsFrom (after_prompt malloc realloc text) (Later text)
  after_prompt-Later text room l l' a e =
      let (w, l1, e1, e2) =
        returned (xgsm_want_reply prompt) (λ w. when_wanted w (send_data malloc realloc text)) l l'
          a e in
      wanted w l1 e1 e2
    where
      wanted :
          (w : Wanted) (l1 : Line)
          → xgsm_want_reply prompt l ≡ some (w, l1)
          → when_wanted w (send_data malloc realloc text) l1 ≡ some (a, l')
          → (xs : List (List ℕ)) × Later text l xs × (l'.sent ≡ l.sent ++ xs)
      wanted matches l1 e1 e2 = (
        (text ++ (26 ∷ [])) ∷ [],
        prompted e1,
        send_data-SendsAll text room l1 l' a e2
            ∙ ap (λ s. s ++ ((text ++ (26 ∷ [])) ∷ []))
                (want_reply-SendsAll prompt l l1 matches e1 ∙ append-nil l.sent),
      )
      wanted ended l1 e1 e2 = (
        [],
        no_prompt e1 (λ q. cc),
        ap (λ k. k.sent) (sym (some_pair e2)) ∙ want_reply-SendsAll prompt l l1 ended e1,
      )
      wanted differs l1 e1 e2 = (
        [],
        no_prompt e1 (λ q. cc),
        ap (λ k. k.sent) (sym (some_pair e2)) ∙ want_reply-SendsAll prompt l l1 differs e1,
      )
