-- ===== src/Xgsm/Modem/Dialogue.antt =====
-- All that main tries to write to the modem, whatever the modem answers.
use trivia.Prelude.{
  ℕ, ◌+◌, ◌≡◌, refl, sym, ap, ap₂, ◌∙◌, Bool, true, false, Option, none, some, List, [], ◌∷◌, ◌++◌,
  map, length, append-nil, append_assoc, if◌then◌else◌,
}
use trivia.Prelude.Text.{ascii}
use trivia.Xgsm.Pdu.{Outcome, fault, made, create_hex_pdu}
use trivia.Xgsm.Modem.Line.{Line, Action, pure, ◌>>=◌, ◌>>◌, xgsm_write, xgsm_flushin}
use trivia.Xgsm.Modem.Send.{
  line_of, all_written, xgsm_sendcmd, xgsm_vsendcmd, announce, after_prompt, text_command,
  pdu_command, send_pdu, xgsm_send_sms, xgsm_send_txt_sms,
}
use trivia.Xgsm.Modem.Main.{
  Options, setup_commands, query_commands, positive, mode_command, delete_command, command,
  vcommand, commands, queries, send_message, list_all, delete_one, before_message, after_message,
  dialogue,
}
use trivia.Xgsm.Modem.Transcript.{
  SendsFrom, SendsAll, SendsAll-bind, returned, SendsAll-pure, xgsm_write-SendsAll,
  sendcmd-SendsAll, Later, after_prompt-Later, some_pair, same_sent,
}

-- What is sent of a message: the command, and if all of it was written and the prompt came behind it, the
-- text with its end.
pub data Announced (cmd text : List ℕ) (l : Line) : List (List ℕ) → Type 0 where
  cut_off :
      {count : Option ℕ} {l1 : Line}
      → xgsm_write cmd l ≡ some (count, l1)
      → all_written (length cmd) count ≡ false
      → Announced cmd text l (cmd ∷ [])
  command_whole :
      {count : Option ℕ} {l1 : Line} {xs : List (List ℕ)}
      → xgsm_write cmd l ≡ some (count, l1)
      → all_written (length cmd) count ≡ true
      → Later text l1 xs
      → Announced cmd text l (cmd ∷ xs)

-- In text mode, behind AT+CSMP, and as a PDU.
pub data MessageSent (malloc realloc : ℕ → Bool) (nbr : List ℕ) (scnbr : Option (List ℕ))
    (msg : List ℕ) (l : Line) : Bool → List (List ℕ) → Type 0 where
  as_text :
      {l1 : Line} {xs : List (List ℕ)}
      → command malloc realloc (line_of (ascii "AT+CSMP=17,169,0,0")) l ≡ some (tt, l1)
      → Announced (text_command nbr) msg l1 xs
      → MessageSent malloc realloc nbr scnbr msg l true (line_of (ascii "AT+CSMP=17,169,0,0") ∷ xs)
  as_pdu :
      {xs : List (List ℕ)} {hpdu : List ℕ}
      → create_hex_pdu malloc nbr scnbr msg ≡ made hpdu
      → Announced (pdu_command hpdu) hpdu l xs
      → MessageSent malloc realloc nbr scnbr msg l false xs
  no_pdu :
      create_hex_pdu malloc nbr scnbr msg ≡ Outcome.null
      → MessageSent malloc realloc nbr scnbr msg l false []

-- The commands before and behind the message.
abbrev pub commands_before : Options → List (List ℕ)
commands_before o =
    map line_of setup_commands
    ++ (if o.verbosely then map line_of query_commands ++ (line_of (ascii "AT&V") ∷ []) else [])
    ++ (line_of (ascii "AT^SM20=0,0") ∷ mode_command o.txt ∷ [])

abbrev pub deletion : Option ℕ → List (List ℕ)
deletion none = []
deletion (some index) = delete_command index ∷ []

abbrev pub commands_after : Options → List (List ℕ)
commands_after o =
    (line_of (ascii "AT+CEER") ∷ [])
    ++ (if o.mlist then line_of (ascii "AT+CMGL=\"ALL\"") ∷ [] else [])
    ++ deletion (positive o.mdel)

module _ (malloc realloc : ℕ → Bool) (room : (n : ℕ) → malloc n ≡ true) where
  announce-Announced :
      (cmd text : List ℕ) → SendsFrom (announce malloc realloc cmd text) (Announced cmd text)
  announce-Announced cmd text l l' a e =
      let (count, l1, e1, e2) = returned (xgsm_write cmd) next l l' a begun in
      written count l1 (all_written (length cmd) count) refl e1 e2
    where
      next : Option ℕ → Action (Option (List ℕ))
      next count =
          if all_written (length cmd) count then after_prompt malloc realloc text else pure none

      begun : (xgsm_write cmd >>= next) l ≡ some (a, l')
      begun =
          ap (λ t. (if t then xgsm_write cmd >>= next else pure none) l)
            (sym (room (length cmd + 1)))
          ∙ e

      written :
          (count : Option ℕ) (l1 : Line) (t : Bool)
          → all_written (length cmd) count ≡ t
          → xgsm_write cmd l ≡ some (count, l1)
          → (if t then after_prompt malloc realloc text else pure none) l1 ≡ some (a, l')
          → (xs : List (List ℕ)) × Announced cmd text l xs × (l'.sent ≡ l.sent ++ xs)
      written count l1 true q e1 e2 =
          let (xs, p, s) =
            after_prompt-Later malloc realloc text (room (length text + 2)) l1 l' a e2 in
          (
            cmd ∷ xs,
            command_whole e1 q p,
            s
                ∙ ap (λ k. k ++ xs) (xgsm_write-SendsAll cmd l l1 count e1)
                ∙ append_assoc l.sent (cmd ∷ []) xs,
          )
      written count l1 false q e1 e2 = (
        cmd ∷ [],
        cut_off e1 q,
        ap (λ k. k.sent) (sym (some_pair e2)) ∙ xgsm_write-SendsAll cmd l l1 count e1,
      )

  command-SendsAll : (cmd : List ℕ) → SendsAll (command malloc realloc cmd) (cmd ∷ [])
  command-SendsAll cmd =
      SendsAll-bind (xgsm_sendcmd malloc realloc cmd) _ (cmd ∷ []) []
        (sendcmd-SendsAll malloc realloc cmd) (λ a. SendsAll-pure tt)

  vcommand-SendsAll : (cmd : List ℕ) → SendsAll (vcommand malloc realloc cmd) (cmd ∷ [])
  vcommand-SendsAll cmd =
      SendsAll-bind (xgsm_vsendcmd malloc realloc cmd) _ (cmd ∷ []) []
        (rw (room (length cmd + 1)) (sendcmd-SendsAll malloc realloc cmd)) (λ a. SendsAll-pure tt)

  commands-SendsAll : (cs : List (List ℕ)) → SendsAll (commands malloc realloc cs) (map line_of cs)
  commands-SendsAll [] = SendsAll-pure tt
  commands-SendsAll (c ∷ cs) =
      SendsAll-bind (command malloc realloc (line_of c)) _ (line_of c ∷ []) (map line_of cs)
        (command-SendsAll (line_of c)) (λ a. commands-SendsAll cs)

  queries-SendsAll :
      (v : Bool)
      → SendsAll
          (queries malloc realloc v)
          (if v then map line_of query_commands ++ (line_of (ascii "AT&V") ∷ []) else [])
  queries-SendsAll false = SendsAll-pure tt
  queries-SendsAll true =
      SendsAll-bind (commands malloc realloc query_commands) _ (map line_of query_commands) _
        (commands-SendsAll query_commands) (λ a. vcommand-SendsAll (line_of (ascii "AT&V")))

  before-SendsAll : (o : Options) → SendsAll (before_message malloc realloc o) (commands_before o)
  before-SendsAll o =
      SendsAll-bind xgsm_flushin _ [] (commands_before o) (λ l l' a e. same_sent (some_pair e))
        (λ _.
          SendsAll-bind (commands malloc realloc setup_commands) _ (map line_of setup_commands) _
            (commands-SendsAll setup_commands)
            (λ _.
              SendsAll-bind (queries malloc realloc o.verbosely) _ _ _
                (queries-SendsAll o.verbosely)
                (λ _.
                  SendsAll-bind (command malloc realloc (line_of (ascii "AT^SM20=0,0"))) _
                    (line_of (ascii "AT^SM20=0,0") ∷ []) _
                    (command-SendsAll (line_of (ascii "AT^SM20=0,0")))
                    (λ _. vcommand-SendsAll (mode_command o.txt)))))

  list_all-SendsAll :
      (b : Bool)
      → SendsAll
          (list_all malloc realloc b)
          (if b then line_of (ascii "AT+CMGL=\"ALL\"") ∷ [] else [])
  list_all-SendsAll true = command-SendsAll (line_of (ascii "AT+CMGL=\"ALL\""))
  list_all-SendsAll false = SendsAll-pure tt

  delete_one-SendsAll : (d : Option ℕ) → SendsAll (delete_one malloc realloc d) (deletion d)
  delete_one-SendsAll none = SendsAll-pure tt
  delete_one-SendsAll (some index) = vcommand-SendsAll (delete_command index)

  after-SendsAll : (o : Options) → SendsAll (after_message malloc realloc o) (commands_after o)
  after-SendsAll o =
      SendsAll-bind (command malloc realloc (line_of (ascii "AT+CEER"))) _
        (line_of (ascii "AT+CEER") ∷ []) _ (command-SendsAll (line_of (ascii "AT+CEER")))
        (λ _.
          SendsAll-bind (list_all malloc realloc o.mlist) _ _ _ (list_all-SendsAll o.mlist)
            (λ _. delete_one-SendsAll (positive o.mdel)))

  -- An operation whose result is dropped.
  dropped :
      {A : Type 0} (m : Action A) (P : Line → List (List ℕ) → Type 0)
      → SendsFrom m P
      → SendsFrom (m >> pure tt) P
  dropped m P h l l' a e =
      let (b, l1, e1, e2) = returned m (λ _. pure tt) l l' a e in
      let (xs, p, s) = h l l1 b e1 in (xs, p, ap (λ k. k.sent) (sym (some_pair e2)) ∙ s)

  module _ (nbr : List ℕ) (scnbr : Option (List ℕ)) (msg : List ℕ) where
    abbrev Sent : Bool → Line → List (List ℕ) → Type 0
    Sent txt l = MessageSent malloc realloc nbr scnbr msg l txt

    send_pdu-Sent :
        (p : Outcome)
        → create_hex_pdu malloc nbr scnbr msg ≡ p
        → SendsFrom (send_pdu malloc realloc p) (Sent false)
    send_pdu-Sent Outcome.null e l l' a h = ([], no_pdu e, same_sent (some_pair h))
    send_pdu-Sent fault e l l' a h = cc
    send_pdu-Sent (made hpdu) e l l' a h =
        let (xs, p, s) = announce-Announced (pdu_command hpdu) hpdu l l' a h in (xs, as_pdu e p, s)

    send_message-Sent :
        (txt : Bool) → SendsFrom (send_message malloc realloc txt nbr scnbr msg) (Sent txt)
    send_message-Sent true l l' a e =
        let (u, l1, e1, e2) =
          returned (command malloc realloc csmp) (λ _. text >> pure tt) l l' a e in
        let (xs, p, s) =
          dropped text (Announced (text_command nbr) msg)
            (announce-Announced (text_command nbr) msg) l1 l' a e2 in
        (
          csmp ∷ xs,
          as_text e1 p,
          s
              ∙ ap (λ k. k ++ xs) (command-SendsAll csmp l l1 tt e1)
              ∙ append_assoc l.sent (csmp ∷ []) xs,
        )
      where
        csmp : List ℕ
        csmp = line_of (ascii "AT+CSMP=17,169,0,0")

        text : Action (Option (List ℕ))
        text = xgsm_send_txt_sms malloc realloc nbr msg
    send_message-Sent false l l' a e =
        dropped (xgsm_send_sms malloc realloc nbr scnbr msg) (Sent false)
          (send_pdu-Sent (create_hex_pdu malloc nbr scnbr msg) refl) l l' a e

  -- With memory enough, when the dialogue ends, whatever the modem has answered, the program has tried
  -- to write exactly the commands before the message, then of the message what `MessageSent` says of
  -- the line at that point, and the commands behind it, each once and in order. Of the message these are: in
  -- text mode AT+CSMP; the command that announces it, unless there is no PDU; and the text or the PDU
  -- with its end, exactly if all of that command was written and the modem sent the prompt.
  pub dialogue-MessageSent :
      (o : Options) (msg nbr : List ℕ) (l l' : Line) (code : ℕ)
      → dialogue malloc realloc o msg nbr l ≡ some (code, l')
      → (sms : List (List ℕ)) × (at_message : Line) × (before_message malloc realloc o l
          ≡ some (tt, at_message))
        × MessageSent malloc realloc nbr o.scnbr msg at_message o.txt sms
        × (l'.sent ≡ l.sent ++ (commands_before o ++ (sms ++ commands_after o)))
  unfolding dialogue
  dialogue-MessageSent o msg nbr l l' code e =
      let (u, l1, e1, r1) =
        returned (before_message malloc realloc o)
          (λ _. message >> (after_message malloc realloc o >> pure 0)) l l' code e in
      let (u', l2, e2, r2) =
        returned message (λ _. after_message malloc realloc o >> pure 0) l1 l' code r1 in
      let (sms, p, s) = send_message-Sent nbr o.scnbr msg o.txt l1 l2 tt e2 in
      let tail : l'.sent ≡ l2.sent ++ (commands_after o ++ []) =
        SendsAll-bind (after_message malloc realloc o) _ (commands_after o) [] (after-SendsAll o)
          (λ _. SendsAll-pure 0) l2 l' code r2 in
      (
        sms,
        l1,
        e1,
        p,
        tail
            ∙ ap₂ (λ x y. x ++ y) s (append-nil (commands_after o))
            ∙ ap (λ x. (x ++ sms) ++ commands_after o) (before-SendsAll o l l1 tt e1)
            ∙ append_assoc (l.sent ++ commands_before o) sms (commands_after o)
            ∙ append_assoc l.sent (commands_before o) (sms ++ commands_after o),
      )
    where
      message : Action (Unit {0})
      message = send_message malloc realloc o.txt nbr o.scnbr msg
