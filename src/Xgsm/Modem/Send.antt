-- ===== src/Xgsm/Modem/Send.antt =====
-- xgsm.c, xgsm_sendcmd, xgsm_send_sms, and xgsm_send_txt_sms: what is sent to the modem.
use trivia.Prelude.{
  ℕ, ◌+◌, ◌-◌, ◌^◌, Bool, false, Option, none, some, List, [], ◌∷◌, ◌++◌, length, ltb, ◌==◌,
  if◌then◌else◌,
}
use trivia.Prelude.Text.{ascii, decimal}
use trivia.Xgsm.Hex.{pdu_length}
use trivia.Xgsm.Pdu.{Outcome, null, fault, made, create_hex_pdu}
use trivia.Xgsm.Modem.Line.{Action, pure, ◌>>=◌, xgsm_write}
use trivia.Xgsm.Modem.Reply.{xgsm_readresp, Wanted, matches, xgsm_want_reply, crlf}

-- `%d` of an int given as its 32-bit pattern.
abbrev pub print_int : ℕ → List ℕ
print_int n = if ltb n (2 ^ 31) then decimal n else b'-' ∷ decimal (2 ^ 32 - n)

-- The command, with CMD_LF behind it.
abbrev pub line_of : List ℕ → List ℕ
line_of cmd = cmd ++ (13 ∷ [])

-- Was all of it written?
abbrev pub all_written : ℕ → Option ℕ → Bool
all_written n none = false
all_written n (some count) = count == n

abbrev pub prompt : List ℕ
prompt = crlf ++ ascii "> "

abbrev pub text_command : List ℕ → List ℕ
text_command nbr = line_of (ascii "AT+CMGS=\"" ++ nbr ++ ascii "\",145")

abbrev pub pdu_command : List ℕ → List ℕ
pdu_command hpdu = line_of (ascii "AT+CMGS=" ++ print_int (pdu_length hpdu))

abbrev pub when_wanted : Wanted → Action (Option (List ℕ)) → Action (Option (List ℕ))
when_wanted matches next = next
when_wanted _ next = pure none

module _ (malloc realloc : ℕ → Bool) where
  -- `none` is NULL. asprintf and malloc take from the same memory.
  abbrev pub xgsm_sendcmd : List ℕ → Action (Option (List ℕ))
  xgsm_sendcmd cmd = do
    count ← xgsm_write cmd
    if all_written (length cmd) count then xgsm_readresp realloc malloc else pure none

  abbrev pub xgsm_vsendcmd : List ℕ → Action (Option (List ℕ))
  xgsm_vsendcmd cmd = if malloc (length cmd + 1) then xgsm_sendcmd cmd else pure none

  -- The text behind the prompt.
  abbrev pub send_data : List ℕ → Action (Option (List ℕ))
  send_data text =
      if malloc (length text + 2)
      then (do
        count ← xgsm_write (text ++ (26 ∷ []))
        if all_written (length text + 1) count then xgsm_readresp realloc malloc else pure none)
      else pure none

  abbrev pub after_prompt : List ℕ → Action (Option (List ℕ))
  after_prompt text = do reply ← xgsm_want_reply prompt; when_wanted reply (send_data text)

  -- The command that announces the message, the wait for the prompt, and the message.
  abbrev pub announce : List ℕ → List ℕ → Action (Option (List ℕ))
  announce cmd text =
      if malloc (length cmd + 1)
      then (do
        count ← xgsm_write cmd
        if all_written (length cmd) count then after_prompt text else pure none)
      else pure none

  abbrev pub xgsm_send_txt_sms : List ℕ → List ℕ → Action (Option (List ℕ))
  xgsm_send_txt_sms nbr msg = announce (text_command nbr) msg

  -- The PDU that reads a null pointer ends the program.
  abbrev pub send_pdu : Outcome → Action (Option (List ℕ))
  send_pdu null = pure none
  send_pdu fault = λ l. none
  send_pdu (made hpdu) = announce (pdu_command hpdu) hpdu

  abbrev pub xgsm_send_sms : List ℕ → Option (List ℕ) → List ℕ → Action (Option (List ℕ))
  xgsm_send_sms nbr scnbr msg = send_pdu (create_hex_pdu malloc nbr scnbr msg)
