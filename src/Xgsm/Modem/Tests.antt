-- ===== src/Xgsm/Modem/Tests.antt =====
-- Runs of the dialogue with the modem, and its theorems at concrete answers.
use trivia.Prelude.{
  ℕ, ◌+◌, ◌<◌, ◌≡◌, ◌↔◌, refl, sym, ap, ◌∙◌, zero, suc, take, take-append_length, length-append,
  Bool, true, false, none, some, List, [], ◌∷◌, ◌++◌, length, arith,
}
use trivia.Prelude.Text.{ascii, toupper, same_letter}
use trivia.Xgsm.Modem.Line.{
  Answer, quiet, data_in, failed, wrote, Line, with_answers, flush, weight,
}
use trivia.Xgsm.Modem.Reply.{
  crlf, xgsm_eoc, find_sol, is_final, response, resp_loop, xgsm_readresp, xgsm_want_reply, matches,
  want_loop,
}
use trivia.Xgsm.Modem.Send.{prompt, text_command, line_of}
use trivia.Xgsm.Modem.Main.{Options, no_options, before_message, dialogue}
use trivia.Xgsm.Modem.Dialogue.{MessageSent, commands_before, commands_after, dialogue-MessageSent}
use trivia.Xgsm.Modem.Final.{Complete, xgsm_eoc-Complete}
use trivia.Xgsm.Modem.Offers.{Offers, done, piece}
use trivia.Xgsm.Modem.WantReply.{Like, nil, letter, xgsm_want_reply-Like}
use trivia.Xgsm.Modem.Exchange.{xgsm_readresp-Offers}

abbrev always : ℕ → Bool
always n = true

abbrev okay : List ℕ
okay = crlf ++ ascii "OK" ++ crlf

sees_the_end : xgsm_eoc okay ≡ true
unfolding xgsm_eoc find_sol is_final same_letter toupper
sees_the_end = refl

waits_for_the_end : xgsm_eoc (crlf ++ ascii "OK") ≡ false
unfolding xgsm_eoc find_sol is_final same_letter toupper
waits_for_the_end = refl

xgsm_eoc-Complete_example : (xgsm_eoc okay ≡ true) ↔ Complete okay
xgsm_eoc-Complete_example = xgsm_eoc-Complete okay

-- The prompt in two pieces, and the response to the message.
abbrev modem : Line
modem = record {
  answers = data_in (13 ∷ 10 ∷ []) ∷ data_in (62 ∷ 32 ∷ 13 ∷ []) ∷ [];
  writes = [];
  sent = [];
}

prompt-Like : Like prompt prompt
unfolding same_letter toupper
prompt-Like = letter refl (letter refl (letter refl (letter refl nil)))

xgsm_want_reply-Like_example :
    (line : List Answer) × (xgsm_want_reply prompt modem ≡ some (matches, with_answers modem line))
    × Offers [] line (13 ∷ [])
xgsm_want_reply-Like_example = xgsm_want_reply-Like modem prompt-Like (piece (piece done))

-- An answer in two pieces.
abbrev answering : Line
answering = record {
  answers = data_in crlf ∷ data_in (ascii "OK" ++ crlf) ∷ [];
  writes = [];
  sent = [];
}

beginnings_open : (k : ℕ) → k < 6 → xgsm_eoc (take k okay) ≡ false
unfolding xgsm_eoc find_sol is_final same_letter toupper
beginnings_open zero h = refl
beginnings_open (suc zero) h = refl
beginnings_open (suc (suc zero)) h = refl
beginnings_open (suc (suc (suc zero))) h = refl
beginnings_open (suc (suc (suc (suc zero)))) h = refl
beginnings_open (suc (suc (suc (suc (suc zero))))) h = refl
beginnings_open (suc (suc (suc (suc (suc (suc k)))))) h = absurd (omega arith)

okay_open : (u v : List ℕ) → u ++ v ≡ okay → 0 < length v → xgsm_eoc u ≡ false
okay_open u v e h =
    ap xgsm_eoc (sym (take-append_length u v) ∙ ap (take (length u)) e)
    ∙ beginnings_open (length u) (omega (arith, ap length e, length-append u v))

xgsm_readresp-Offers_example :
    (size : ℕ) × (resp_loop always (weight answering.answers + 1) [] 128 answering.answers
      ≡ response okay size [])
    × (length okay < size)
    × (xgsm_readresp always always answering
        ≡ some (some okay, with_answers answering (flush 1 [])))
xgsm_readresp-Offers_example =
    xgsm_readresp-Offers always always (λ n. refl) answering okay (λ n. refl) (piece (piece done))
      sees_the_end okay_open

-- Text mode; all commands but that of the message cannot be written.
abbrev options : Options
options = record no_options { txt = true }

abbrev talking : Line
talking = record {
  answers = quiet ∷ data_in prompt ∷ data_in okay ∷ quiet ∷ [];
  writes = failed ∷ failed ∷ failed ∷ failed ∷ failed ∷ failed ∷ wrote 17 ∷ wrote 3 ∷ failed ∷ [];
  sent = [];
}

abbrev message_sent : List (List ℕ)
message_sent =
    line_of (ascii "AT+CSMP=17,169,0,0")
    ∷ text_command (ascii "12")
    ∷ (ascii "hi" ++ (26 ∷ []))
    ∷ []

abbrev talked : Line
talked = record {
  answers = [];
  writes = [];
  sent = commands_before options ++ (message_sent ++ commands_after options);
}

dialogue_ends : dialogue always always options (ascii "hi") (ascii "12") talking ≡ some (0, talked)
unfolding dialogue flush resp_loop want_loop xgsm_eoc find_sol is_final same_letter toupper
dialogue_ends = refl

dialogue-MessageSent_example :
    (sms : List (List ℕ)) × (at_message : Line) × (before_message always always options talking
      ≡ some (tt, at_message))
    × MessageSent always always (ascii "12") none (ascii "hi") at_message true sms
    × (talked.sent ≡ [] ++ (commands_before options ++ (sms ++ commands_after options)))
dialogue-MessageSent_example =
    dialogue-MessageSent always always (λ n. refl) options (ascii "hi") (ascii "12") talking talked
      0 dialogue_ends
