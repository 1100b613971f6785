-- ===== src/Xgsm/Modem/Main.antt =====
-- xgsm.c, main: the options, and the commands that it sends.
use trivia.Prelude.{
  ℕ, zero, suc, Bool, true, false, Option, none, some, List, [], ◌∷◌, ◌++◌, if◌then◌else◌,
}
use trivia.Prelude.Int.{ℤ, pos, negsuc}
use trivia.Prelude.Text.{ascii, decimal}
use trivia.Xgsm.Modem.Line.{Action, pure, ◌>>◌, xgsm_flushin}
use trivia.Xgsm.Modem.Send.{line_of, xgsm_sendcmd, xgsm_vsendcmd, xgsm_send_sms, xgsm_send_txt_sms}

-- The options of main, as getopt finds them.
pub data Flag : Type 0 where
  device : (path : List ℕ) → Flag
  unbuffered_input : Flag
  unbuffered : Flag
  verbose : Flag
  list_messages : Flag
  text_mode : Flag
  delete : (index : ℤ) → Flag
  debug : (level : ℕ) → Flag
  centre : (number : List ℕ) → Flag
  message : (text : List ℕ) → Flag
  recipient : (number : List ℕ) → Flag
  help : Flag

pub record Options : Type 0 where
  pub dev : Option (List ℕ)
  pub scnbr : Option (List ℕ)
  pub msg : Option (List ℕ)
  pub nbr : Option (List ℕ)
  pub canon : Bool
  pub verbosely : Bool
  pub mlist : Bool
  pub txt : Bool
  pub mdel : ℤ

abbrev pub no_options : Options
no_options = record {
  dev = none;
  scnbr = none;
  msg = none;
  nbr = none;
  canon = true;
  verbosely = false;
  mlist = false;
  txt = false;
  mdel = negsuc 0;
}

-- The switch of main. `-u`, `-D` and `-h` change what is not in the options.
abbrev pub set_option : Options → Flag → Options
set_option o (device path) = record o { dev = some path }
set_option o unbuffered = record o { canon = false }
set_option o verbose = record o { verbosely = true }
set_option o list_messages = record o { mlist = true }
set_option o text_mode = record o { txt = true }
set_option o (delete index) = record o { mdel = index }
set_option o (centre number) = record o { scnbr = some number }
set_option o (message text) = record o { msg = some text }
set_option o (recipient number) = record o { nbr = some number }
set_option o unbuffered_input = o
set_option o (debug level) = o
set_option o help = o

abbrev pub parse_options : Options → List Flag → Options
parse_options o [] = o
parse_options o (f ∷ fs) = parse_options (set_option o f) fs

-- Sent with or without `-v`.
abbrev pub setup_commands : List (List ℕ)
setup_commands = ascii "AT&F" ∷ ascii "ATE0" ∷ ascii "AT+CMEE=1" ∷ []

-- Sent with `-v`, before `AT&V`.
abbrev pub query_commands : List (List ℕ)
query_commands =
    ascii "AT+CFUN=1"
    ∷ ascii "AT+CPIN?"
    ∷ ascii "AT+CSQ"
    ∷ ascii "AT+COPS?"
    ∷ ascii "AT+COPS=0"
    ∷ ascii "AT+COPN"
    ∷ ascii "AT^SMONC"
    ∷ ascii "AT^MONP"
    ∷ ascii "AT+CREG?"
    ∷ ascii "AT+CREG=1"
    ∷ ascii "AT+CGMI"
    ∷ ascii "AT+CGMM"
    ∷ ascii "AT+CGMR"
    ∷ ascii "AT+CGSN"
    ∷ ascii "AT+CSCS=?"
    ∷ ascii "AT+CIMI"
    ∷ ascii "AT+CCID"
    ∷ ascii "AT+CNUM"
    ∷ ascii "AT+CSCA?"
    ∷ ascii "AT+CPMS?"
    ∷ ascii "AT+CSMS=1"
    ∷ ascii "AT+CSMP?"
    ∷ ascii "AT+CLIP=1"
    ∷ ascii "AT+CNMI=0,0,0,0,1"
    ∷ ascii "AT+CGSMS=1"
    ∷ []

abbrev pub positive : ℤ → Option ℕ
positive (pos zero) = none
positive (pos (suc n)) = some (suc n)
positive (negsuc n) = none

abbrev pub mode_command : Bool → List ℕ
mode_command txt = line_of (ascii "AT+CMGF=" ++ (if txt then ascii "1" else ascii "0"))

abbrev pub delete_command : ℕ → List ℕ
delete_command index = line_of (ascii "AT+CMGD=" ++ decimal index)

module _ (malloc realloc : ℕ → Bool) where
  -- What a command answers is dropped.
  abbrev pub command : List ℕ → Action (Unit {0})
  command cmd = do xgsm_sendcmd malloc realloc cmd; pure tt

  abbrev pub vcommand : List ℕ → Action (Unit {0})
  vcommand cmd = do xgsm_vsendcmd malloc realloc cmd; pure tt

  abbrev pub commands : List (List ℕ) → Action (Unit {0})
  commands [] = pure tt
  commands (c ∷ cs) = do command (line_of c); commands cs

  abbrev pub queries : Bool → Action (Unit {0})
  queries false = pure tt
  queries true = do commands query_commands; vcommand (line_of (ascii "AT&V"))

  abbrev pub send_message : Bool → List ℕ → Option (List ℕ) → List ℕ → Action (Unit {0})
  send_message true nbr scnbr msg = do
    command (line_of (ascii "AT+CSMP=17,169,0,0"))
    xgsm_send_txt_sms malloc realloc nbr msg
    pure tt
  send_message false nbr scnbr msg = do xgsm_send_sms malloc realloc nbr scnbr msg; pure tt

  abbrev pub list_all : Bool → Action (Unit {0})
  list_all false = pure tt
  list_all true = command (line_of (ascii "AT+CMGL=\"ALL\""))

  abbrev pub delete_one : Option ℕ → Action (Unit {0})
  delete_one none = pure tt
  delete_one (some index) = vcommand (delete_command index)

  abbrev pub before_message : Options → Action (Unit {0})
  before_message o = do
    xgsm_flushin
    commands setup_commands
    queries o.verbosely
    command (line_of (ascii "AT^SM20=0,0"))
    vcommand (mode_command o.txt)

  abbrev pub after_message : Options → Action (Unit {0})
  after_message o = do
    command (line_of (ascii "AT+CEER"))
    list_all o.mlist
    delete_one (positive o.mdel)

  -- From the first xgsm_flushin on.
  unfoldable pub dialogue : Options → List ℕ → List ℕ → Action ℕ
  dialogue o msg nbr = do
    before_message o
    send_message o.txt nbr o.scnbr msg
    after_message o
    pure 0

  -- `opens` tells which devices can be opened. The exit code is the result.
  module _ (opens : List ℕ → Bool) where
    abbrev pub with_device :
        Options → Option (List ℕ) → Option (List ℕ) → Option (List ℕ) → Action ℕ
    with_device o (some dev) (some msg) (some nbr) =
        if opens dev then dialogue o msg nbr else pure 2
    with_device o _ _ _ = pure 1

    abbrev pub main : List Flag → Action ℕ
    main flags = let o = parse_options no_options flags in with_device o o.dev o.msg o.nbr
