-- ===== src/Smsg/Run.antt =====
-- smsg.c: the nick, standard input, and the call of the part that the command names.
use smsg.Base.{
  ℕ, zero, suc, ◌+◌, ◌-◌, List, [], ◌∷◌, ◌++◌, length, Bool, true, false, ◌||◌, ◌==◌, ltb,
  if◌then◌else◌, Option, none, some, on_option, get_elem?,
}
use smsg.Base.Outcome.{Outcome, ok, failed, fault, ◌>>=◌}
use smsg.Base.Memory.{Memory, realloc}
use smsg.Base.Text.{Text, literal, text_eq}
use smsg.Client.{string_of}
use smsg.Clchat.Input.{memmove}
use smsg.Smsg.{
  CmdCode, help, server, list, chat, message, getmsg, prefs, Shell, Settings, Opt, stop, go,
  read_options,
}

-- The nick's block, from the character `i` on: one memmove() for each character that is not
-- allowed, of as many bytes as the string has from there with its NUL, from the next character on.
unfoldable pub filter_from : ℕ → List ℕ → ℕ → Outcome (List ℕ)
filter_from zero b i = ok b
filter_from (suc fuel) b i = on_option (get_elem? b i) fault λ c.
    if c == 0
    then ok b
    else ((if ltb c 33 || ltb 126 c then memmove b i (i + 1) (length b - i) else ok b) >>= λ b'.
        filter_from fuel b' (i + 1))

unfoldable pub filter_nick : Text → Outcome (List ℕ)
filter_nick nick = filter_from (suc (length nick)) (nick ++ (0 ∷ [])) 0

abbrev pub msg_max_len : ℕ
msg_max_len = 16768

-- `while((*p++ = (char)getchar()) != EOF && n < MSG_MAX_LEN - 1) n++`, with so many characters to go;
-- the byte 255 is EOF as a char.
unfoldable pub read_chars : ℕ → List ℕ → List ℕ
read_chars zero input = []
read_chars (suc left) [] = []
read_chars (suc left) (c ∷ input) =
    let rest = read_chars left input in if c == 255 then [] else c ∷ rest

-- The block that realloc() leaves, if any.
abbrev pub shrunk : Outcome (List ℕ) → Option (List ℕ)
shrunk (ok b) = some b
shrunk failed = none
shrunk fault = none

-- `*rdata` afterwards, `failed` for 1. The block is cut to the characters read; realloc() to 0 bytes
-- gives no block.
unfoldable pub get_stdin : Memory → List ℕ → Outcome (Option (List ℕ))
get_stdin m input =
    let read = read_chars (msg_max_len - 1) input in
    if m.grants msg_max_len
    then ok (if length read == 0 then none else shrunk (realloc m (read ++ (0 ∷ [])) (length read)))
    else failed

-- The calls that main() ends with, or what it says.
pub data Action : Type 0 where
  runs_server : ℕ → Bool → Action
  sends_message : Text → Text → Option Text → ℕ → Action
  gets_message : ℕ → Action
  gets_list : Text → ℕ → Action
  chats : Option (List ℕ) → Text → ℕ → Settings → Action
  sends_prefs : Option Text → ℕ → ℕ → ℕ → Action
  says_help : Action
  says : Text → Action
  exits : Text → Action

-- `case message`
unfoldable pub start_message : Shell → List ℕ → ℕ → Settings → Outcome Action
start_message m input port s =
    let no_destination : Outcome Action = ok (exits (literal "no destination given\n")) in
    on_option s.targethost no_destination λ host.
      if length host == 0
      then no_destination
      else if s.usegui
      then ok (says (literal "ehh sorry...no X support is compiled into this binary\n"))
      else sent_to host (get_stdin m.memory input)
  where
    sent_to : Text → Outcome (Option (List ℕ)) → Outcome Action
    sent_to host (ok block) =
        string_of block >>= λ text. ok (sends_message text host s.targetuser port)
    sent_to host failed = ok (exits (literal "error getting message data from standard input\n"))
    sent_to host fault = fault

-- `case chat`
unfoldable pub start_chat : Shell → Option (List ℕ) → ℕ → Settings → Outcome Action
start_chat m nick port s =
    on_option s.targethost
      (if m.memory.copies (literal "localhost")
        then ok (chats nick (literal "localhost") port s)
        else ok (exits (literal "error copying hostname (probably due to insufficient memory)\n")))
      λ host. ok (chats nick host port s)

-- The `switch` on the command.
unfoldable pub start :
    Shell → List ℕ → Option (List ℕ) → ℕ → Settings → Option CmdCode → Outcome Action
start m input nick port s (some server) = ok (runs_server port s.autofork)
start m input nick port s (some message) = start_message m input port s
start m input nick port s (some getmsg) = ok (
    if s.usegui
    then says (literal "ehh sorry...no X support is compiled into this binary\n")
    else gets_message port)
start m input nick port s (some list) =
    on_option s.targethost (ok (exits (literal "no destination given\n"))) λ host. ok (
      if s.usegui
      then says (literal "this binary doesn't support X...bad luck\n")
      else gets_list host port)
start m input nick port s (some chat) = start_chat m nick port s
start m input nick port s (some prefs) = ok (
    if s.usegui
    then says (literal "setting preferences for a gui interface makes no sense\n")
    else sends_prefs s.ttyspec s.beepspec s.mode port)
start m input nick port s (some help) = ok says_help
start m input nick port s none = ok (exits (literal "no command found, try 'help'\n"))

-- From the end of the options on; `prog_name` is the name that the program was called by.
unfoldable pub after_options : Shell → Text → List ℕ → Settings → Outcome Action
after_options m prog_name input s = do
  let port : ℕ = if s.tport == 65535 then m.port_default else s.tport
  nick ← on_option s.nick (ok none) λ n. filter_nick n >>= λ b. ok (some b)
  start m input nick port s (if text_eq prog_name (literal "chat") then some chat else s.command)

abbrev pub default_settings : Settings
default_settings = record {
  command = none;
  tport = 65535;
  autofork = true;
  usegui = false;
  forcecolor = false;
  erase_key = 65535;
  room = none;
  beepspec = 254;
  mode = 254;
  targethost = none;
  targetuser = none;
  ttyspec = none;
  nick = none;
  loglevel = 0;
  logfilename = none;
}

unfoldable pub main : Shell → Text → List Opt → List ℕ → Outcome Action
main m prog_name opts input =
    let run = (λ (s : Settings). after_options m prog_name input s) in
    read_options m opts default_settings >>= λ r. elim r [
      | stop why ↦ ok (exits why)
      | go s ↦ run s
    ]
