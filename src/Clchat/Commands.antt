-- ===== src/Clchat/Commands.antt =====
-- clchat.c, chatter_func(): what becomes of a line that was typed.
use smsg.Base.{
  ℕ, suc, ◌+◌, List, [], ◌∷◌, ◌++◌, length, Bool, true, false, not, ◌&&◌, ◌||◌, ◌==◌, leb,
  if◌then◌else◌, Option, none, some, on_option,
}
use smsg.Base.Outcome.{Outcome, ok, failed, fault, ◌>>=◌}
use smsg.Base.Text.{Text, literal, text_eq}
use smsg.Ncmd.Opcode.{
  NcmdOp, code, of_code, c_away, c_ban, c_beep, c_bs, c_clear, c_deop, c_help, c_kick, c_log, c_me,
  c_nick, c_op, c_oper, c_priv, c_psay, c_quit, c_say, c_unban, c_who,
}
use smsg.Ncmd.Names.{ncmd_getnum, ncmd_getname, no_command}
use smsg.Calls.{compose, set_cmd}
use smsg.Client.{Machine}
use smsg.Clchat.Receive.{Chat, asay, duplicate}
use smsg.Clchat.Token.{tokens, lcc_strsepx, lcc_skip_to_token_start, lcc_token_delim}
use smsg.Clchat.Help.{lcc_help_general, lcc_help_interface, lcc_help_commands}

-- What a typed line changes: the chat, the send buffer and whether it is to be sent, the reason and
-- the end of the loop, the backspace key (`none` where no
-- character is the key: KEY_BACKSPACE, or a char from 128 on, which is negative), and whether the log is open.
pub record Typed : Type 0 where
  pub chat : Chat
  pub sbuf : List ℕ
  pub sendit : Bool
  pub reason : Option Text
  pub exitloop : Bool
  pub backspace_char : Option ℕ
  pub log_open : Bool

abbrev pub told : ℕ → Text → Typed → Typed
told prefix text s = record s { chat = asay prefix text s.chat }

abbrev pub next_token : Option Text → Option Text × Option Text
next_token p = lcc_strsepx p lcc_token_delim

abbrev pub to_token : Option Text → Option Text
to_token p = lcc_skip_to_token_start p lcc_token_delim

-- The first character, the NUL of an empty string.
abbrev pub first_char : Text → ℕ
first_char [] = 0
first_char (c ∷ t) = c

unfoldable pub isalnum : ℕ → Bool
isalnum c = leb 48 c && leb c 57 || (leb 65 c && leb c 90 || leb 97 c && leb c 122)

-- A signed char as an `int`, by its low 32 bits.
abbrev pub int_of_char : ℕ → ℕ
int_of_char c = if leb 128 c then c + 4294967040 else c

-- `case C_BS`
unfoldable pub set_backspace : Machine → Option Text → Typed → Typed
set_backspace m none s = told 1 (literal "Please give a key as argument.\n") s
set_backspace m (some tt) s =
    let c = first_char tt in
    if not (isalnum c) && not (c == 47)
    then told 1 (literal "Backspace key set to " ++ (m.octal (int_of_char c) ++ literal ".\n"))
        (record s { backspace_char = if leb 128 c then none else some c })
    else told 1 (literal "Sorry, refusing to set alphanumeric chars or '/' as backspace key.\n") s

abbrev pub is_one_of : Text → List Text → Bool
is_one_of t [] = false
is_one_of t (u ∷ us) = text_eq t u || is_one_of t us

-- `case C_HELP`
unfoldable pub give_help : Text → Option Text → Typed → Typed
give_help version none s = told 4 (lcc_help_general version) s
give_help version (some tt) s =
    if is_one_of tt (literal "c" ∷ literal "cmd" ∷ literal "cmds" ∷ literal "commands" ∷ [])
    then told 4 (lcc_help_commands version) s
    else if is_one_of tt (literal "i" ∷ literal "iface" ∷ literal "interface" ∷ [])
    then told 4 (lcc_help_interface version) s
    else told 1 (literal "Unknown help topic, please leave out argument for a list.\n") s

-- openlog() and closelog(): whether it is open afterwards; `opens` is fopen().
abbrev pub openlog : Bool → Bool → Bool
openlog opens log_open = log_open || opens

-- `case C_LOG`
unfoldable pub switch_log : Bool → Typed → Typed
switch_log opens s =
    if s.log_open
    then told 1 (literal "session log closed\n") (record s { log_open = false })
    else if openlog opens s.log_open
    then told 1 (literal "session log opened to smsg.chatlog\n") (record s { log_open = true })
    else told 3 (literal "error opening session log to 'smsg.chatlog'\n") s

-- `case C_QUIT`
unfoldable pub quit : Machine → Option Text → Typed → Typed
quit m rtokenp s =
    let s' : Typed = on_option (to_token rtokenp) s λ t. record s { reason = duplicate m t } in
    told 1 (literal "Quitting...\n") (record s' { exitloop = true })

-- The text that is left, empty for a null pointer.
abbrev pub text_left : Option Text → Text
text_left p = on_option (to_token p) [] λ t. t

abbrev pub to_send : List ℕ → Typed → Typed
to_send sbuf s = record s { sbuf = sbuf; sendit = true }

-- `case C_PSAY: case C_SAY: case C_ME`
unfoldable pub say_command : Machine → NcmdOp → Option Text → Typed → Outcome Typed
say_command m c_psay rtokenp s =
    let (tt, rest) = next_token rtokenp in
    on_option tt
      (set_cmd m.memory s.sbuf (code c_psay) >>= λ sbuf.
        ok (told 1 (literal "Unable to find nick in /psay command.\n") (record s { sbuf = sbuf })))
      λ nick.
        if first_char nick == 0
        then (set_cmd m.memory s.sbuf (code c_psay) >>= λ sbuf.
            ok (
              told 1 (literal "Unable to find nick in /psay command.\n")
                (record s { sbuf = sbuf })))
        else (compose m.memory s.sbuf (code c_psay) (some nick ∷ some (text_left rest) ∷ [])
            >>= λ sbuf. ok (to_send sbuf s))
say_command m op rtokenp s =
    compose m.memory s.sbuf (code op) (some (text_left rtokenp) ∷ []) >>= λ sbuf.
    ok (to_send sbuf s)

-- `case C_AWAY`
unfoldable pub away_command : Machine → Option Text → Typed → Outcome Typed
away_command m rtokenp s =
    compose m.memory s.sbuf (code c_away) (on_option (to_token rtokenp) [] λ t. some t ∷ [])
    >>= λ sbuf. ok (to_send sbuf s)

-- The type that `/who` asks for, `none` if the argument is unknown.
unfoldable pub who_argument : Option Text → Option ℕ
who_argument none = some 0
who_argument (some tt) =
    if is_one_of tt (literal "c" ∷ literal "chat" ∷ [])
    then some 0
    else if is_one_of tt (literal "s" ∷ literal "sys" ∷ literal "system" ∷ [])
    then some 1
    else if is_one_of tt (literal "a" ∷ literal "all" ∷ [])
    then some 2
    else none

-- `case C_WHO`
unfoldable pub who_command : Machine → Option Text → Typed → Outcome Typed
who_command m rtokenp s =
    on_option (who_argument (next_token rtokenp).0)
      (ok (told 1 (literal "Unknown argument for who command.\n") s))
      λ itype. compose m.memory s.sbuf (code c_who) (some (itype ∷ []) ∷ []) >>= λ sbuf.
        ok (to_send sbuf s)

abbrev pub to_args : List Text → List (Option (List ℕ))
to_args [] = []
to_args (t ∷ ts) = some t ∷ to_args ts

-- The commands whose words are arguments; the line has at most as many words as characters, and one.
unfoldable pub words_command : Machine → NcmdOp → Option Text → Typed → Outcome Typed
words_command m op rtokenp s =
    let fuel = suc (suc (on_option rtokenp 0 length)) in
    compose m.memory s.sbuf (code op) (to_args (tokens fuel rtokenp)) >>= λ sbuf.
    ok (to_send sbuf s)

-- Banning is switched off.
abbrev pub no_banning : Typed → Typed
no_banning s = told 1 (literal "banning is temporarily disabled (until it works well...)\n") s

-- `case C_DOOR: default`
unfoldable pub odd_command : Outcome Text → Typed → Outcome Typed
odd_command (ok name) s =
    ok (told 1 (literal "You typed command " ++ (name ++ literal ", don't know what to do.\n")) s)
odd_command failed s = fault
odd_command fault s = fault

unfoldable pub do_command :
    Machine → Text → Bool → ℕ → Option NcmdOp → Option Text → Typed → Outcome Typed
do_command m version opens tncmd none rtokenp s = ok (
    told 1
      (literal "Sorry I don't know that command, try '/help' for help or make no typing errors.\n")
      s)
do_command m version opens tncmd (some c_bs) rtokenp s =
    ok (set_backspace m (next_token rtokenp).0 s)
do_command m version opens tncmd (some c_clear) rtokenp s = ok s
do_command m version opens tncmd (some c_help) rtokenp s =
    ok (give_help version (next_token rtokenp).0 s)
do_command m version opens tncmd (some c_log) rtokenp s = ok (switch_log opens s)
do_command m version opens tncmd (some c_priv) rtokenp s =
    ok (told 1 (literal "Command not implemented.\n") s)
do_command m version opens tncmd (some c_quit) rtokenp s = ok (quit m rtokenp s)
do_command m version opens tncmd (some c_psay) rtokenp s = say_command m c_psay rtokenp s
do_command m version opens tncmd (some c_say) rtokenp s = say_command m c_say rtokenp s
do_command m version opens tncmd (some c_me) rtokenp s = say_command m c_me rtokenp s
do_command m version opens tncmd (some c_away) rtokenp s = away_command m rtokenp s
do_command m version opens tncmd (some c_who) rtokenp s = who_command m rtokenp s
do_command m version opens tncmd (some c_ban) rtokenp s = ok (no_banning s)
do_command m version opens tncmd (some c_unban) rtokenp s = ok (no_banning s)
do_command m version opens tncmd (some c_beep) rtokenp s =
    words_command m c_beep rtokenp (told 1 (literal "looking for attention...\n") s)
do_command m version opens tncmd (some c_deop) rtokenp s = words_command m c_deop rtokenp s
do_command m version opens tncmd (some c_kick) rtokenp s = words_command m c_kick rtokenp s
do_command m version opens tncmd (some c_nick) rtokenp s = words_command m c_nick rtokenp s
do_command m version opens tncmd (some c_op) rtokenp s = words_command m c_op rtokenp s
do_command m version opens tncmd (some c_oper) rtokenp s = words_command m c_oper rtokenp s
do_command m version opens tncmd (some op) rtokenp s =
    odd_command (ncmd_getname m.memory m.decimal tncmd) s

-- The command of a line, and what follows it. A line that does not begin with '/' is said.
unfoldable pub which_command : Text → ℕ × Option Text
which_command [] = (code c_say, some [])
which_command (c ∷ t) =
    if c == 47
    then (let (tt, rest) = next_token (some t) in
        (on_option tt no_command (λ name. ncmd_getnum name (length name)), rest))
    else (code c_say, some (c ∷ t))

-- `if(sendit && sendbuf(...) == -1)`
unfoldable pub send_it : Machine → Typed → Typed
send_it m s =
    let s' : Typed = record s { chat = record s.chat { sent = s.chat.sent ++ (s.sbuf ∷ []) } } in
    if s.sendit
    then (if m.sends s.sbuf
        then s'
        else told 3 (literal "error sending command (" ++ (m.strerror ++ literal ")\n")) s')
    else s

-- A line with its NUL, copied when enter was pressed.
unfoldable pub run_line : Machine → Text → Bool → Text → Typed → Outcome Typed
run_line m version opens line s =
    let (tncmd, rtokenp) = which_command line in
    do_command m version opens tncmd (of_code tncmd) rtokenp (record s { sendit = false }) >>= λ s'.
    ok (send_it m s')
