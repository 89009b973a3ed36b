-- ===== src/Smsg.antt =====
-- smsg.c: the main program. getopt() gives the options one by one; what is done in the end is an
-- `Action`, the call of one of the program's parts.
pub mod Run
pub mod Defects
pub mod Port
use smsg.Base.{
  ℕ, zero, suc, ◌+◌, ◌-◌, List, [], ◌∷◌, ◌++◌, length, take, drop, replicate, Bool, true, false,
  not, ◌&&◌, ◌||◌, ◌==◌, leb, ltb, if◌then◌else◌, Option, none, some, on_option, get_elem?,
}
use smsg.Base.Outcome.{Outcome, ok, failed, fault, ◌>>=◌}
use smsg.Base.Memory.{Memory, realloc, overwrite}
use smsg.Base.Text.{Text, literal, text_eq}
use smsg.Clchat.Commands.{is_one_of, isalnum}
use smsg.Clchat.Input.{memmove}

-- `enum cmdcode`
pub data CmdCode : Type 0 where
  help server list chat message getmsg prefs : CmdCode

-- What the main program asks of the machine. strtol() gives the low 16 bits of its result, and
-- whether it read the whole string.
pub record Shell : Type 0 where
  pub memory : Memory
  pub strtol : ℕ → Text → ℕ × Bool
  -- "%i" of a `short int`, by its 16 bits
  pub short_text : ℕ → Text
  -- ttyname(1)
  pub ttyname : Option Text
  pub port_default : ℕ

-- The variables of main(); a `short` is its 16 bits, and the char -2 is 254.
pub record Settings : Type 0 where
  pub command : Option CmdCode
  pub tport : ℕ
  pub autofork : Bool
  pub usegui : Bool
  pub forcecolor : Bool
  pub erase_key : ℕ
  pub room : Option Text
  pub beepspec : ℕ
  pub mode : ℕ
  pub targethost : Option Text
  pub targetuser : Option Text
  pub ttyspec : Option Text
  pub nick : Option Text
  pub loglevel : ℕ
  pub logfilename : Option Text

-- What getopt() returns, by the letter of the option.
pub data Opt : Type 0 where
  opt_z opt_p opt_d opt_t opt_b opt_m opt_l opt_log opt_n opt_e opt_r : Text → Opt
  opt_g opt_c opt_h opt_f opt_s opt_unknown opt_other : Opt

-- exit(1), after an error message, or on it goes.
pub data Step (A : Type 0) : Type 0 where
  stop : Text → Step A
  go : A → Step A

-- cmds[]
unfoldable pub find_command : Text → Option CmdCode
find_command s =
    if text_eq s (literal "help")
    then some help
    else if text_eq s (literal "server")
    then some server
    else if text_eq s (literal "list")
    then some list
    else if text_eq s (literal "chat")
    then some chat
    else if is_one_of s (literal "msg" ∷ literal "mesg" ∷ literal "message" ∷ [])
    then some message
    else if is_one_of s (literal "getmsg" ∷ literal "get" ∷ [])
    then some getmsg
    else if is_one_of s (literal "prefs" ∷ literal "pref" ∷ [])
    then some prefs
    else none

-- strdup(), or the end with a message.
abbrev pub dup_or : Memory → Text → Text → (Text → Settings) → Outcome (Step Settings)
dup_or m s why f = if m.copies s then ok (go (f s)) else ok (stop why)

-- `case 'z': case 1`
unfoldable pub set_command : Text → Settings → Outcome (Step Settings)
set_command optarg s =
    on_option s.command
      (on_option (find_command optarg)
        (ok (stop (literal "unknown command: `" ++ (optarg ++ literal "', try help\n"))))
        λ c. ok (go (record s { command = some c })))
      λ c. ok (stop (literal "more than one command found\n"))

-- `case 'p'`; the port is signed.
unfoldable pub set_port : Shell → Text → Settings → Outcome (Step Settings)
set_port m optarg s =
    let r = m.strtol 10 optarg in
    if not r.1
    then ok (stop (literal "found incorrect argument for port, please specify a number\n"))
    else if ltb r.0 1024 || leb 32768 r.0
    then ok (
        stop (
          literal "incorrect port: "
          ++ (m.short_text r.0 ++ literal " (must be above 1023 and below 65535)\n")))
    else ok (go (record s { tport = r.0 }))

-- index(): the parts before and behind the first '@'.
unfoldable pub split_at_sign : Text → Option (Text × Text)
split_at_sign [] = none
split_at_sign (c ∷ t) =
    let later : Option (Text × Text) = on_option (split_at_sign t) none λ p. some (c ∷ p.0, p.1) in
    if c == 64 then some ([], t) else later

abbrev pub no_host : Text
no_host = literal "error copying hostname (probably due to insufficient memory)\n"

-- The user's name in a block of its own: the NUL is written one byte behind the place for it.
unfoldable pub copy_user : Memory → Text → Outcome (List ℕ)
copy_user m user = realloc m [] (length user + 1) >>= λ b.
    overwrite b 0 user >>= λ b. overwrite b (length user + 1) (0 ∷ [])

unfoldable pub set_user : Text → Settings → Outcome (List ℕ) → Outcome (Step Settings)
set_user user s (ok b) = ok (go (record s { targetuser = some user }))
set_user user s failed =
    ok (stop (literal "error copying username (probably due to insufficient memory)\n"))
set_user user s fault = fault

-- `case 'd'`
unfoldable pub set_destination : Shell → Text → Settings → Outcome (Step Settings)
set_destination m optarg s =
    on_option (split_at_sign optarg)
      (dup_or m.memory optarg no_host (λ h. record s { targethost = some h }))
      λ parts.
        if m.memory.copies parts.1
        then set_user parts.0 (record s { targethost = some parts.1 }) (copy_user m.memory parts.0)
        else ok (stop no_host)

-- `case 't'`: "this", or its first letter alone.
unfoldable pub set_tty : Shell → Text → Settings → Outcome (Step Settings)
set_tty m optarg s =
    if is_one_of optarg (literal "this" ∷ literal "t" ∷ [])
    then on_option m.ttyname (ok (stop (literal "error getting tty name\n")))
        (λ tty. ok (go (record s { ttyspec = some tty })))
    else dup_or m.memory optarg (literal "error duplicating tty specification\n")
        λ tty. record s { ttyspec = some tty }

-- `case 'b'`
unfoldable pub set_beep : Text → Settings → Outcome (Step Settings)
set_beep optarg s =
    if is_one_of optarg (literal "on" ∷ literal "yes" ∷ literal "1" ∷ [])
    then ok (go (record s { beepspec = 1 }))
    else if is_one_of optarg (literal "off" ∷ literal "no" ∷ literal "0" ∷ [])
    then ok (go (record s { beepspec = 0 }))
    else ok (
        stop
          (literal "incorrect argument for beep option specified, use 'on', 'off' and the like\n"))

-- `case 'm'`
unfoldable pub set_mode : Text → Settings → Outcome (Step Settings)
set_mode optarg s =
    if is_one_of optarg (literal "i" ∷ literal "imm" ∷ literal "immediate" ∷ [])
    then ok (go (record s { mode = 0 }))
    else if is_one_of optarg (literal "q" ∷ literal "queue" ∷ literal "queued" ∷ [])
    then ok (go (record s { mode = 1 }))
    else ok (stop (literal "incorrect argument for mode option specified, use 'q' or 'i'\n"))

-- `case 'l'`
unfoldable pub set_loglevel : Shell → Text → Settings → Outcome (Step Settings)
set_loglevel m optarg s =
    let r = m.strtol 10 optarg in
    if r.1
    then ok (go (record s { loglevel = r.0 }))
    else ok (stop (literal "found incorrect argument for loglevel, please specify a number\n"))

-- `case 'e'`
unfoldable pub set_erase_key : Shell → Text → Settings → Outcome (Step Settings)
set_erase_key m optarg s =
    let r = m.strtol 0 optarg in
    if not r.1
    then ok (stop (literal "found incorrect argument for erasekey, please specify a number\n"))
    else if r.0 == 0 || (ltb 255 r.0 || (isalnum r.0 || r.0 == 47))
    then ok
        (stop (literal "incorrect erasekey (may not be below 1, above 255, alphanumeric or '/')\n"))
    else ok (go (record s { erase_key = r.0 }))

-- The `switch` on an option.
unfoldable pub read_option : Shell → Opt → Settings → Outcome (Step Settings)
read_option m (opt_z optarg) s = set_command optarg s
read_option m opt_g s = ok (go (record s { usegui = true }))
read_option m opt_c s = ok (go (record s { forcecolor = true }))
read_option m opt_h s = ok (go (record s { command = some help }))
read_option m opt_f s = ok (go (record s { autofork = false }))
read_option m (opt_p optarg) s = set_port m optarg s
read_option m (opt_d optarg) s = set_destination m optarg s
read_option m (opt_t optarg) s = set_tty m optarg s
read_option m (opt_b optarg) s = set_beep optarg s
read_option m (opt_m optarg) s = set_mode optarg s
read_option m (opt_l optarg) s = set_loglevel m optarg s
read_option m (opt_log optarg) s =
    dup_or m.memory optarg (literal "error duplicating logging filename\n")
      λ name. record s { logfilename = some name }
read_option m (opt_n optarg) s =
    dup_or m.memory optarg (literal "error duplicating nick\n")
      λ name. record s { nick = some name }
read_option m opt_s s = ok (
    stop (
      literal
        "sidebar customization has been disabled temporarily due to resize code bugs [incompleteness]\n"))
read_option m (opt_e optarg) s = set_erase_key m optarg s
read_option m (opt_r optarg) s =
    dup_or m.memory optarg (literal "error duplicating roomname\n")
      λ name. record s { room = some name }
read_option m opt_unknown s = ok (stop [])
read_option m opt_other s = ok (go s)

-- `while(1)`
unfoldable pub read_options : Shell → List Opt → Settings → Outcome (Step Settings)
read_options m [] s = ok (go s)
read_options m (o ∷ os) s =
    let later = (λ (t : Settings). read_options m os t) in
    read_option m o s >>= λ r. elim r [ stop why ↦ ok (stop why) | go t ↦ later t ]
