-- ===== src/Clchat/Receive/Cases.antt =====
-- clchat.c, chatter_func(): the commands of the server, case by case.
use smsg.Base.{ℕ, List, [], ◌++◌, true, false, not, ◌==◌, ltb, if◌then◌else◌}
use smsg.Base.Outcome.{Outcome, ok, ◌>>=◌}
use smsg.Base.Text.{Text, literal}
use smsg.Ncmd.{ncmd_getnumargs}
use smsg.Server.Prefs.{byte_of}
use smsg.Client.{Machine, string_of}
use smsg.Clchat.Receive.{
  Chat, asay, want_who, into_targ0, into_targ1, say_of, say_of_two, is_nick, duplicate, both_args,
}

-- `case C_DOOR`
unfoldable pub on_door : Machine → List ℕ → Chat → Outcome Chat
on_door m rbuf s = do
  s ← into_targ0 m rbuf 0 false s
  s ← into_targ1 m rbuf 1 s
  b ← byte_of s.targ0
  numargs ← ncmd_getnumargs rbuf
  s ←
      if b == 1
      then say_of 2 [] s.targ1 (literal " entered chat\n") s
      else if ltb 2 numargs
      then (into_targ0 m rbuf 2 true s >>= λ s.
          say_of_two 2 s.targ1 (literal " left chat (") s.targ0 (literal ")\n") s)
      else say_of 2 [] s.targ1 (literal " left chat\n") s
  ok (want_who s)

-- `case C_AWAY`
unfoldable pub on_away : Machine → List ℕ → Chat → Outcome Chat
on_away m rbuf s = do
  s ← both_args m rbuf s
  b ← byte_of s.targ0
  s ←
      say_of 2 [] s.targ1
        (if b == 0 then literal " is not away anymore" else literal " is now away") s
  own ← is_nick s.targ1 s.nick
  let s' : Chat = if own then record s { away = not (b == 0) } else s
  numargs ← ncmd_getnumargs rbuf
  s ←
      if numargs == 3
      then (into_targ0 m rbuf 2 true s' >>= λ s. say_of 0 (literal " (") s.targ0 (literal ")\n") s)
      else ok (asay 0 (literal "\n") s')
  ok (want_who s)

-- `case C_ME`
unfoldable pub on_me : Machine → List ℕ → Chat → Outcome Chat
on_me m rbuf s = do
  s ← both_args m rbuf s
  s ← say_of_two 0 s.targ0 (literal " ") s.targ1 [] (asay 0 (literal " --") s)
  ok (asay 0 (literal "\n") s)

-- `case C_OPER`
unfoldable pub on_oper : Machine → List ℕ → Chat → Outcome Chat
on_oper m rbuf s = do
  numargs ← ncmd_getnumargs rbuf
  s ←
      if ltb 0 numargs
      then (do
        s ← into_targ0 m rbuf 0 true s
        s ← say_of 2 (literal "mode +op ") s.targ0 (literal "\n") s
        own ← is_nick s.targ0 s.nick
        ok (if own then record s { operator = true } else s))
      else ok (asay 2 (literal "you did not supply the correct operator password\n") s)
  ok (want_who s)

-- `case C_PSAY`
unfoldable pub on_psay : Machine → List ℕ → Chat → Outcome Chat
on_psay m rbuf s = do
  numargs ← ncmd_getnumargs rbuf
  if numargs == 1
      then (into_targ0 m rbuf 0 true s >>= λ s.
          say_of 2 (literal "you tried to sent a private message to ") s.targ0
            (literal " who is not present\n") s)
      else if numargs == 2
      then (do
        s ← both_args m rbuf s
        s ← say_of 0 (literal "(p)") s.targ0 [] (asay 0 (literal "<") s)
        say_of 0 (literal " ") s.targ1 (literal "\n") (asay 0 (literal ">") s))
      else if numargs == 3
      then (do
        s ← both_args m rbuf s
        t ← string_of s.targ0
        s ← say_of 0 (literal "(p)" ++ (t ++ literal "->")) s.targ1 [] (asay 0 (literal "<") s)
        s ← into_targ0 m rbuf 2 true (asay 0 (literal ">") s)
        say_of 0 (literal " ") s.targ0 (literal "\n") s)
      else ok (asay 2 (literal "server sent a psay command with wrong number of args\n") s)

-- `case C_NICK`
unfoldable pub on_nick : Machine → List ℕ → Chat → Outcome Chat
on_nick m rbuf s = do
  na ← ncmd_getnumargs rbuf
  s ←
      if na == 0
      then ok (asay 2 (literal "the nick you want is already in use\n") s)
      else if na == 1
      then (do
        s ← into_targ0 m rbuf 0 true s
        t ← string_of s.targ0
        say_of 2 (literal "you're known as ") s.targ0 (literal " here\n")
            (record s { nick = duplicate m t }))
      else if na == 2
      then (do
        s ← both_args m rbuf s
        own ← is_nick s.targ1 s.nick
        t ← string_of s.targ0
        let s' : Chat = if own then record s { nick = duplicate m t } else s
        say_of_two 2 s.targ1 (literal " is now called ") s.targ0 (literal "\n") s')
      else ok (asay 2 (literal "server sent an nick command with wrong number of args\n") s)
  ok (want_who s)

-- `case C_SAY`
unfoldable pub on_say : Machine → List ℕ → Chat → Outcome Chat
on_say m rbuf s = do
  s ← both_args m rbuf s
  s ← say_of 0 [] s.targ0 [] (asay 0 (literal "[") s)
  say_of 0 (literal " ") s.targ1 (literal "\n") (asay 0 (literal "]") s)

-- The commands of operators have one shape: what is said to one who may not, of one who is not
-- there, and of what was done; and what becomes of the one it was done to, if that is the user.
unfoldable pub on_moderation :
    Machine → List ℕ → Text → Text → Text → Text → (Chat → Chat) → Chat → Outcome Chat
on_moderation m rbuf refusal absent before between change s = do
  na ← ncmd_getnumargs rbuf
  if na == 0
      then ok (asay 2 refusal s)
      else if na == 1
      then (into_targ0 m rbuf 0 true s >>= λ s. say_of 2 [] s.targ0 absent s)
      else (do
        s ← both_args m rbuf s
        t ← string_of s.targ0
        s ← say_of 2 (before ++ (t ++ between)) s.targ1 (literal "\n") s
        own ← is_nick s.targ0 s.nick
        ok (if own then change s else s))

unfoldable pub on_ban : Machine → List ℕ → Chat → Outcome Chat
on_ban m rbuf =
    on_moderation m rbuf
      (literal "you can't ban anyone because you're not an operator (or wrong # of args)\n")
      (literal " can't be banned because he/she is not present\n") [] (literal " is banned by ")
      λ s. record s { kicked = 2 }

unfoldable pub on_deop : Machine → List ℕ → Chat → Outcome Chat
on_deop m rbuf s =
    on_moderation m rbuf
      (literal "you can't deop anyone because you're not an operator (or wrong # of args)\n")
      (literal " can't be de-opped because he/she is not present\n") (literal "mode -op ")
      (literal " by ") (λ s. record s { operator = false }) s
    >>= λ s. ok (want_who s)

unfoldable pub on_kick : Machine → List ℕ → Chat → Outcome Chat
on_kick m rbuf s =
    on_moderation m rbuf
      (literal "you can't kick anyone because you're not an operator (or wrong # of args)\n")
      (literal " can't be kicked because he/she is not present\n") [] (literal " is kicked by ")
      (λ s. record s { kicked = 1 }) s
    >>= λ s. ok (want_who s)

unfoldable pub on_op : Machine → List ℕ → Chat → Outcome Chat
on_op m rbuf s =
    on_moderation m rbuf
      (literal "you can't op anyone because you're not an operator (or wrong # of args)\n")
      (literal " can't be opped because he/she is not present\n") (literal "mode +op ")
      (literal " by ") (λ s. record s { operator = true }) s
    >>= λ s. ok (want_who s)

unfoldable pub on_unban : Machine → List ℕ → Chat → Outcome Chat
on_unban m rbuf =
    on_moderation m rbuf
      (literal "you can't unban anyone because you're not an operator (or wrong # of args)\n")
      (literal " can't be unbanned because he/she is not present\n") [] (literal " is unbanned by ")
      λ s. record s { kicked = 0 }

-- `case C_BEEP`
unfoldable pub on_beep : Machine → List ℕ → Chat → Outcome Chat
on_beep m rbuf s = do
  numargs ← ncmd_getnumargs rbuf
  if numargs == 0
      then ok (asay 2 (literal "someone needs attention...\n") s)
      else (into_targ0 m rbuf 0 true s >>= λ s.
          say_of 2 (literal "you can't beep the terminal of ") s.targ0
            (literal " because he/she is not present\n") s)
