-- ===== src/Server/Dispatch.antt =====
-- ls_handle_netcmd() in server.c and handle_chatcmd() in servchat.c: which handler a command gets.
use smsg.Base.{on_option, ℕ, true, ◌==◌, if◌then◌else◌, none}
use smsg.Base.Outcome.{Outcome, ok, ◌>>=◌}
use smsg.Base.Text.{Text, literal, text_eq}
use smsg.Ncmd.{ncmd_get, ncmd_getnumargs}
use smsg.Ncmd.Opcode.{
  NcmdOp, of_code, msg, getqmsg, getlist, setpref, getpref, chatdoor, c_door, c_away, c_ban, c_beep,
  c_deop, c_kick, c_me, c_nick, c_op, c_oper, c_psay, c_say, c_unban, c_who,
}
use smsg.Host.{Host}
use smsg.Server.Chat.{chat_nick, chat_away, chat_beep}
use smsg.Server.Speech.{chat_oper, chat_psay, chat_say}
use smsg.Server.Moderation.{chat_moderate}
use smsg.Server.Who.{chat_who}
use smsg.Server.Message.{handle_msg, handle_getqmsg, handle_getlist}
use smsg.Server.Prefs.{handle_setpref, handle_getpref}
use smsg.Server.Door.{handle_chatdoor}
use smsg.Server.{Server, Reply, normal, error, client_at, is_chatting, fetch, deref, text_of}

-- handle_chatcmd()
unfoldable pub handle_chatcmd : Host → Server → ℕ → NcmdOp → Outcome (Server × Reply)
handle_chatcmd h s cl c_nick = chat_nick h s cl
handle_chatcmd h s cl c_away = chat_away h s cl
handle_chatcmd h s cl c_beep = chat_beep h s cl
handle_chatcmd h s cl c_oper = chat_oper h s cl
handle_chatcmd h s cl c_psay = chat_psay h s cl
handle_chatcmd h s cl c_say = chat_say h s cl c_say
handle_chatcmd h s cl c_me = chat_say h s cl c_me
handle_chatcmd h s cl c_who = chat_who h s cl
handle_chatcmd h s cl c_ban = chat_moderate h s cl c_ban
handle_chatcmd h s cl c_deop = chat_moderate h s cl c_deop
handle_chatcmd h s cl c_kick = chat_moderate h s cl c_kick
handle_chatcmd h s cl c_op = chat_moderate h s cl c_op
handle_chatcmd h s cl c_unban = chat_moderate h s cl c_unban
handle_chatcmd h s cl _ = ok (s, normal)

abbrev pub magic_who_arg : Text
magic_who_arg = literal "&!KRySTaLBaLL!&"

-- A chat command of a client whose user may not be present.
unfoldable pub if_present : Host → Server → ℕ → NcmdOp → Outcome (Server × Reply)
unfolding handle_chatcmd
if_present h s cl op = do
  c ← client_at s cl
  if is_chatting s c.fd then handle_chatcmd h s cl op else ok (s, normal)

-- `case C_WHO`: the magic argument needs no presence.
unfoldable pub handle_who : Host → Server → ℕ → Outcome (Server × Reply)
unfolding if_present
handle_who h s cl = do
  c ← client_at s cl
  numargs ← ncmd_getnumargs c.buf
  let with_arg = (do
    tb ← fetch h.memory c.buf none 0 true
    arg ← deref (text_of tb)
    if text_eq arg magic_who_arg then handle_chatcmd h s cl c_who else if_present h s cl c_who)
  if numargs == 1 then with_arg else if_present h s cl c_who

-- The `switch` over the command's code.
unfoldable pub handle_op : Host → Text → Text → Server → ℕ → NcmdOp → Outcome (Server × Reply)
unfolding if_present handle_who
handle_op h version os s cl msg = handle_msg h s cl
handle_op h version os s cl getqmsg = handle_getqmsg h s cl
handle_op h version os s cl getlist = handle_getlist h version os s cl
handle_op h version os s cl setpref = handle_setpref h s cl
handle_op h version os s cl getpref = handle_getpref h s cl
handle_op h version os s cl chatdoor = handle_chatdoor h s cl
handle_op h version os s cl c_who = handle_who h s cl
handle_op h version os s cl c_door = if_present h s cl c_door
handle_op h version os s cl c_nick = if_present h s cl c_nick
handle_op h version os s cl c_away = if_present h s cl c_away
handle_op h version os s cl c_ban = if_present h s cl c_ban
handle_op h version os s cl c_beep = if_present h s cl c_beep
handle_op h version os s cl c_deop = if_present h s cl c_deop
handle_op h version os s cl c_kick = if_present h s cl c_kick
handle_op h version os s cl c_me = if_present h s cl c_me
handle_op h version os s cl c_op = if_present h s cl c_op
handle_op h version os s cl c_oper = if_present h s cl c_oper
handle_op h version os s cl c_psay = if_present h s cl c_psay
handle_op h version os s cl c_say = if_present h s cl c_say
handle_op h version os s cl c_unban = if_present h s cl c_unban
handle_op h version os s cl _ = ok (s, error)

-- ls_handle_netcmd()
unfoldable pub ls_handle_netcmd : Host → Text → Text → Server → ℕ → Outcome (Server × Reply)
unfolding handle_op
ls_handle_netcmd h version os s cl = do
  c ← client_at s cl
  n ← ncmd_get c.buf
  on_option (of_code n) (ok (s, error)) λ op. handle_op h version os s cl op
