-- ===== src/Server/Keeps/History.antt =====
-- The dispatch of commands and the table.
use smsg.Base.{ℕ}
use smsg.Base.Text.{Text}
use smsg.Ncmd.Opcode.{
  NcmdOp, msg, getqmsg, getlist, setpref, getpref, chatdoor, c_door, c_away, c_ban, c_beep, c_deop,
  c_kick, c_me, c_nick, c_op, c_oper, c_psay, c_say, c_unban, c_who,
}
use smsg.Host.{Host}
use smsg.Server.{Server, normal, error}
use smsg.Server.Dispatch.{handle_chatcmd, if_present, handle_who, handle_op, ls_handle_netcmd}
use smsg.Server.Evolution.{Evolves-refl}
use smsg.Server.Keeps.{Keeps, keeps_ok, bind-Keeps, if_Keeps_table, option-Keeps}
use smsg.Server.Keeps.Talk.{
  chat_nick-Keeps, chat_away-Keeps, chat_beep-Keeps, chat_oper-Keeps, chat_psay-Keeps,
  chat_say-Keeps, chat_who-Keeps, chat_moderate-Keeps,
}
use smsg.Server.Keeps.Entry.{handle_chatdoor-Keeps}
use smsg.Server.Keeps.Desk.{
  handle_msg-Keeps, handle_getqmsg-Keeps, handle_getlist-Keeps, handle_setpref-Keeps,
  handle_getpref-Keeps,
}

module _ (h : Host) (s : Server) (cl : ℕ) where
  handle_chatcmd-Keeps : (op : NcmdOp) → Keeps s.udata (handle_chatcmd h s cl op)
  unfolding handle_chatcmd
  handle_chatcmd-Keeps c_nick = chat_nick-Keeps h s cl
  handle_chatcmd-Keeps c_away = chat_away-Keeps h s cl
  handle_chatcmd-Keeps c_beep = chat_beep-Keeps h s cl
  handle_chatcmd-Keeps c_oper = chat_oper-Keeps h s cl
  handle_chatcmd-Keeps c_psay = chat_psay-Keeps h s cl
  handle_chatcmd-Keeps c_say = chat_say-Keeps h s cl c_say
  handle_chatcmd-Keeps c_me = chat_say-Keeps h s cl c_me
  handle_chatcmd-Keeps c_who = chat_who-Keeps h s cl
  handle_chatcmd-Keeps c_ban = chat_moderate-Keeps h s cl c_ban
  handle_chatcmd-Keeps c_deop = chat_moderate-Keeps h s cl c_deop
  handle_chatcmd-Keeps c_kick = chat_moderate-Keeps h s cl c_kick
  handle_chatcmd-Keeps c_op = chat_moderate-Keeps h s cl c_op
  handle_chatcmd-Keeps c_unban = chat_moderate-Keeps h s cl c_unban
  handle_chatcmd-Keeps _ = keeps_ok s normal (Evolves-refl s.udata)

  if_present-Keeps : (op : NcmdOp) → Keeps s.udata (if_present h s cl op)
  unfolding if_present
  if_present-Keeps op =
      search (bind-Keeps, if_Keeps_table, handle_chatcmd-Keeps, keeps_ok, Evolves-refl) depth 6

  handle_who-Keeps : Keeps s.udata (handle_who h s cl)
  unfolding handle_who
  handle_who-Keeps =
      search (bind-Keeps, if_Keeps_table, handle_chatcmd-Keeps, if_present-Keeps) depth 9

  handle_op-Keeps :
      (version os : Text) (op : NcmdOp) → Keeps s.udata (handle_op h version os s cl op)
  unfolding handle_op
  handle_op-Keeps version os msg = handle_msg-Keeps h s cl
  handle_op-Keeps version os getqmsg = handle_getqmsg-Keeps h s cl
  handle_op-Keeps version os getlist = handle_getlist-Keeps h version os s cl
  handle_op-Keeps version os setpref = handle_setpref-Keeps h s cl
  handle_op-Keeps version os getpref = handle_getpref-Keeps h s cl
  handle_op-Keeps version os chatdoor = handle_chatdoor-Keeps h s cl
  handle_op-Keeps version os c_who = handle_who-Keeps
  handle_op-Keeps version os c_door = if_present-Keeps c_door
  handle_op-Keeps version os c_nick = if_present-Keeps c_nick
  handle_op-Keeps version os c_away = if_present-Keeps c_away
  handle_op-Keeps version os c_ban = if_present-Keeps c_ban
  handle_op-Keeps version os c_beep = if_present-Keeps c_beep
  handle_op-Keeps version os c_deop = if_present-Keeps c_deop
  handle_op-Keeps version os c_kick = if_present-Keeps c_kick
  handle_op-Keeps version os c_me = if_present-Keeps c_me
  handle_op-Keeps version os c_op = if_present-Keeps c_op
  handle_op-Keeps version os c_oper = if_present-Keeps c_oper
  handle_op-Keeps version os c_psay = if_present-Keeps c_psay
  handle_op-Keeps version os c_say = if_present-Keeps c_say
  handle_op-Keeps version os c_unban = if_present-Keeps c_unban
  handle_op-Keeps version os _ = keeps_ok s error (Evolves-refl s.udata)

  pub ls_handle_netcmd-Keeps :
      (version os : Text) → Keeps s.udata (ls_handle_netcmd h version os s cl)
  unfolding ls_handle_netcmd
  ls_handle_netcmd-Keeps version os =
      search (bind-Keeps, option-Keeps, handle_op-Keeps, keeps_ok, Evolves-refl) depth 9
