-- ===== src/Server/Moderation.antt =====
-- servchat.c, handle_chatcmd(): what operators do to users, `case C_BAN: case C_DEOP: case C_KICK:
-- case C_OP: case C_UNBAN`.
use smsg.Base.{
  on_option, ℕ, suc, List, [], ◌∷◌, Bool, true, false, ltb, if◌then◌else◌, Option, none, some,
}
use smsg.Base.Outcome.{Outcome, ok, ◌>>=◌}
use smsg.Base.Text.{Text}
use smsg.Ncmd.{ncmd_getnumargs}
use smsg.Ncmd.Opcode.{NcmdOp, code, c_ban, c_deop, c_kick, c_op, c_unban}
use smsg.Udata.{
  UdataEnt, Flags, no_flags, udata_get_by_nick, udata_get_by_fd, udata_update, udata_flagset,
  udata_flagunset, udata_def_entry, fd_eq,
}
use smsg.Host.{Host}
use smsg.Server.Chat.{flag_operator, strdup}
use smsg.Server.{
  Server, Client, Reply, normal, kick, client_at, with_udata, lcs_dist_ncmd, lcs_send_ncmd, compose,
  fetch, deref, text_of,
}

abbrev pub flag_banned : Flags
flag_banned = record no_flags { banned = true }

-- What a user loses with the presence.
abbrev pub flags_of_presence : Flags
flags_of_presence = record {
  operator = true;
  away = true;
  present = true;
  banned = false;
  superuser = true;
}

-- The inner `switch(tncmd)`.
unfoldable pub change_flags : List UdataEnt → Text → NcmdOp → List UdataEnt
change_flags l user c_ban = (udata_flagset l user flag_banned).0
change_flags l user c_deop = (udata_flagunset l user flag_operator).0
change_flags l user c_op = (udata_flagset l user flag_operator).0
change_flags l user c_unban = (udata_flagunset l user flag_banned).0
change_flags l user _ = l

-- The first element of clients[] with that fd.
unfoldable pub index_of_fd : Option ℕ → ℕ → List Client → Reply
index_of_fd fd i [] = normal
index_of_fd fd i (c ∷ cs) =
    let rest = index_of_fd fd (suc i) cs in if fd_eq c.fd fd then kick i else rest

-- `tncmd == C_BAN || tncmd == C_KICK`
abbrev pub throws_out : NcmdOp → Bool
throws_out c_ban = true
throws_out c_kick = true
throws_out _ = false

-- udata_update() with no nick and no fd, then udata_flagunset().
unfoldable pub throw_out : Host → List UdataEnt → Text → List UdataEnt
throw_out h l user =
    (udata_flagunset (udata_update h.memory l (record udata_def_entry { user = some user })).0 user
      flags_of_presence).0

unfoldable pub moderated : Host → List UdataEnt → Text → NcmdOp → List UdataEnt
unfolding change_flags throw_out
moderated h l user tncmd =
    if throws_out tncmd
    then throw_out h (change_flags l user tncmd) user
    else change_flags l user tncmd

-- The operator with the nick `tnick` does `tncmd` to the present user `tud`.
unfoldable pub moderate : Host → Server → NcmdOp → UdataEnt → Option Text → Outcome (Server × Reply)
unfolding moderated
moderate h s tncmd tud tnick = do
  user ← deref tud.user
  sbuf ← compose h.memory [] (code tncmd) (tud.nick ∷ tnick ∷ [])
  let retval = if throws_out tncmd then index_of_fd tud.fd 0 s.clients else normal
  ok ((lcs_dist_ncmd h (with_udata s (moderated h s.udata user tncmd)) sbuf none).0, retval)

-- The command of a sender who is an operator.
unfoldable pub by_operator :
    Host → Server → NcmdOp → List ℕ → Option ℕ → UdataEnt → Outcome (Server × Reply)
unfolding moderate
by_operator h s tncmd buf fd sender = do
  nick ← deref sender.nick
  targ0 ← fetch h.memory buf none 0 true
  let absent = (do
    sbuf ← compose h.memory [] (code tncmd) (text_of targ0 ∷ [])
    ok ((lcs_send_ncmd h s sbuf fd).0, normal))
  on_option (udata_get_by_nick s.udata (text_of targ0)) absent
      λ tud. moderate h s tncmd tud (strdup h nick)

unfoldable pub chat_moderate : Host → Server → ℕ → NcmdOp → Outcome (Server × Reply)
unfolding by_operator
chat_moderate h s cl tncmd = do
  c ← client_at s cl
  numargs ← ncmd_getnumargs c.buf
  let refused = (do
    sbuf ← compose h.memory [] (code tncmd) []
    ok ((lcs_send_ncmd h s sbuf c.fd).0, normal))
  if ltb 0 numargs
      then (on_option (udata_get_by_fd s.udata c.fd) refused λ sender.
          if sender.flags.operator then by_operator h s tncmd c.buf c.fd sender else refused)
      else refused
