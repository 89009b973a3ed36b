-- ===== src/Server/Chat.antt =====
-- servchat.c, handle_chatcmd(): the commands by which a present user talks.
use smsg.Base.{on_option, ℕ, List, [], ◌∷◌, true, ◌==◌, ltb, if◌then◌else◌, Option, none, some}
use smsg.Base.Outcome.{Outcome, ok, ◌>>=◌}
use smsg.Base.Text.{Text, literal}
use smsg.Ncmd.{ncmd_getnumargs}
use smsg.Ncmd.Opcode.{code, c_nick, c_away, c_beep}
use smsg.Udata.{
  UdataEnt, Flags, no_flags, udata_get, udata_get_by_nick, udata_get_by_fd, udata_update,
  udata_flagset, udata_flagunset, udata_def_entry, is_some,
}
use smsg.Host.{Host}
use smsg.Server.{
  Server, Reply, normal, client_at, with_udata, lcs_dist_ncmd, lcs_send_ncmd, compose, fetch, deref,
  text_of,
}

abbrev pub flag_away : Flags
flag_away = record no_flags { away = true }

abbrev pub flag_operator : Flags
flag_operator = record no_flags { operator = true }

abbrev pub lcs_oper_password : Text
lcs_oper_password = literal "0pm3n0w"

abbrev pub lcs_leet_password : Text
lcs_leet_password = literal "Elitairderder"

-- strdup() whose result is not checked.
abbrev pub strdup : Host → Text → Option Text
strdup h s = if h.memory.copies s then some s else none

-- `case C_NICK` where the nick `targ0` is free.
unfoldable pub change_nick : Host → Server → UdataEnt → Option Text → Outcome (Server × Reply)
change_nick h s tud targ0 = do
  old ← deref tud.nick
  let s' =
      with_udata s
        (udata_update h.memory s.udata (record udata_def_entry { user = tud.user; nick = targ0 })).0
  now ← deref (udata_get s'.udata tud.user)
  sbuf ← compose h.memory [] (code c_nick) (now.nick ∷ strdup h old ∷ [])
  ok ((lcs_dist_ncmd h s' sbuf none).0, normal)

unfoldable pub chat_nick : Host → Server → ℕ → Outcome (Server × Reply)
unfolding change_nick
chat_nick h s cl = do
  c ← client_at s cl
  tud ← deref (udata_get_by_fd s.udata c.fd)
  numargs ← ncmd_getnumargs c.buf
  let asked = (do
    sbuf ← compose h.memory [] (code c_nick) (tud.nick ∷ [])
    ok ((lcs_send_ncmd h s sbuf c.fd).0, normal))
  let wanted = (do
    targ0 ← fetch h.memory c.buf none 0 true
    let in_use = (do
      sbuf ← compose h.memory [] (code c_nick) []
      ok ((lcs_send_ncmd h s sbuf c.fd).0, normal))
    if is_some (udata_get_by_nick s.udata (text_of targ0))
        then in_use
        else change_nick h s tud (text_of targ0))
  if ltb 0 numargs then wanted else asked

-- `case C_AWAY` for a user `tud` with the name `user`.
unfoldable pub switch_away :
    Host → Server → UdataEnt → Text → Option (List ℕ) → Outcome (Server × Reply)
switch_away h s tud user targ0 = do
  let away = tud.flags.away
  let l =
      if away
      then (udata_flagunset s.udata user flag_away).0
      else (udata_flagset s.udata user flag_away).0
  let reason : List (Option (List ℕ)) = elim targ0 [ none ↦ [] | some r ↦ some r ∷ [] ]
  sbuf ← compose h.memory [] (code c_away) (some ((if away then 0 else 1) ∷ []) ∷ tud.nick ∷ reason)
  ok ((lcs_dist_ncmd h (with_udata s l) sbuf none).0, normal)

unfoldable pub chat_away : Host → Server → ℕ → Outcome (Server × Reply)
unfolding switch_away
chat_away h s cl = client_at s cl >>= λ c.
    on_option (udata_get_by_fd s.udata c.fd) (ok (s, normal)) λ tud. do
      numargs ← ncmd_getnumargs c.buf
      targ0 ← if ltb 0 numargs then fetch h.memory c.buf none 0 true else ok none
      user ← deref tud.user
      switch_away h s tud user targ0

unfoldable pub chat_beep : Host → Server → ℕ → Outcome (Server × Reply)
chat_beep h s cl = do
  c ← client_at s cl
  sbuf ← compose h.memory [] (code c_beep) []
  numargs ← ncmd_getnumargs c.buf
  let to_one = (do
    targ0 ← fetch h.memory c.buf none 0 true
    let absent = (do
      sbuf ← compose h.memory sbuf (code c_beep) (text_of targ0 ∷ [])
      ok ((lcs_send_ncmd h s sbuf c.fd).0, normal))
    on_option (udata_get_by_nick s.udata (text_of targ0)) absent
        λ tud. ok ((lcs_send_ncmd h s sbuf tud.fd).0, normal))
  if numargs == 0 then ok ((lcs_dist_ncmd h s sbuf (some cl)).0, normal) else to_one
