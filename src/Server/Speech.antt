-- ===== src/Server/Speech.antt =====
-- servchat.c, handle_chatcmd(): messages to one or to all, and the operator password.
use smsg.Base.{on_option, ℕ, List, [], ◌∷◌, true, not, ltb, if◌then◌else◌, Option, none, some}
use smsg.Base.Outcome.{Outcome, ok, ◌>>=◌}
use smsg.Base.Text.{Text, text_eq}
use smsg.Ncmd.{ncmd_getnumargs}
use smsg.Ncmd.Opcode.{NcmdOp, code, c_oper, c_psay}
use smsg.Udata.{UdataEnt, udata_get_by_nick, udata_get_by_fd, udata_flagset}
use smsg.Host.{Host}
use smsg.Server.Chat.{flag_operator, lcs_oper_password, lcs_leet_password}
use smsg.Server.Leet.{lcs_msg_translate}
use smsg.Server.Userinfo.{lcs_compose_name}
use smsg.Server.{
  Server, Reply, normal, client_at, with_udata, lcs_dist_ncmd, lcs_send_ncmd, compose, fetch, deref,
  text_of,
}

-- `case C_OPER` for the present user `tud` who supplied `password`.
unfoldable pub try_password : Host → Server → Option ℕ → UdataEnt → Text → Outcome (Server × Reply)
try_password h s fd tud password = do
  let s' = if text_eq password lcs_leet_password then record s { beleet = not s.beleet } else s
  let granted = (do
    user ← deref tud.user
    sbuf ← compose h.memory [] (code c_oper) (tud.nick ∷ [])
    ok (
      (lcs_dist_ncmd h (with_udata s' (udata_flagset s'.udata user flag_operator).0) sbuf none).0,
      normal,
    ))
  let refused = (do
    sbuf ← compose h.memory [] (code c_oper) []
    ok ((lcs_send_ncmd h s' sbuf fd).0, normal))
  if text_eq password lcs_oper_password then granted else refused

unfoldable pub chat_oper : Host → Server → ℕ → Outcome (Server × Reply)
unfolding try_password
chat_oper h s cl = do
  c ← client_at s cl
  numargs ← ncmd_getnumargs c.buf
  let supplied = (do
    targ0 ← fetch h.memory c.buf none 0 true
    on_option (udata_get_by_fd s.udata c.fd) (ok (s, normal))
        λ tud. deref (text_of targ0) >>= λ password. try_password h s c.fd tud password)
  if ltb 0 numargs then supplied else ok (s, normal)

-- `case C_PSAY` where both users are present.
unfoldable pub deliver :
    Host → Server → Option ℕ → UdataEnt → UdataEnt → Option (List ℕ) → Outcome (Server × Reply)
deliver h s fd tud_sender tud targ1 = do
  sbuf ← compose h.memory [] (code c_psay) (tud_sender.nick ∷ targ1 ∷ [])
  let s' = (lcs_send_ncmd h s sbuf tud.fd).0
  sbuf ← compose h.memory sbuf (code c_psay) (tud_sender.nick ∷ tud.nick ∷ targ1 ∷ [])
  ok ((lcs_send_ncmd h s' sbuf fd).0, normal)

unfoldable pub chat_psay : Host → Server → ℕ → Outcome (Server × Reply)
unfolding deliver
chat_psay h s cl = do
  c ← client_at s cl
  targ0 ← fetch h.memory c.buf none 0 true
  targ1 ← fetch h.memory c.buf none 1 true
  let absent = (do
    sbuf ← compose h.memory [] (code c_psay) (targ0 ∷ [])
    ok ((lcs_send_ncmd h s sbuf c.fd).0, normal))
  on_option (udata_get_by_fd s.udata c.fd) absent λ tud_sender.
      on_option (udata_get_by_nick s.udata (text_of targ0)) absent
        λ tud. deliver h s c.fd tud_sender tud targ1

-- `case C_SAY: case C_ME`. Translating writes through the pointer.
unfoldable pub chat_say : Host → Server → ℕ → NcmdOp → Outcome (Server × Reply)
chat_say h s cl tncmd = do
  c ← client_at s cl
  targ0 ← fetch h.memory c.buf none 0 true
  ts ← lcs_compose_name h s cl
  let said : Option (List ℕ) = elim targ0 [
    | none ↦ none
    | some b ↦ some (if s.beleet then lcs_msg_translate b 1 else b)
  ]
  sbuf ← compose h.memory [] (code tncmd) (some ts ∷ said ∷ [])
  ok ((lcs_dist_ncmd h s sbuf none).0, normal)
