-- ===== src/Server/Keeps/Talk.antt =====
-- The chat commands of servchat.c and the table.
use smsg.Base.{
  ℕ, ◌≡◌, refl, List, Bool, true, false, Option, none, some, arith, if_keeps, if◌then◌else◌, not,
}
use smsg.Base.Outcome.{ok}
use smsg.Base.Text.{Text, text_eq}
use smsg.Ncmd.Opcode.{NcmdOp}
use smsg.Udata.{UdataEnt, has_nick, udata_get_by_nick, udata_def_entry, udata_flagset}
use smsg.Host.{Host}
use smsg.Server.{Server, normal, with_udata, lcs_send_ncmd, lcs_dist_ncmd}
use smsg.Server.Chat.{
  chat_nick, change_nick, chat_away, switch_away, chat_beep, flag_away, flag_operator,
  lcs_leet_password,
}
use smsg.Server.Speech.{chat_oper, try_password, chat_psay, deliver, chat_say}
use smsg.Server.Moderation.{chat_moderate, by_operator, moderate, moderated}
use smsg.Server.Who.{chat_who}
use smsg.Server.Evolution.{Evolves, Evolves-refl, Evolves-given, first-test, first-has_user}
use smsg.Server.Bans.{Evolves-update_any, Evolves-flagset, Evolves-flagunset, Evolves-moderated}
use smsg.Server.Keeps.{
  deref-Keeps, after_send, keeps_ok, Keeps, bind-Keeps, if_Keeps_table, option-Keeps,
  lcs_send-Keeps, lcs_dist-Keeps,
}

ruleset keeps_rules = (
  bind-Keeps, if_Keeps_table, option-Keeps, lcs_send-Keeps, lcs_dist-Keeps, keeps_ok, after_send,
  Evolves-refl,
)

module _ (h : Host) (s : Server) where
  change_nick-Keeps :
      (tud : UdataEnt) (targ0 : Option Text) → Keeps s.udata (change_nick h s tud targ0)
  unfolding change_nick
  change_nick-Keeps tud targ0 =
      let nue = record udata_def_entry { user = tud.user; nick = targ0 } in
      let updated = Evolves-update_any h.memory s.udata nue tud.user refl in
      search (keeps_rules, updated) depth 9

  pub chat_nick-Keeps : (cl : ℕ) → Keeps s.udata (chat_nick h s cl)
  unfolding chat_nick
  chat_nick-Keeps cl = search (keeps_rules, change_nick-Keeps) depth 12

  switch_away-Keeps :
      (tud : UdataEnt) (user : Text) (targ0 : Option (List ℕ))
      → Keeps s.udata (switch_away h s tud user targ0)
  unfolding switch_away
  switch_away-Keeps tud user targ0 =
      let switched =
        if_keeps (Evolves s.udata) tud.flags.away (Evolves-flagunset s.udata user flag_away refl)
          (Evolves-flagset s.udata user flag_away refl refl) in
      search (keeps_rules, switched) depth 9

  pub chat_away-Keeps : (cl : ℕ) → Keeps s.udata (chat_away h s cl)
  unfolding chat_away
  chat_away-Keeps cl = search (keeps_rules, switch_away-Keeps) depth 12

  pub chat_beep-Keeps : (cl : ℕ) → Keeps s.udata (chat_beep h s cl)
  unfolding chat_beep
  chat_beep-Keeps cl = search keeps_rules depth 12

  pub chat_psay-Keeps : (cl : ℕ) → Keeps s.udata (chat_psay h s cl)
  unfolding chat_psay deliver
  chat_psay-Keeps cl = search keeps_rules depth 14

  pub chat_say-Keeps : (cl : ℕ) (tncmd : NcmdOp) → Keeps s.udata (chat_say h s cl tncmd)
  unfolding chat_say
  chat_say-Keeps cl tncmd = search keeps_rules depth 12

  pub chat_who-Keeps : (cl : ℕ) → Keeps s.udata (chat_who h s cl)
  unfolding chat_who
  chat_who-Keeps cl = search keeps_rules depth 16

  granted :
      (s' : Server) (fd : Option ℕ) (user : Text) (sbuf : List ℕ)
      → s'.udata ≡ s.udata
      → Keeps s.udata (
          ok (
            (lcs_dist_ncmd h
                (with_udata s' (udata_flagset s'.udata user flag_operator).0)
                sbuf
                none).0,
            normal,
          ))
  granted s' fd user sbuf same =
      lcs_dist-Keeps s.udata h _ sbuf none normal
        (rw same (Evolves-flagset s.udata user flag_operator refl refl))

  refused :
      (s' : Server) (fd : Option ℕ) (sbuf : List ℕ)
      → s'.udata ≡ s.udata
      → Keeps s.udata (ok ((lcs_send_ncmd h s' sbuf fd).0, normal))
  refused s' fd sbuf same =
      lcs_send-Keeps s.udata h s' sbuf fd normal (rw same (Evolves-refl s.udata))

  leet_same : (b : Bool) → (if b then record s { beleet = not s.beleet } else s).udata ≡ s.udata
  leet_same true = refl
  leet_same false = refl

  try_password-Keeps :
      (fd : Option ℕ) (tud : UdataEnt) (password : Text)
      → Keeps s.udata (try_password h s fd tud password)
  unfolding try_password
  try_password-Keeps fd tud password =
      let same = leet_same (text_eq password lcs_leet_password) in
      search (bind-Keeps, if_Keeps_table, granted, refused, same) depth 9

  pub chat_oper-Keeps : (cl : ℕ) → Keeps s.udata (chat_oper h s cl)
  unfolding chat_oper
  chat_oper-Keeps cl = search (keeps_rules, try_password-Keeps) depth 12

  -- A user that was found by nick is present.
  moderated_found :
      (nick : Option Text) (tud : UdataEnt)
      → udata_get_by_nick s.udata nick ≡ some tud
      → (tncmd : NcmdOp) (user : Text) → tud.user ≡ some user
      → Evolves s.udata (moderated h s.udata user tncmd)
  unfolding udata_get_by_nick
  moderated_found none tud f tncmd user n = cc
  moderated_found (some nick) tud f tncmd user n = Evolves-given λ o.
      let found = first-has_user (has_nick nick) s.udata tud user o.distinct f n in
      let hit = first-test (has_nick nick) s.udata tud f in
      let present : tud.flags.present ≡ true = ground arith in
      Evolves-moderated h s.udata user tncmd
        (λ e g. let same : e ≡ tud = ground arith in rw same present)

  moderate-Keeps :
      (tncmd : NcmdOp) (nick : Option Text) (tud : UdataEnt) (tnick : Option Text)
      → udata_get_by_nick s.udata nick ≡ some tud
      → Keeps s.udata (moderate h s tncmd tud tnick)
  unfolding moderate
  moderate-Keeps tncmd nick tud tnick f = deref-Keeps s.udata tud.user _ λ user n.
      bind-Keeps s.udata _ _
        λ sbuf. lcs_dist-Keeps s.udata h _ sbuf none _ (moderated_found nick tud f tncmd user n)

  by_operator-Keeps :
      (tncmd : NcmdOp) (buf : List ℕ) (fd : Option ℕ) (sender : UdataEnt)
      → Keeps s.udata (by_operator h s tncmd buf fd sender)
  unfolding by_operator
  by_operator-Keeps tncmd buf fd sender = search (keeps_rules, moderate-Keeps) depth 12

  pub chat_moderate-Keeps : (cl : ℕ) (tncmd : NcmdOp) → Keeps s.udata (chat_moderate h s cl tncmd)
  unfolding chat_moderate
  chat_moderate-Keeps cl tncmd = search (keeps_rules, by_operator-Keeps) depth 12
