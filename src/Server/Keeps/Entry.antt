-- ===== src/Server/Keeps/Entry.antt =====
-- Joining and leaving the chat, and the table.
use smsg.Base.{
  on_option, if◌then◌else◌, ℕ, ◌≡◌, refl, List, Bool, false, Option, none, some, arith, if_keeps,
}
use smsg.Base.Outcome.{◌>>=◌}
use smsg.Base.Text.{Text}
use smsg.Udata.{
  UdataEnt, first, modify, has_user, is_some, udata_get, update_named, update_entry, udata_flagset,
  udata_flagunset, udata_def_entry, add_flags, drop_flags,
}
use smsg.Udata.Lookup.{udata_update-some, KeepsUser}
use smsg.Udata.Distinct.{update-KeepsUser}
use smsg.Host.{Host}
use smsg.Server.{Server, Client, deref, with_udata, send_all, text_of}
use smsg.Server.Message.{refuse, answer}
use smsg.Server.Moderation.{throw_out}
use smsg.Server.Door.{
  entered, all_flags, flag_present, join, leave, with_entry, handle_chatdoor, is_leaving,
  error_internal,
}
use smsg.Server.Evolution.{Evolves, Evolves-refl, Evolves-trans, Evolves-modify, modify-modify}
use smsg.Server.Bans.{Evolves-throw_out, Evolves-add}
use smsg.Server.Keeps.{
  Keeps, keeps_fault, bind-Keeps, if_Keeps_table, option-Keeps, sent-Keeps, after_send_all,
  if_Keeps_case, Keeps-from,
}

-- The entry of a user who joins: none of the flags but presence.
present_only : UdataEnt → UdataEnt
present_only e = add_flags flag_present (drop_flags all_flags e)

mark_present :
    (l : List UdataEnt) (user : Text) (change : UdataEnt → UdataEnt) (tuent : UdataEnt)
    → KeepsUser change
    → first (has_user user) l ≡ some tuent
    → tuent.flags.banned ≡ false
    → Evolves l (modify (has_user user) (λ e. present_only (change e)) l)
unfolding present_only
mark_present l user change tuent same f nb =
    Evolves-modify user (λ e. present_only (change e)) l same
      (λ e g b. let eq : e ≡ tuent = ground arith in rw eq (ground arith))

flags_after :
    (l : List UdataEnt) (user : Text) (change : UdataEnt → UdataEnt)
    → KeepsUser change
    → (udata_flagset
        (udata_flagunset (modify (has_user user) change l) user all_flags).0
        user
        flag_present).0
      ≡ modify (has_user user) (λ e. present_only (change e)) l
unfolding udata_flagset udata_flagunset present_only
flags_after l user change same =
    rw (modify-modify user change (drop_flags all_flags) l same)
      (modify-modify user (λ e. drop_flags all_flags (change e)) (add_flags flag_present) l same)

flags_after_none :
    (l : List UdataEnt) (user : Text)
    → (udata_flagset (udata_flagunset l user all_flags).0 user flag_present).0
      ≡ modify (has_user user) present_only l
unfolding udata_flagset udata_flagunset present_only
flags_after_none l user =
    modify-modify user (drop_flags all_flags) (add_flags flag_present) l (λ e. refl)

-- A user who is not banned may come in.
pub Evolves-entered :
    (h : Host) (l : List UdataEnt) (user : Text) (nick : Option Text) (fd : Option ℕ)
    (tuent : UdataEnt)
    → first (has_user user) l ≡ some tuent
    → tuent.flags.banned ≡ false
    → Evolves l (entered h l user nick fd)
unfolding entered update_named udata_get udata_flagset
Evolves-entered h l user nick fd tuent f nb =
    let nue = record udata_def_entry { user = some user; nick = nick; fd = fd } in
    rw (udata_update-some h.memory l nue user refl, f)
      (rw (flags_after l user (update_entry h.memory nue) (update-KeepsUser h.memory nue)) (
        mark_present l user (update_entry h.memory nue) tuent (update-KeepsUser h.memory nue) f nb))

gone :
    (h : Host) (s : Server) (msg fds : List ℕ) (user : Text)
    → Evolves s.udata (throw_out h (send_all h s msg fds).0.udata user)
gone h s msg fds user =
    Evolves-trans (after_send_all s.udata h s msg fds (Evolves-refl s.udata))
      (Evolves-throw_out h _ user)

ruleset entry_rules = (bind-Keeps, if_Keeps_case, sent-Keeps, after_send_all, Evolves-refl)

module _ (h : Host) (s : Server) where
  leave-Keeps :
      (cl : ℕ) (c : Client) (user : Text) (tuent : UdataEnt) (numargs : ℕ) (targ1 : Option (List ℕ))
      → Keeps s.udata (leave h s cl c user tuent numargs targ1)
  unfolding leave
  leave-Keeps cl c user tuent numargs targ1 = search (entry_rules, gone) depth 12

  join-Keeps :
      (cl : ℕ) (c : Client) (user : Text) (tuent : UdataEnt) (nick : Option Text)
      → first (has_user user) s.udata ≡ some tuent
      → Keeps s.udata (join h s cl c user tuent nick)
  unfolding join
  join-Keeps cl c user tuent nick f =
      let came_in =
        λ (nb : tuent.flags.banned ≡ false). Evolves-entered h s.udata user nick c.fd tuent f nb in
      search (entry_rules, came_in) depth 14

  with_entry-Evolves : (user : Option Text) → Evolves s.udata (with_entry h s.udata user)
  unfolding with_entry
  with_entry-Evolves user =
      if_keeps (Evolves s.udata) (is_some (udata_get s.udata user)) (Evolves-refl s.udata)
        (Evolves-add h.memory s.udata (record udata_def_entry { user = user }) user refl)

chatdoor_user :
    (h : Host) (s : Server) (cl : ℕ) (c : Client) (user : Text) (tuent : UdataEnt) (numargs : ℕ)
    (targ1 : Option (List ℕ)) (leaving : Bool)
    → first (has_user user) s.udata ≡ some tuent
    → Keeps s.udata (
        if leaving
        then leave h s cl c user tuent numargs targ1
        else join h s cl c user tuent (text_of targ1))
chatdoor_user h s cl c user tuent numargs targ1 leaving f =
    if_Keeps_table s.udata leaving _ _ (leave-Keeps h s cl c user tuent numargs targ1)
      (join-Keeps h s cl c user tuent (text_of targ1) f)

chatdoor_named :
    (h : Host) (s : Server) (cl : ℕ) (c : Client) (p : Option Text) (tuent : UdataEnt) (numargs : ℕ)
    (targ1 : Option (List ℕ)) (leaving : Bool)
    → udata_get s.udata p ≡ some tuent
    → Keeps s.udata (
        deref p >>= λ user.
        if leaving
        then leave h s cl c user tuent numargs targ1
        else join h s cl c user tuent (text_of targ1))
unfolding udata_get
chatdoor_named h s cl c none tuent numargs targ1 leaving f = keeps_fault
chatdoor_named h s cl c (some user) tuent numargs targ1 leaving f =
    chatdoor_user h s cl c user tuent numargs targ1 leaving f

chatdoor_from :
    (l : List UdataEnt) (h : Host) (s : Server) (cl : ℕ) (c : Client) (p : Option Text)
    (numargs : ℕ) (targ1 : Option (List ℕ))
    → Evolves l s.udata
    → Keeps l (
        on_option (udata_get s.udata p) (refuse h s c error_internal) λ tuent. deref p >>= λ user.
        if is_leaving numargs targ1
        then leave h s cl c user tuent numargs targ1
        else join h s cl c user tuent (text_of targ1))
unfolding refuse answer
chatdoor_from l h s cl c p numargs targ1 e = Keeps-from l s.udata _ e (
    option-Keeps s.udata (udata_get s.udata p) _ _ (search entry_rules depth 9)
      (λ tuent f. chatdoor_named h s cl c p tuent numargs targ1 (is_leaving numargs targ1) f))

pub handle_chatdoor-Keeps :
    (h : Host) (s : Server) (cl : ℕ) → Keeps s.udata (handle_chatdoor h s cl)
unfolding handle_chatdoor
handle_chatdoor-Keeps h s cl =
    let at_door = λ (c : Client) (targ0 : Option (List ℕ)) (numargs : ℕ) (targ1 : Option (List ℕ)).
      chatdoor_from s.udata h (with_udata s (with_entry h s.udata (text_of targ0))) cl c
        (text_of targ0) numargs targ1 (with_entry-Evolves h s (text_of targ0)) in
    search (bind-Keeps, at_door) depth 9
