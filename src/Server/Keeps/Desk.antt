-- ===== src/Server/Keeps/Desk.antt =====
-- The commands that are not part of the chat, and the table.
use smsg.Base.{if◌then◌else◌, ℕ, refl, List, Bool, true, false, Option, none, some}
use smsg.Base.Outcome.{Outcome, ok, failed, fault, ◌>>=◌}
use smsg.Base.Memory.{Memory}
use smsg.Base.Text.{Text}
use smsg.Udata.{UdataEnt, udata_update, udata_def_entry, udata_get_qp, udata_set_qp}
use smsg.Ncmd.Words.{read_ns}
use smsg.Queue.{Received, Message, mq_get, finish_get, remove_oldest, copy_strings}
use smsg.Host.{Host, UserlistEnt}
use smsg.Server.{Server, Client, Reply, with_udata}
use smsg.Server.Message.{
  answer, refuse, write_tty, deliver_msg, handle_msg, answer_queued, get_queued, handle_getqmsg,
  handle_getlist, answer_list,
}
use smsg.Server.Prefs.{store_prefs, set_prefs, handle_setpref, handle_getpref}
use smsg.Server.Evolution.{Evolves, Evolves-refl}
use smsg.Server.Bans.{Evolves-update_any, Evolves-set_qp}
use smsg.Server.Keeps.{
  Keeps, keeps_failed, keeps_fault, bind-Keeps, if_Keeps_table, option-Keeps, sent-Keeps,
}

answer-Keeps :
    (l : List UdataEnt) (h : Host) (s : Server) (c : Client) (op : ℕ)
    (args : List (Option (List ℕ)))
    → Evolves l s.udata
    → Keeps l (answer h s c op args)
unfolding answer
answer-Keeps l h s c op args e = search (bind-Keeps, sent-Keeps) depth 4

refuse-Keeps :
    (l : List UdataEnt) (h : Host) (s : Server) (c : Client) (reason : Text)
    → Evolves l s.udata
    → Keeps l (refuse h s c reason)
unfolding refuse
refuse-Keeps l h s c reason e = answer-Keeps l h s c _ _ e

ruleset desk_rules =
    (bind-Keeps, if_Keeps_table, option-Keeps, answer-Keeps, refuse-Keeps, Evolves-refl)

store_prefs-Keeps :
    (h : Host) (s : Server) (c : Client) (tue : UdataEnt) → Keeps s.udata (store_prefs h s c tue)
unfolding store_prefs
store_prefs-Keeps h s c tue =
    let updated = Evolves-update_any h.memory s.udata tue tue.user refl in
    search (desk_rules, updated) depth 9

set_prefs-Keeps :
    (h : Host) (s : Server) (c : Client) (targ0 : Option (List ℕ))
    → Keeps s.udata (set_prefs h s c targ0)
unfolding set_prefs
set_prefs-Keeps h s c targ0 = search (bind-Keeps, store_prefs-Keeps) depth 12

pub handle_setpref-Keeps : (h : Host) (s : Server) (cl : ℕ) → Keeps s.udata (handle_setpref h s cl)
unfolding handle_setpref
handle_setpref-Keeps h s cl = search (desk_rules, set_prefs-Keeps) depth 12

pub handle_getpref-Keeps : (h : Host) (s : Server) (cl : ℕ) → Keeps s.udata (handle_getpref h s cl)
unfolding handle_getpref
handle_getpref-Keeps h s cl = search desk_rules depth 12

write_tty-Keeps :
    (l : List UdataEnt) (h : Host) (s : Server) (c : Client) (targ0 targ1 : Option (List ℕ))
    (path : Text) (tbeep : ℕ)
    → Evolves l s.udata
    → Keeps l (write_tty h s c targ0 targ1 path tbeep)
unfolding write_tty
write_tty-Keeps l h s c targ0 targ1 path tbeep e = search desk_rules depth 14

-- A preference that is dropped, or kept.
dropped_Evolves :
    (h : Host) (s : Server) (user : Text) (tty : Option Text) (kept : Bool)
    → Evolves s.udata
        (if kept
          then s
          else with_udata s
              (udata_update h.memory s.udata
                (record udata_def_entry { user = some user; tty = tty })).0).udata
dropped_Evolves h s user tty true = Evolves-refl s.udata
dropped_Evolves h s user tty false =
    Evolves-update_any h.memory s.udata (record udata_def_entry { user = some user; tty = tty })
      (some user) refl

deliver_msg-Keeps :
    (h : Host) (s : Server) (c : Client) (targ0 targ1 : Option (List ℕ)) (user : Text)
    → Keeps s.udata (deliver_msg h s c targ0 targ1 user)
unfolding deliver_msg
deliver_msg-Keeps h s c targ0 targ1 user =
    search (bind-Keeps, option-Keeps, refuse-Keeps, write_tty-Keeps, dropped_Evolves) depth 9

pub handle_msg-Keeps : (h : Host) (s : Server) (cl : ℕ) → Keeps s.udata (handle_msg h s cl)
unfolding handle_msg
handle_msg-Keeps h s cl = search (desk_rules, deliver_msg-Keeps) depth 14

answer_list-Keeps :
    (h : Host) (version os : Text) (s : Server) (c : Client) (o : Outcome (List UserlistEnt))
    → Keeps s.udata (answer_list h version os s c o)
unfolding answer_list
answer_list-Keeps h version os s c (ok l) = answer-Keeps s.udata h s c _ _ (Evolves-refl s.udata)
answer_list-Keeps h version os s c failed = refuse-Keeps s.udata h s c _ (Evolves-refl s.udata)
answer_list-Keeps h version os s c fault = keeps_fault

pub handle_getlist-Keeps :
    (h : Host) (version os : Text) (s : Server) (cl : ℕ)
    → Keeps s.udata (handle_getlist h version os s cl)
unfolding handle_getlist
handle_getlist-Keeps h version os s cl = search (bind-Keeps, answer_list-Keeps) depth 4

-- What a message is taken from changes its user's queue alone.
finish_get-Keeps :
    (m : Memory) (l : List UdataEnt) (user : Text) (q : List ℕ) (numleft : ℕ) (o : Outcome Message)
    (f : List UdataEnt × Received × Bool → Outcome (Server × Reply))
    → ((r : List UdataEnt × Received × Bool) → Evolves l r.0 → Keeps l (f r))
    → Keeps l (finish_get m l user q numleft o >>= f)
unfolding finish_get
finish_get-Keeps m l user q numleft (ok message) f k = after_removal (remove_oldest m q)
  where
    after_removal :
        (o : Outcome (Option (List ℕ) × Bool))
        → Keeps l (
            (o >>= λ r. ok (
              (udata_set_qp m l user r.0).0,
              record { message = some message; numleft = numleft },
              r.1,
            ))
            >>= f)
    after_removal (ok r) = k _ (Evolves-set_qp m l user r.0)
    after_removal failed = keeps_failed
    after_removal fault = keeps_fault
finish_get-Keeps m l user q numleft failed f k = k _ (Evolves-refl l)
finish_get-Keeps m l user q numleft fault f k = keeps_fault

mq_get-Keeps :
    (m : Memory) (l : List UdataEnt) (user : Text)
    (f : List UdataEnt × Received × Bool → Outcome (Server × Reply))
    → ((r : List UdataEnt × Received × Bool) → Evolves l r.0 → Keeps l (f r))
    → Keeps l (mq_get m l user >>= f)
unfolding mq_get
mq_get-Keeps m l user f k = from_queue (udata_get_qp l user)
  where
    numbered :
        (q : List ℕ) (o : Outcome ℕ)
        → Keeps l ((o >>= λ n. finish_get m l user q n (copy_strings m q)) >>= f)
    numbered q (ok n) = finish_get-Keeps m l user q n (copy_strings m q) f k
    numbered q failed = keeps_failed
    numbered q fault = keeps_fault

    from_queue :
        (o : Option (List ℕ))
        → Keeps l (
            elim o [
              | none ↦ ok (l, record { message = none; numleft = 0 }, true)
              | some q ↦ read_ns q >>= λ numleft. finish_get m l user q numleft (copy_strings m q)
            ]
            >>= f)
    from_queue none = k _ (Evolves-refl l)
    from_queue (some q) = numbered q (read_ns q)

answer_queued-Keeps :
    (l : List UdataEnt) (h : Host) (s : Server) (c : Client) (r : Received) (done : Bool)
    → Evolves l s.udata
    → Keeps l (answer_queued h s c r done)
unfolding answer_queued
answer_queued-Keeps l h s c r done e = search desk_rules depth 9

get_queued-Keeps :
    (h : Host) (s : Server) (c : Client) (user : Text) → Keeps s.udata (get_queued h s c user)
unfolding get_queued
get_queued-Keeps h s c user =
    let taken =
      mq_get-Keeps h.memory s.udata user (λ r. answer_queued h (with_udata s r.0) c r.1 r.2)
        (λ r e. answer_queued-Keeps s.udata h (with_udata s r.0) c r.1 r.2 e) in
    search (bind-Keeps, if_Keeps_table, answer-Keeps, Evolves-refl, taken) depth 5

pub handle_getqmsg-Keeps : (h : Host) (s : Server) (cl : ℕ) → Keeps s.udata (handle_getqmsg h s cl)
unfolding handle_getqmsg
handle_getqmsg-Keeps h s cl = search (desk_rules, get_queued-Keeps) depth 12
