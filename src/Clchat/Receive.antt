-- ===== src/Clchat/Receive.antt =====
-- clchat.c, chatter_func(): what comes from the server.
pub mod Cases
pub mod Loop
pub mod Stream
pub mod Total
pub mod Ends
use smsg.Base.{
  ℕ, zero, suc, ◌+◌, ◌-◌, ◌/◌, ◌%◌, List, [], ◌∷◌, ◌++◌, length, Bool, true, false, not, ◌&&◌, ◌||◌,
  ◌==◌, ltb, if◌then◌else◌, Option, none, some, on_option,
}
use smsg.Base.Outcome.{Outcome, ok, failed, fault, ◌>>=◌}
use smsg.Base.Text.{Text, literal, text_eq}
use smsg.Ncmd.{ncmd_iscomplete, ncmd_get, ncmd_getnumargs, ncmd_remove}
use smsg.Ncmd.Names.{ncmd_getname}
use smsg.Ncmd.Opcode.{
  NcmdOp, code, of_code, c_door, c_away, c_me, c_oper, c_psay, c_nick, c_say, c_ban, c_beep, c_deop,
  c_kick, c_op, c_unban, c_who, unknown, msg, getqmsg, qmsg, getlist, list, setpref, getpref, pref,
  chatdoor, ack, nak, c_bs, c_clear, c_help, c_log, c_priv, c_quit,
}
use smsg.Calls.{fetch, set_cmd}
use smsg.Server.Prefs.{byte_of}
use smsg.Client.{Machine, string_of, Got, recv_failed, peer_gone, got, receive}
use smsg.Clchat.Output.{lcc_asay, lcc_culist_add}

-- What chatter_func() keeps of the chat, and the commands it sent. `targ0` and `targ1` are the
-- pointers of the receiving block; a null nick is `none`.
pub record Chat : Type 0 where
  pub nick : Option Text
  pub away : Bool
  pub operator : Bool
  pub kicked : ℕ
  pub culist : List Text
  pub req_who : Bool
  pub shown : Text
  pub sent : List (List ℕ)
  pub targ0 : Option (List ℕ)
  pub targ1 : Option (List ℕ)

abbrev pub asay : ℕ → Text → Chat → Chat
asay prefix text s = record s { shown = s.shown ++ lcc_asay prefix text }

abbrev pub want_who : Chat → Chat
want_who s = record s { req_who = true }

-- `ncmd_getarg(rbuf, rbuf_len, &targ0, &targ0_len, k, addzero)`, and into `targ1` with the NUL.
unfoldable pub into_targ0 : Machine → List ℕ → ℕ → Bool → Chat → Outcome Chat
into_targ0 m rbuf k addzero s =
    fetch m.memory rbuf s.targ0 k addzero >>= λ t. ok (record s { targ0 = t })

unfoldable pub into_targ1 : Machine → List ℕ → ℕ → Chat → Outcome Chat
into_targ1 m rbuf k s = fetch m.memory rbuf s.targ1 k true >>= λ t. ok (record s { targ1 = t })

-- A line with a string in it.
unfoldable pub say_of : ℕ → Text → Option (List ℕ) → Text → Chat → Outcome Chat
say_of prefix before targ behind s =
    string_of targ >>= λ t. ok (asay prefix (before ++ (t ++ behind)) s)

unfoldable pub say_of_two :
    ℕ → Option (List ℕ) → Text → Option (List ℕ) → Text → Chat → Outcome Chat
say_of_two prefix targ between other behind s = string_of targ >>= λ t.
    string_of other >>= λ u. ok (asay prefix (t ++ (between ++ (u ++ behind))) s)

-- `strcmp(targ, nick) == 0`
unfoldable pub is_nick : Option (List ℕ) → Option Text → Outcome Bool
is_nick targ none = fault
is_nick targ (some nick) = string_of targ >>= λ t. ok (text_eq t nick)

-- strdup()
abbrev pub duplicate : Machine → Text → Option Text
duplicate m t = if m.memory.copies t then some t else none

-- Both arguments, with their NULs.
unfoldable pub both_args : Machine → List ℕ → Chat → Outcome Chat
both_args m rbuf s = into_targ0 m rbuf 0 true s >>= λ s. into_targ1 m rbuf 1 s
