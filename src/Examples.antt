-- ===== src/Examples.antt =====
-- A host, a command and a server, for the concrete runs.
pub mod Commands
pub mod Table
pub mod Histories
pub mod Clients
pub mod Asking
pub mod Options
pub mod Programs
pub mod Chats
pub mod Lines
pub mod Talk
use smsg.Base.{
  if◌then◌else◌, ◌&&◌, not, ◌+◌, ◌<◌, get_elem?, ℕ, ◌≡◌, ◌≤◌, refl, List, [], ◌∷◌, ◌++◌, length,
  replicate, take, Bool, true, false, Option, none, some, arith, ltb,
}
use smsg.Base.Outcome.{Outcome, ok, failed, fault, ◌>>=◌}
use smsg.Base.Memory.{Memory, IsPlentiful, realloc, overwrite}
use smsg.Base.Text.{Text, literal, text_eq, c_string}
use smsg.Ncmd.{
  past, scan_args, skip_args, count_arg, ncmd_set, ncmd_add, ncmd_iscomplete, ncmd_get,
  ncmd_getnumargs, ncmd_getarg, ncmd_remove,
}
use smsg.Ncmd.Words.{store_nl, store_ns, read_nl, read_ns}
use smsg.Ncmd.Opcode.{NcmdOp, code, of_code, c_unban, c_kick}
use smsg.Ncmd.Frame.{Command, encode, encode_args, IsSized}
use smsg.Ncmd.Complete.{ncmd_iscomplete-encode, ncmd_iscomplete-take}
use smsg.Ncmd.Argument.{ncmd_getarg-encode, reply_of}
use smsg.Ncmd.Build.{build-encode, build_read, add_all}
use smsg.Ncmd.Overlong.{ncmd_iscomplete_overlong, announced}
use smsg.Udata.Distinct.{
  IsDistinct, Call, adds, removes, apply_all, udata_get-udata_remove, apply_all-IsDistinct,
}
use smsg.Queue.{mq_get, mq_getnum}
use smsg.Server.Permanence.{run_bans, run-initial}
use smsg.Server.Message.{get_queued}
use smsg.Server.Chat.{flag_away}
use smsg.Server.Userinfo.{labelled, labelled_fits}
use smsg.Server.Loop.Slots.{IsBounded, accept_client_lem}
use smsg.Udata.{
  first, is_some, udata_get, udata_add, udata_update, update_entry, udata_flagset, udata_flagunset,
  udata_remove, add_flags, drop_flags, new_entry, udata_get_by_fd, udata_get_by_nick, UdataEnt,
  Flags, no_flags, udata_def_entry, udata_def,
}
use smsg.Host.{Host, local_address}
use smsg.Server.{fetch, compose, lcs_send_ncmd, normal, Server, Client, max_clients}
use smsg.Server.Dispatch.{ls_handle_netcmd}
use smsg.Server.Door.{handle_chatdoor}
use smsg.Server.Moderation.{chat_moderate}
use smsg.Server.Loop.{run, step, Event, received, connected, unused_client, initial, accept_client}
use smsg.Server.Evolution.{IsOrderly, is_banned}

abbrev pub memory : Memory
memory = record { grants = λ n. true; entry = true; copies = λ s. true; junk = 170 }

pub memory-IsPlentiful : IsPlentiful memory
memory-IsPlentiful = record { all_granted = λ n. refl; all_entries = refl; all_copied = λ s. refl }

abbrev pub host : Host
host = record {
  memory = memory;
  user_exists = λ user. true;
  utmp = [];
  group_writable = λ path. true;
  opens = λ path. true;
  sends = λ fd msg. true;
  ntoa = λ address. literal "127.0.0.1";
  strerror = literal "out of memory";
  time_text = λ login. literal " [12:00]";
  decimal = λ n. literal "1";
  ent_size = 80;
}

-- The present operator "al", and "bo" who is banned.
abbrev pub al : UdataEnt
al = record udata_def_entry {
  user = some (literal "al");
  nick = some (literal "al");
  fd = some 5;
  flags = record no_flags { present = true; operator = true };
}

abbrev pub bo : UdataEnt
bo = record udata_def_entry {
  user = some (literal "bo");
  flags = record no_flags { banned = true };
}

abbrev pub server : Server
server = record {
  udata = al ∷ bo ∷ [];
  clients = record { fd = some 5; address = local_address; buf = [] } ∷ replicate 110 unused_client;
  num_clients = 1;
  beleet = false;
  sent = [];
  written = [];
}

pub server-IsOrderly : IsOrderly server.udata
unfolding first text_eq
server-IsOrderly = record { distinct = (refl, (refl, tt)); barred = (refl, (refl, tt)) }

abbrev pub unban : Command
unban = record { op = 30; args = literal "bo" ∷ [] }
