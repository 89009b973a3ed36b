-- ===== src/Examples/Histories.antt =====
-- server.c: short histories.
use smsg.Base.{ℕ, ◌≡◌, refl, List, [], ◌∷◌, true, false, Option, some, none}
use smsg.Base.Outcome.{Outcome, ok, failed, fault}
use smsg.Base.Memory.{realloc, overwrite}
use smsg.Base.Text.{Text, literal, text_eq, c_string}
use smsg.Ncmd.{
  past, scan_args, skip_args, count_arg, ncmd_set, ncmd_add, ncmd_iscomplete, ncmd_get,
  ncmd_getnumargs, ncmd_getarg, ncmd_remove,
}
use smsg.Ncmd.Words.{read_nl, read_ns}
use smsg.Ncmd.Opcode.{code, of_code}
use smsg.Ncmd.Frame.{Command, encode, encode_args}
use smsg.Udata.Distinct.{IsDistinct}
use smsg.Server.Permanence.{run_bans}
use smsg.Server.Service.{
  Site, Round, child, ready, running, served, runserver, serve, open_server, open_socket, listen_on,
  fork_off,
}
use smsg.Server.Service.Safety.{runserver-initial}
use smsg.Udata.{
  first, udata_update, udata_flagset, udata_flagunset, udata_get_by_fd, udata_get_by_nick, UdataEnt,
}
use smsg.Host.{Host, local_address}
use smsg.Server.{fetch, compose, lcs_send_ncmd, Server}
use smsg.Server.Dispatch.{ls_handle_netcmd}
use smsg.Server.Door.{handle_chatdoor}
use smsg.Server.Moderation.{chat_moderate}
use smsg.Server.Loop.{run, Event, received, connected, initial}
use smsg.Server.Evolution.{IsOrderly, is_banned}
use smsg.Examples.{host, server, server-IsOrderly, unban}

abbrev history : List (Host × Event)
history = (host, received 0 (encode unban)) ∷ (host, connected 6 local_address) ∷ []

abbrev outcome : Outcome Server → Server
outcome (ok s) = s
outcome failed = server
outcome fault = server

ran : run [] [] server history ≡ ok (outcome (run [] [] server history))
unfolding run encode read_nl read_ns past scan_args ncmd_iscomplete ncmd_get ncmd_getnumargs
    skip_args ncmd_getarg ncmd_remove ncmd_set count_arg ncmd_add realloc overwrite ls_handle_netcmd
    of_code code fetch compose text_eq c_string first udata_get_by_fd udata_get_by_nick
    chat_moderate lcs_send_ncmd encode_args
ran = refl

run_bans_example :
    IsOrderly (outcome (run [] [] server history)).udata
    × ((u : Text)
        → is_banned server.udata u ≡ true
        → is_banned (outcome (run [] [] server history)).udata u ≡ true)
run_bans_example =
    run_bans [] [] server (outcome (run [] [] server history)) history server-IsOrderly ran

-- A first connection, and its user's joining the chat.
abbrev join_command : Command
join_command = record { op = 9; args = literal "al" ∷ literal "al" ∷ [] }

abbrev arrival : List (Host × Event)
arrival = (host, connected 5 local_address) ∷ (host, received 0 (encode join_command)) ∷ []

arrived : run [] [] initial arrival ≡ ok (outcome (run [] [] initial arrival))
unfolding run encode encode_args read_nl read_ns past scan_args ncmd_iscomplete ncmd_get
    ncmd_getnumargs skip_args ncmd_getarg ncmd_remove ncmd_set count_arg ncmd_add realloc overwrite
    ls_handle_netcmd of_code code fetch compose text_eq c_string first udata_get_by_fd
    udata_get_by_nick handle_chatdoor udata_flagset udata_flagunset udata_update
arrived = refl

-- The log is not wanted, the rest succeeds.
abbrev site : Site
site = record {
  logs = false;
  logfilename = none;
  dups = true;
  fdopens = true;
  fopens = λ name. true;
  socket = true;
  binds = λ port. true;
  reuses = true;
  listens = true;
  forks = child;
  setsid = true;
  strerror = literal "no reason";
  decimal = λ n. literal "1";
}

abbrev first_round : Round
first_round = record { waiting = ready arrival; stopped = false; stopped_late = false }

arrived_served :
    runserver site [] [] 3331 true (first_round ∷ [])
    ≡ ok (served [] (outcome (run [] [] initial arrival)) running)
unfolding runserver serve open_server open_socket listen_on fork_off
arrived_served = rw arrived refl

runserver-initial_example :
    IsDistinct (outcome (run [] [] initial arrival)).udata
    × ((fd : Option ℕ) (e : UdataEnt)
        → udata_get_by_fd (outcome (run [] [] initial arrival)).udata fd ≡ some e
        → e.flags.banned ≡ false)
    × ((nick : Text) (e : UdataEnt)
        → udata_get_by_nick (outcome (run [] [] initial arrival)).udata (some nick) ≡ some e
        → e.flags.banned ≡ false)
runserver-initial_example =
    runserver-initial site [] [] 3331 true (first_round ∷ []) []
      (outcome (run [] [] initial arrival)) running arrived_served
