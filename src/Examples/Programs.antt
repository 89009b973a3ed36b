-- ===== src/Examples/Programs.antt =====
-- The clients on concrete input: client.c and clchat.c.
use smsg.Base.{false, ◌≡◌, ◌↔◌, refl, [], ◌∷◌, ◌++◌, length, true, some, arith, map, if◌then◌else◌}
use smsg.Base.Outcome.{ok}
use smsg.Base.Text.{Text, literal, text_eq}
use smsg.Ncmd.Opcode.{code, ack, pref, c_kick}
use smsg.Ncmd.Names.{ncmd_getname, ncmd_getnum, name, to_lower, ncmd_getnum-ncmd_getname}
use smsg.Ncmd.Frame.{Command, encode, encode_args, IsSized}
use smsg.Calls.Encode.{command}
use smsg.Udata.{udata_update}
use smsg.Host.{
  Host, local_address, isloggedin, get_userlist, userlist_loop, add_login, count_login, is_listed,
}
use smsg.Server.{Server, normal}
use smsg.Server.Prefs.{handle_setpref, handle_getpref, preferences}
use smsg.Server.Preferences.{wishes, assign, wishes-udata_update}
use smsg.Server.Settings.{
  set_request, get_request, after_setpref, with_sent, wishes_args, setpref_getpref,
}
use smsg.Client.{Machine}
use smsg.Client.Send.{sendprefs, local_host}
use smsg.Client.Exchange.{Reaches, sendprefs-handle_setpref}
use smsg.Examples.{memory, memory-IsPlentiful, host, server, al}

-- A machine whose user is "al", and a host on which "al" is logged in.
abbrev pub machine : Machine
machine = record {
  memory = memory;
  login_name = some (literal "al");
  resolves = λ name. some local_address;
  socket = true;
  connects = λ address port. true;
  sends = λ sbuf. true;
  ntoa = λ address. literal "127.0.0.1";
  atoi = λ text. 0;
  decimal = λ n. literal "1";
  octal = λ n. literal "010";
  strerror = literal "broken pipe";
}

abbrev busy_host : Host
busy_host = record host {
  utmp =
      record {
        is_user_process = true;
        is_login_process = false;
        ut_user = literal "al";
        ut_line = literal "tty1";
        login = 0;
      }
      ∷ [];
}

pub machine-Reaches : Reaches machine local_host 3331 local_address (literal "al")
machine-Reaches = record {
  named = refl;
  resolved = refl;
  opened = refl;
  connected = refl;
  all_sent = λ sbuf. refl;
}

al_logged_in : isloggedin busy_host (literal "al") ≡ true
unfolding isloggedin get_userlist userlist_loop add_login count_login is_listed text_eq
al_logged_in = refl

abbrev wish : Command
wish = set_request (literal "al") (literal "/dev/tty1") 1 0

wish-IsSized : IsSized wish
unfolding encode encode_args code
wish-IsSized = record { op_word = omega arith; args_word = omega arith; size_int = omega arith }

abbrev asking : Command
asking = get_request (literal "al")

asking-IsSized : IsSized asking
unfolding encode encode_args code
asking-IsSized = record { op_word = omega arith; args_word = omega arith; size_int = omega arith }

abbrev asked : Server
asked = record server {
  clients =
      record { fd = some 5; address = local_address; buf = encode wish ++ [] }
      ∷ record { fd = some 6; address = local_address; buf = encode asking ++ [] }
      ∷ [];
}

sendprefs-handle_setpref_example :
    (sendprefs machine
        (some (literal "/dev/tty1"))
        1
        0
        3331
        (some (encode (command (code ack) []) ++ []))
      ≡ ok (
        record { sent = encode wish ∷ []; said = literal "preferences set\n"; errors = [] },
        true,
      ))
    × (handle_setpref busy_host asked 0
        ≡ ok (after_setpref busy_host asked 5 (literal "al") (literal "/dev/tty1") 1 0, normal))
    × ((after_setpref busy_host asked 5 (literal "al") (literal "/dev/tty1") 1 0).sent
        ≡ asked.sent ++ ((5, encode (command (code ack) [])) ∷ []))
    × (wishes
          (after_setpref busy_host asked 5 (literal "al") (literal "/dev/tty1") 1 0).udata
          (literal "al")
        ≡ assign (some (literal "/dev/tty1")) 1 0 (wishes asked.udata (literal "al")))
sendprefs-handle_setpref_example =
    sendprefs-handle_setpref machine busy_host asked 0 5 3331 local_address 1 0 (literal "al")
      (some (literal "/dev/tty1")) [] [] memory-IsPlentiful memory-IsPlentiful machine-Reaches refl
      al_logged_in refl refl wish-IsSized refl

setpref_getpref_example :
    (handle_setpref busy_host asked 0
      ≡ ok (after_setpref busy_host asked 5 (literal "al") (literal "/dev/tty1") 1 0, normal))
    × (handle_getpref host
          (after_setpref busy_host asked 5 (literal "al") (literal "/dev/tty1") 1 0)
          1
        ≡ ok (
          with_sent (after_setpref busy_host asked 5 (literal "al") (literal "/dev/tty1") 1 0) 6 (
              command (code pref) (
                wishes_args (
                  if text_eq (literal "al") (literal "al")
                  then assign (some (literal "/dev/tty1")) 1 0 (wishes asked.udata (literal "al"))
                  else wishes asked.udata (literal "al")))),
          normal,
        ))
setpref_getpref_example =
    setpref_getpref busy_host host asked 0 1 5 6 [] [] (literal "al") (literal "al")
      (literal "/dev/tty1") 1 0 memory-IsPlentiful memory-IsPlentiful refl refl al_logged_in refl
      refl refl wish-IsSized asking-IsSized refl refl

wishes-udata_update_example :
    wishes
      (udata_update memory
        (al ∷ [])
        (preferences (some (literal "al")) (some (literal "/dev/tty1")) 1 254)).0
      (literal "al")
    ≡ (if text_eq (literal "al") (literal "al")
        then assign (some (literal "/dev/tty1")) 1 254 (wishes (al ∷ []) (literal "al"))
        else wishes (al ∷ []) (literal "al"))
wishes-udata_update_example =
    wishes-udata_update memory (al ∷ []) (literal "al") (literal "al") (some (literal "/dev/tty1"))
      1 254 memory-IsPlentiful

ncmd_getnum-ncmd_getname_example :
    (ncmd_getname memory (λ n. literal "1") (code c_kick) ≡ ok (name c_kick))
    × ((s : Text)
        → (ncmd_getnum s (length s) ≡ code c_kick) ↔ (map to_lower s ≡ map to_lower (name c_kick)))
ncmd_getnum-ncmd_getname_example =
    ncmd_getnum-ncmd_getname memory (λ n. literal "1") c_kick memory-IsPlentiful
