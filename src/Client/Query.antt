-- ===== src/Client/Query.antt =====
-- client.c: getmessage() and getlist().
use smsg.Base.{
  ℕ, zero, suc, ◌+◌, ◌-◌, ◌/◌, List, [], ◌∷◌, ◌++◌, length, Bool, true, false, ◌==◌, if◌then◌else◌,
  Option, none, some, on_option, ltb,
}
use smsg.Base.Outcome.{Outcome, ok, ◌>>=◌}
use smsg.Base.Text.{Text, literal}
use smsg.Ncmd.{ncmd_getnumargs}
use smsg.Ncmd.Opcode.{code, getqmsg, qmsg, getlist, list, nak}
use smsg.Calls.{compose, fetch}
use smsg.Server.Prefs.{byte_of}
use smsg.Client.Send.{if_complete, local_host}
use smsg.Client.{
  Machine, Session, silent, say, no_user, connect_to_server, transmit, receive, on_reply,
  unexpected, say_reason, string_of,
}

-- How many messages are left, by the text of argument 0.
abbrev pub say_left : Machine → Session → Text → Session
say_left m s text =
    if m.atoi text == 0
    then say s (literal "There are no messages left on the queue.\n")
    else say s (
        literal "There are "
        ++ (m.decimal (m.atoi text) ++ literal " messages left on the queue.\n"))

-- The message, of which the arguments 2, 3, 1 and 4 are shown; `targ` is what the pointer held.
unfoldable pub say_message : Machine → Session → List ℕ → Option (List ℕ) → Outcome Session
say_message m s rbuf targ = do
  targ ← fetch m.memory rbuf targ 2 true
  shown_2 ← string_of targ
  targ ← fetch m.memory rbuf targ 3 true
  shown_3 ← string_of targ
  targ ← fetch m.memory rbuf targ 1 true
  shown_1 ← string_of targ
  targ ← fetch m.memory rbuf targ 4 true
  shown_4 ← string_of targ
  ok (
      say s (
        literal "Queued message from "
        ++ (shown_2
            ++ (literal "@"
                ++ (shown_3
                    ++ (literal " sent on"
                        ++ (literal " "
                            ++ (shown_1 ++ (literal ":\n" ++ (shown_4 ++ literal "\n"))))))))))

-- `case QMSG`; atoi() of a null pointer is a fault.
unfoldable pub say_queued : Machine → Session → List ℕ → Outcome Session
say_queued m s rbuf = do
  targ ← fetch m.memory rbuf none 0 true
  text ← string_of targ
  let s' = say_left m s text
  numargs ← ncmd_getnumargs rbuf
  if ltb 1 numargs
      then say_message m s' rbuf targ
      else ok (say s' (literal "There are no queued messages.\n"))

unfoldable pub queued_reply : Machine → Session → List ℕ → ℕ → Outcome Session
queued_reply m s rbuf op =
    if op == code qmsg
    then say_queued m s rbuf
    else if op == code nak
    then say_reason m s rbuf
        (literal "error getting queued message (which does -not- mean there are none) (")
        (literal ")\n")
    else unexpected m s op (literal "QMSG or NAK")

unfoldable pub getmessage_as : Machine → Text → ℕ → Option (List ℕ) → Outcome (Session × Bool)
getmessage_as m pw_name port received =
    let (s, peeraddr) = connect_to_server m silent local_host port in
    on_option peeraddr (ok (s, false)) λ address.
      compose m.memory [] (code getqmsg) (some pw_name ∷ []) >>= λ sbuf.
      let s' = transmit m s (literal "message") sbuf in
      on_reply m s' (receive m.memory [] received) ok
        (λ rbuf. if_complete rbuf s' (queued_reply m s' rbuf))
      >>= λ t. ok (t, true)

unfoldable pub getmessage : Machine → ℕ → Option (List ℕ) → Outcome (Session × Bool)
getmessage m port received =
    on_option m.login_name (ok (no_user m silent, false))
      λ pw_name. getmessage_as m pw_name port received

-- `switch(targ1[0])`; 255 is the char -1.
abbrev pub mesg_state : ℕ → Text
mesg_state b =
    if b == 255
    then literal "  ?  "
    else if b == 0
    then literal "  n  "
    else if b == 1
    then literal "  y  "
    else literal " huh "

-- `for(i=2; i<t; i+=2)`, with so many rounds to go.
unfoldable pub say_users :
    Machine → Session → List ℕ → Option (List ℕ) → Option (List ℕ) → ℕ → ℕ → Outcome Session
say_users m s rbuf targ0 targ1 zero i = ok s
say_users m s rbuf targ0 targ1 (suc rounds) i = do
  targ0 ← fetch m.memory rbuf targ0 i false
  targ1 ← fetch m.memory rbuf targ1 (i + 1) false
  state ← byte_of targ1
  user ← string_of targ0
  say_users m (say s (mesg_state state ++ (user ++ literal "\n"))) rbuf targ0 targ1 rounds (i + 2)

-- `case LIST`; a loop to `t` in steps of two takes `(t - 1) / 2` rounds.
unfoldable pub say_list : Machine → Session → ℕ → List ℕ → Outcome Session
say_list m s address rbuf = do
  targ0 ← fetch m.memory rbuf none 0 true
  targ1 ← fetch m.memory rbuf none 1 true
  version ← string_of targ0
  os ← string_of targ1
  let s' = say s (
      literal "server v"
      ++ (version
          ++ (literal " running on "
              ++ (os ++ (literal " at " ++ (m.ntoa address ++ literal "\nmesg user\n"))))))
  t ← ncmd_getnumargs rbuf
  if t == 2
      then ok (say s' (literal "no users logged in\n"))
      else say_users m s' rbuf targ0 targ1 ((t - 1) / 2) 2

unfoldable pub list_reply : Machine → Session → ℕ → List ℕ → ℕ → Outcome Session
list_reply m s address rbuf op =
    if op == code list
    then say_list m s address rbuf
    else if op == code nak
    then say_reason m s rbuf (literal "error getting user listing (") (literal ")\n")
    else unexpected m s op (literal "LIST or NAK")

-- `else say("got %i bytes\n", rbuf_len)`
abbrev pub got_bytes : Machine → Session → List ℕ → Session
got_bytes m s rbuf = say s (literal "got " ++ (m.decimal (length rbuf) ++ literal " bytes\n"))

unfoldable pub getlist_session : Machine → Text → ℕ → Option (List ℕ) → Outcome (Session × Bool)
getlist_session m targethost port received =
    let (s, peeraddr) = connect_to_server m silent targethost port in
    on_option peeraddr (ok (s, false)) λ address. compose m.memory [] (code getlist) [] >>= λ sbuf.
    let s' = transmit m s (literal "list request") sbuf in
    on_reply m s' (receive m.memory [] received) ok
      (λ rbuf. if_complete rbuf (got_bytes m s' rbuf) (list_reply m s' address rbuf))
    >>= λ t. ok (t, true)
