-- ===== src/Client/Send.antt =====
-- client.c: sendmessage() and sendprefs().
use smsg.Base.{
  ℕ, List, [], ◌∷◌, ◌++◌, length, Bool, true, false, ◌==◌, if◌then◌else◌, Option, none, some,
  on_option,
}
use smsg.Base.Outcome.{Outcome, ok, ◌>>=◌}
use smsg.Base.Text.{Text, literal}
use smsg.Ncmd.{ncmd_iscomplete, ncmd_get}
use smsg.Ncmd.Opcode.{code, msg, setpref, ack, nak}
use smsg.Calls.{compose}
use smsg.Client.{
  Machine, Session, silent, say, no_user, connect_to_server, transmit, receive, on_reply,
  unexpected, say_reason,
}

-- " %s@%s:%i\n" or " %s:%i\n", by whether there is a target user; without the newline, `ending` is
-- empty.
abbrev pub destination : Machine → Option Text → ℕ → ℕ → Text → Text
destination m none address port ending =
    literal " " ++ (m.ntoa address ++ (literal ":" ++ (m.decimal port ++ literal "\n")))
destination m (some user) address port ending =
    literal " "
    ++ (user ++ (literal "@" ++ (m.ntoa address ++ (literal ":" ++ (m.decimal port ++ ending)))))

-- The `switch` on the reply to MSG, `size` bytes having been sent.
unfoldable pub message_reply :
    Machine → Session → Option Text → ℕ → ℕ → ℕ → List ℕ → ℕ → Outcome Session
message_reply m s targetuser address port size rbuf op =
    if op == code ack
    then ok (
        say s (
          literal "succesfully sent message of "
          ++ (m.decimal size
              ++ (literal " bytes to" ++ destination m targetuser address port (literal "\n")))))
    else if op == code nak
    then (let s' = say s (
          literal "error delivering message of "
          ++ (m.decimal size
              ++ (literal " bytes to" ++ destination m targetuser address port []))) in
        say_reason m s' rbuf (literal " (") (literal ")\n"))
    else unexpected m s op (literal "ACK or NAK")

-- A reply that is not complete is passed over.
unfoldable pub if_complete : List ℕ → Session → (ℕ → Outcome Session) → Outcome Session
if_complete rbuf s switch =
    ncmd_iscomplete rbuf >>= λ size. if size == 0 then ok s else (ncmd_get rbuf >>= switch)

-- The session, and whether 0 is returned; `received` is the result of recv().
unfoldable pub sendmessage_as :
    Machine → Text → Text → Text → Option Text → ℕ → Option (List ℕ) → Outcome (Session × Bool)
sendmessage_as m pw_name msgdata targethost targetuser port received =
    let (s, peeraddr) = connect_to_server m silent targethost port in
    on_option peeraddr (ok (s, false)) λ address.
      compose m.memory [] (code msg) (some pw_name ∷ targetuser ∷ some msgdata ∷ []) >>= λ sbuf.
      let s' = transmit m s (literal "message") sbuf in
      on_reply m s' (receive m.memory [] received) ok (λ rbuf.
        if_complete rbuf s' (message_reply m s' targetuser address port (length sbuf) rbuf))
      >>= λ t. ok (t, true)

unfoldable pub sendmessage :
    Machine → Text → Text → Option Text → ℕ → Option (List ℕ) → Outcome (Session × Bool)
sendmessage m msgdata targethost targetuser port received =
    on_option m.login_name (ok (no_user m silent, false))
      λ pw_name. sendmessage_as m pw_name msgdata targethost targetuser port received

-- The `switch` on the reply to SETPREF.
unfoldable pub prefs_reply : Machine → Session → List ℕ → ℕ → Outcome Session
prefs_reply m s rbuf op =
    if op == code ack
    then ok (say s (literal "preferences set\n"))
    else if op == code nak
    then say_reason m s rbuf (literal "error setting preferences (") (literal ")\n")
    else unexpected m s op (literal "ACK or NAK")

-- LOCAL_ADDRESS, as the text that the client resolves.
abbrev pub local_host : Text
local_host = literal "127.0.0.1"

abbrev pub or_empty : Option Text → Text
or_empty none = []
or_empty (some s) = s

unfoldable pub sendprefs_as :
    Machine → Text → Option Text → ℕ → ℕ → ℕ → Option (List ℕ) → Outcome (Session × Bool)
sendprefs_as m pw_name tty beep mode port received =
    let (s, peeraddr) = connect_to_server m silent local_host port in
    on_option peeraddr (ok (s, false)) λ address.
      compose m.memory [] (code setpref)
        (some pw_name ∷ some (or_empty tty) ∷ some (beep ∷ []) ∷ some (mode ∷ []) ∷ [])
      >>= λ sbuf.
          let s' = transmit m s (literal "message") sbuf in
          on_reply m s' (receive m.memory [] received) ok
            (λ rbuf. if_complete rbuf s' (prefs_reply m s' rbuf))
          >>= λ t. ok (t, true)

unfoldable pub sendprefs :
    Machine → Option Text → ℕ → ℕ → ℕ → Option (List ℕ) → Outcome (Session × Bool)
sendprefs m tty beep mode port received =
    on_option m.login_name (ok (no_user m silent, false))
      λ pw_name. sendprefs_as m pw_name tty beep mode port received
