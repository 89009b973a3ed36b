-- ===== src/Server/Message.antt =====
-- server.c, ls_handle_netcmd(): messages to a user's terminal, queued messages, and the list of
-- users, `case MSG`, `case GETQMSG`, `case GETLIST`.
use smsg.Base.{
  on_option, ℕ, suc, List, [], ◌∷◌, ◌++◌, Bool, true, not, ◌==◌, if◌then◌else◌, Option, none, some,
  length, ltb, take,
}
use smsg.Base.Outcome.{Outcome, ok, failed, fault, ◌>>=◌}
use smsg.Base.Text.{Text, literal, text_eq}
use smsg.Ncmd.Words.{store_ns}
use smsg.Ncmd.Opcode.{code, ack, nak, qmsg, list}
use smsg.Udata.{UdataEnt, udata_get, udata_update, udata_def_entry, udata_def, ttyset_unset}
use smsg.Queue.{Received, mq_get, mq_getnum}
use smsg.Host.{
  Host, UserlistEnt, islocal, iswritabletty, isontty, isloggedin, get_userlist, is_empty_text,
}
use smsg.Server.{
  Server, Client, Reply, normal, client_at, with_udata, sendbuf, compose, fetch, deref, text_of,
}

abbrev pub error_not_local : Text
error_not_local = literal "command only for local usage (make sure to use localhost)"

abbrev pub error_list_get : Text
error_list_get = literal "unable to get userlist (probably no utmp access)"

abbrev pub error_string_dup : Text
error_string_dup = literal "error duplicating string (probably a lack of available memory)"

abbrev pub error_no_user_given : Text
error_no_user_given = literal "explicit username required"

abbrev pub error_no_such_user : Text
error_no_such_user = literal "user does not exist"

abbrev pub error_user_not_logged_in : Text
error_user_not_logged_in = literal "user seems not to be logged in"

abbrev pub error_tty_open : Text
error_tty_open = literal "unable to open user's terminal"

abbrev pub error_mesg_no : Text
error_mesg_no = literal "user is denying messages...sorry"

abbrev pub error_queue_get : Text
error_queue_get = literal "error getting message from queue"

-- The reply to the client, and the handler's return.
unfoldable pub answer :
    Host → Server → Client → ℕ → List (Option (List ℕ)) → Outcome (Server × Reply)
unfolding sendbuf
answer h s c op args = do sbuf ← compose h.memory [] op args; ok ((sendbuf h s c.fd sbuf).0, normal)

unfoldable pub refuse : Host → Server → Client → Text → Outcome (Server × Reply)
unfolding answer
refuse h s c reason = answer h s c (code nak) (some reason ∷ [])

-- The path of the terminal: the preferred one, or the first in the list of logins.
unfoldable pub choose_tty : Host → Text → Option UdataEnt → Outcome (Option Text × Text)
choose_tty h user preferred =
    let from_list : Outcome (Option Text × Text) = elim (get_userlist h (some user)) [
      | ok (e ∷ l) ↦
          if h.memory.copies e.tty then ok (some e.tty, []) else ok (none, error_string_dup)
      | ok [] ↦ fault
      | failed ↦ ok (none, error_list_get)
      | fault ↦ fault
    ] in
    elim preferred [
      | none ↦ from_list
      | some e ↦ deref e.tty >>= λ tty.
          if text_eq tty ttyset_unset
          then from_list
          else if h.memory.copies tty
          then ok (some tty, [])
          else ok (none, error_string_dup)
    ]

-- What is written to the terminal: the message, and a beep if it is wanted.
abbrev pub tty_text : Host → ℕ → ℕ → Text → Text → Text
tty_text h address tbeep sender msg =
    literal "\nmessage from "
    ++ (sender
        ++ (literal "@"
            ++ (h.ntoa address
                ++ (literal ":\n"
                    ++ (msg
                        ++ (10
                            ∷ (if (if tbeep == udata_def then 1 else tbeep) == 1
                                then 7 ∷ []
                                else [])))))))

-- From the check that the user accepts messages on; `targ0` and `targ1` are what the pointers held before.
unfoldable pub write_tty :
    Host → Server → Client → Option (List ℕ) → Option (List ℕ) → Text → ℕ → Outcome (Server × Reply)
unfolding refuse answer
write_tty h s c targ0 targ1 path tbeep =
    if not (iswritabletty h path)
    then refuse h s c error_mesg_no
    else if not (h.opens path)
    then refuse h s c error_tty_open
    else (do
      sender ← fetch h.memory c.buf targ0 0 true
      msg ← fetch h.memory c.buf targ1 2 true
      from ← deref (text_of sender)
      body ← deref (text_of msg)
      answer h
          (record s { written = s.written ++ ((path, tty_text h c.address tbeep from body) ∷ []) })
          c (code ack) [])

-- The stored beep, the preference dropped if the user is not on that terminal.
unfoldable pub deliver_msg :
    Host → Server → Client → Option (List ℕ) → Option (List ℕ) → Text → Outcome (Server × Reply)
unfolding choose_tty write_tty refuse
deliver_msg h s c targ0 targ1 user = do
  let e = udata_get s.udata (some user)
  let tbeep : ℕ = elim e [ none ↦ udata_def | some e ↦ e.beep ]
  kept ← elim e [ none ↦ ok true | some e ↦ deref e.tty >>= λ tty. isontty h user tty ]
  let unset = record udata_def_entry { user = some user; tty = some ttyset_unset }
  let s' = if kept then s else with_udata s (udata_update h.memory s.udata unset).0
  chosen ← choose_tty h user (if kept then e else none)
  on_option chosen.0 (refuse h s' c chosen.1) λ path. write_tty h s' c targ0 targ1 path tbeep

-- `case MSG`
unfoldable pub handle_msg : Host → Server → ℕ → Outcome (Server × Reply)
unfolding deliver_msg refuse
handle_msg h s cl = do
  c ← client_at s cl
  sender ← fetch h.memory c.buf none 0 true
  targ1 ← fetch h.memory c.buf none 1 true
  targ0 ← fetch h.memory c.buf sender 1 true
  let named = (λ (user : Text).
      if is_empty_text user
      then refuse h s c error_no_user_given
      else if not (h.user_exists user)
      then refuse h s c error_no_such_user
      else if not (isloggedin h user)
      then refuse h s c error_user_not_logged_in
      else deliver_msg h s c targ0 targ1 user)
  on_option (text_of targ0) (refuse h s c error_no_user_given) named

-- `n` bytes from a string on; its NUL is the last that may be read.
unfoldable pub bytes_of : Text → ℕ → Outcome (List ℕ)
bytes_of s n = if ltb (suc (length s)) n then fault else ok (take n (s ++ (0 ∷ [])))

-- The message that was taken from the queue, or the refusal.
unfoldable pub answer_queued : Host → Server → Client → Received → Bool → Outcome (Server × Reply)
unfolding answer bytes_of
answer_queued h s c r done =
    if done
    then (on_option r.message
        (answer h s c (code qmsg) (some (store_ns r.numleft) ∷ none ∷ none ∷ none ∷ none ∷ []))
        λ m. answer h s c (code qmsg) (
          some (store_ns r.numleft)
          ∷ some m.msg
          ∷ some m.sendtime
          ∷ some m.sender
          ∷ some m.source_ip
          ∷ []))
    else (bytes_of error_no_such_user (length error_queue_get) >>= λ reason.
        answer h s c (code nak) (some reason ∷ []))

unfoldable pub get_queued : Host → Server → Client → Text → Outcome (Server × Reply)
unfolding answer answer_queued
get_queued h s c user = do
  num ← mq_getnum s.udata user
  if num == 0
      then answer h s c (code qmsg) (some (0 ∷ 0 ∷ []) ∷ [])
      else (mq_get h.memory s.udata user >>= λ r. answer_queued h (with_udata s r.0) c r.1 r.2)

-- `case GETQMSG`
unfoldable pub handle_getqmsg : Host → Server → ℕ → Outcome (Server × Reply)
unfolding get_queued refuse
handle_getqmsg h s cl = do
  c ← client_at s cl
  targ0 ← fetch h.memory c.buf none 0 true
  if not (islocal c.address)
      then refuse h s c error_not_local
      else (deref (text_of targ0) >>= λ user.
          if h.user_exists user then get_queued h s c user else refuse h s c error_no_such_user)

-- One user of the reply to GETLIST: the name, and whether the terminal takes messages.
unfoldable pub list_entries : Host → List UserlistEnt → List (Option (List ℕ))
list_entries h [] = []
list_entries h (e ∷ l) =
    let rest = list_entries h l in
    if e.count == 0
    then []
    else some e.name ∷ some ((if iswritabletty h e.tty then 1 else 0) ∷ []) ∷ rest

unfoldable pub answer_list :
    Host → Text → Text → Server → Client → Outcome (List UserlistEnt) → Outcome (Server × Reply)
unfolding list_entries answer refuse
answer_list h version os s c (ok l) =
    answer h s c (code list) (some version ∷ some os ∷ list_entries h l)
answer_list h version os s c failed = refuse h s c error_list_get
answer_list h version os s c fault = fault

-- `case GETLIST`; the build gives the version and the name of the system.
unfoldable pub handle_getlist : Host → Text → Text → Server → ℕ → Outcome (Server × Reply)
unfolding answer_list
handle_getlist h version os s cl = do
  c ← client_at s cl
  answer_list h version os s c (get_userlist h none)
