-- ===== src/Client/Exchange.antt =====
-- The client and the server together: what client.c sends is what server.c handles, and what the
-- client makes of the reply.
use smsg.Base.{
  ℕ, ◌+◌, ◌≡◌, refl, ap, ◌∙◌, List, [], ◌∷◌, ◌++◌, true, false, Option, some, get_elem?, length,
  suc, arith, ◌==◌, on_option,
}
use smsg.Base.Outcome.{Outcome, ok, ◌>>=◌}
use smsg.Base.Memory.{Memory, IsPlentiful}
use smsg.Base.Text.{Text, text_eq_refl, literal, has_nul, c_string-terminated, has_nul-terminated}
use smsg.Ncmd.Opcode.{code, ack, setpref}
use smsg.Ncmd.Frame.{Command, encode, encode_args, IsSized, length-encode}
use smsg.Ncmd.Complete.{ncmd_iscomplete-encode}
use smsg.Ncmd.Argument.{ncmd_get-encode}
use smsg.Calls.Encode.{compose-encode, command}
use smsg.Host.{Host, local_address, isloggedin}
use smsg.Server.{Server, normal}
use smsg.Server.Prefs.{handle_setpref}
use smsg.Server.Preferences.{wishes, assign, wishes-udata_update}
use smsg.Server.Settings.{set_request, after_setpref, handle_setpref_lem}
use smsg.Server.Loop.{recvbuf}
use smsg.Client.{
  Machine, Session, silent, connect_to_server, transmit, receive, got, on_reply, string_of,
}
use smsg.Client.Send.{sendprefs, sendprefs_as, prefs_reply, if_complete, or_empty, local_host}

-- The user is known, and a server takes the connection and all that is sent to it.
pub record Reaches (m : Machine) (host : Text) (port address : ℕ) (user : Text) : Type 0 where
  pub named : m.login_name ≡ some user
  pub resolved : m.resolves host ≡ some address
  pub opened : m.socket ≡ true
  pub connected : m.connects address port ≡ true
  pub all_sent : (sbuf : List ℕ) → m.sends sbuf ≡ true

pub connect_lem :
    (m : Machine) (s : Session) (host user : Text) (port address : ℕ)
    → Reaches m host port address user
    → connect_to_server m s host port ≡ (s, some address)
unfolding connect_to_server
connect_lem m s host user port address r = rw (r.resolved, r.opened, r.connected) refl

pub transmit_lem :
    (m : Machine) (s : Session) (host user what : Text) (port address : ℕ) (sbuf : List ℕ)
    → Reaches m host port address user
    → transmit m s what sbuf ≡ record s { sent = s.sent ++ (sbuf ∷ []) }
unfolding transmit
transmit_lem m s host user what port address sbuf r = rw (r.all_sent sbuf) refl

receive_lem :
    (m : Memory) (b : ℕ) (bs : List ℕ) → IsPlentiful m → receive m [] (some (b ∷ bs)) ≡ got (b ∷ bs)
unfolding receive recvbuf
receive_lem m b bs p = rw (p.all_granted (length {A = ℕ} [] + suc (length bs))) refl

-- A user who is known.
pub logged_in_as {ℓ} :
    {A : Type ℓ} {o : Option Text} {user : Text} (x : A) (f : Text → A)
    → o ≡ some user
    → on_option o x f ≡ f user
logged_in_as x f h = ap (λ o. on_option o x f) h

-- A reply comes in whole, with the bytes that follow it.
pub receive-encode :
    (m : Memory) (c : Command) (rest : List ℕ)
    → IsPlentiful m
    → receive m [] (some (encode c ++ rest)) ≡ got (encode c ++ rest)
unfolding encode
receive-encode m c rest p = receive_lem m _ _ p

pub if_complete-encode :
    (c : Command) (rest : List ℕ) (s : Session) (switch : ℕ → Outcome Session)
    → IsSized c
    → if_complete (encode c ++ rest) s switch ≡ switch c.op
unfolding if_complete
if_complete-encode c rest s switch h =
    let nonempty : (length (encode c) == 0) ≡ false = ground (arith, length-encode c) in
    rw (ncmd_iscomplete-encode c rest h, nonempty, ncmd_get-encode c rest h) refl

-- An argument that was fetched with its NUL is the string that was sent.
pub string_of-sent : (a : Text) → has_nul a ≡ false → string_of (some (a ++ (0 ∷ []))) ≡ ok a
unfolding string_of
string_of-sent a h = rw (has_nul-terminated a, c_string-terminated a h) refl

-- The whole reply is taken to the `switch`.
pub reply_taken :
    (m : Machine) (s : Session) (incomplete : List ℕ → Session) (c : Command) (rest : List ℕ)
    (switch : List ℕ → ℕ → Outcome Session)
    → IsPlentiful m.memory
    → IsSized c
    → on_reply m s
        (receive m.memory [] (some (encode c ++ rest)))
        ok
        (λ rbuf. if_complete rbuf (incomplete rbuf) (switch rbuf))
      ≡ switch (encode c ++ rest) c.op
unfolding on_reply
reply_taken m s incomplete c rest switch p h =
    rw (receive-encode m.memory c rest p)
      (if_complete-encode c rest (incomplete (encode c ++ rest)) (switch (encode c ++ rest)) h)

ack_IsSized : IsSized (command (code ack) [])
unfolding code encode encode_args
ack_IsSized = record { op_word = omega arith; args_word = omega arith; size_int = omega arith }

sendprefs_lem :
    (m : Machine) (user : Text) (tty : Option Text) (beep mode port address : ℕ) (rest : List ℕ)
    → IsPlentiful m.memory
    → Reaches m local_host port address user
    → sendprefs m tty beep mode port (some (encode (command (code ack) []) ++ rest))
      ≡ ok (
        record {
          sent = encode (set_request user (or_empty tty) beep mode) ∷ [];
          said = literal "preferences set\n";
          errors = [];
        },
        true,
      )
unfolding sendprefs on_reply prefs_reply code
sendprefs_lem m user tty beep mode port address rest p r =
    let c = set_request user (or_empty tty) beep mode in
    let s' : Session = record silent { sent = encode c ∷ [] } in
    logged_in_as _
      (λ pw_name.
        sendprefs_as m pw_name tty beep mode port (some (encode (command (code ack) []) ++ rest)))
      r.named
    ∙ (unfold sendprefs_as in
        rw
          (
            connect_lem m silent local_host user port address r,
            compose-encode m.memory [] (code setpref)
                (some user ∷ some (or_empty tty) ∷ some (beep ∷ []) ∷ some (mode ∷ []) ∷ []) p,
            transmit_lem m silent local_host user (literal "message") port address (encode c) r,
          )
          (ap (λ o. o >>= λ t. ok (t, true))
            (reply_taken m s' (λ rbuf. s') (command (code ack) []) rest (prefs_reply m s') p
              ack_IsSized)))

-- For a user who is logged in, whom client and server know, and with memory plentiful, sendprefs()
-- sends one SETPREF with the terminal, beep and mode given, an empty text for no terminal. A server
-- with that request at the head of a local connection's buffer answers ACK and gives the user these
-- preferences, each that is left out kept as it was; and on ACK the client says that the
-- preferences are set. The strings have no NUL, and the request fits the format.
pub sendprefs-handle_setpref :
    (m : Machine) (h : Host) (s : Server) (cl fd port address beep mode : ℕ) (user : Text)
    (tty : Option Text) (rest rest' : List ℕ)
    → IsPlentiful m.memory
    → IsPlentiful h.memory
    → Reaches m local_host port address user
    → h.user_exists user ≡ true
    → isloggedin h user ≡ true
    → has_nul user ≡ false
    → has_nul (or_empty tty) ≡ false
    → IsSized (set_request user (or_empty tty) beep mode)
    → get_elem? s.clients cl
      ≡ some (record {
        fd = some fd;
        address = local_address;
        buf = encode (set_request user (or_empty tty) beep mode) ++ rest;
      })
    → (sendprefs m tty beep mode port (some (encode (command (code ack) []) ++ rest'))
        ≡ ok (
          record {
            sent = encode (set_request user (or_empty tty) beep mode) ∷ [];
            said = literal "preferences set\n";
            errors = [];
          },
          true,
        ))
      × (handle_setpref h s cl ≡ ok (after_setpref h s fd user (or_empty tty) beep mode, normal))
      × ((after_setpref h s fd user (or_empty tty) beep mode).sent
          ≡ s.sent ++ ((fd, encode (command (code ack) [])) ∷ []))
      × (wishes (after_setpref h s fd user (or_empty tty) beep mode).udata user
          ≡ assign (some (or_empty tty)) beep mode (wishes s.udata user))
sendprefs-handle_setpref m h s cl fd port address beep mode user tty rest rest' p p' r known
      logged_in n nt sized at_cl =
    (
      sendprefs_lem m user tty beep mode port address rest' p r,
      handle_setpref_lem h s cl fd rest user p' known n (or_empty tty) beep mode sized nt logged_in
          at_cl,
      refl,
      wishes-udata_update h.memory s.udata user user (some (or_empty tty)) beep mode p'
          ∙ rw (text_eq_refl user) refl,
    )
