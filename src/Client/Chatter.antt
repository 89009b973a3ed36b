-- ===== src/Client/Chatter.antt =====
-- client.c: chatter(), which joins the chat, leaves the user to chatter_func(), and leaves.
use smsg.Base.{
  ℕ, List, [], ◌∷◌, Bool, true, false, ◌==◌, if◌then◌else◌, Option, none, some, on_option,
}
use smsg.Base.Outcome.{Outcome, ok, ◌>>=◌}
use smsg.Base.Text.{Text, literal}
use smsg.Ncmd.{ncmd_iscomplete, ncmd_get, ncmd_remove}
use smsg.Ncmd.Opcode.{code, chatdoor, ack, nak}
use smsg.Calls.{compose}
use smsg.Client.Query.{got_bytes}
use smsg.Client.{
  Machine, Session, silent, no_user, connect_to_server, transmit, receive, on_reply, unexpected,
  say_reason,
}

-- `targethost ? targethost : "localhost"`, and the like for the nick.
abbrev pub or_default : Option Text → Text → Text
or_default none text = text
or_default (some s) text = s

-- The reply to CHATDOOR: true unless it is a NAK, which ends the client with -1.
unfoldable pub door_reply : Machine → Session → List ℕ → Text → Outcome (Session × Bool)
door_reply m s rbuf refusal = ncmd_iscomplete rbuf >>= λ size.
    if size == 0
    then ok (got_bytes m s rbuf, true)
    else (ncmd_get rbuf >>= λ op.
        if op == code ack
        then ok (s, true)
        else if op == code nak
        then (say_reason m s rbuf refusal (literal ")\n") >>= λ t. ok (t, false))
        else (unexpected m s op (literal "ACK or NAK") >>= λ t. ok (t, true)))

-- One of the two exchanges: the buffer that is left, the session, and whether it goes on.
unfoldable pub door_exchange :
    Machine
    → Session
    → Text
    → List ℕ
    → List ℕ
    → Option (List ℕ)
    → Text
    → Outcome (List ℕ × (Session × Bool))
door_exchange m s what sbuf rbuf received refusal =
    let s' = transmit m s what sbuf in
    on_reply m s' (receive m.memory rbuf received) (λ t. ok (rbuf, (t, true)))
      λ t. door_reply m s' t refusal >>= λ r. ok (t, r)

-- What chatter_func() came to: the session, whether the result is above -2, and the reason.
pub record Left : Type 0 where
  pub session : Session
  pub takes_leave : Bool
  pub reason : Option Text

abbrev pub leave_args : Text → Option Text → List (Option (List ℕ))
leave_args user none = some user ∷ []
leave_args user (some reason) = some user ∷ some [] ∷ some reason ∷ []

-- From chatter_func() on.
unfoldable pub take_leave :
    Machine → Text → List ℕ → Left → Option (List ℕ) → Outcome (Session × Bool)
take_leave m pw_name rbuf left received =
    if left.takes_leave
    then (compose m.memory [] (code chatdoor) (leave_args pw_name left.reason) >>= λ sbuf.
        door_exchange m left.session (literal "chat leave request") sbuf rbuf received
          (literal "error leaving chat...this should NOT happen (")
        >>= λ r. ok r.1)
    else ok (left.session, true)

-- `chatter_func` is given the session, the nick and the host; the two results of recv() follow.
unfoldable pub chatter :
    Machine
    → (Session → Text → Text → Outcome Left)
    → Option Text
    → Option Text
    → ℕ
    → Option (List ℕ)
    → Option (List ℕ)
    → Outcome (Session × Bool)
chatter m chatter_func nick targethost port joined left =
    let shost = or_default targethost (literal "localhost") in
    on_option m.login_name (ok (no_user m silent, false)) λ pw_name.
      let (s, peeraddr) = connect_to_server m silent shost port in
      on_option peeraddr (ok (s, false)) λ address.
        compose m.memory [] (code chatdoor) (some pw_name ∷ some (or_default nick pw_name) ∷ [])
        >>= λ sbuf.
            door_exchange m s (literal "chat join request") sbuf [] joined
              (literal "error joining chat (")
            >>= λ r.
                if r.1.1
                then (ncmd_remove m.memory r.0 >>= λ rest.
                    chatter_func r.1.0 (or_default nick pw_name) shost >>= λ l.
                    take_leave m pw_name rest.0 l left)
                else ok r.1
