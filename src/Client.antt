-- ===== src/Client.antt =====
-- client.c: the one-shot commands of the client. A run is a `Session`: what was sent and said. What
-- the machine and the peer do is given: `Machine`, and the result of each recv().
pub mod Send
pub mod Query
pub mod Chatter
pub mod Exchange
pub mod Misread
pub mod Overread
use smsg.Base.{
  ℕ, suc, ◌≡◌, List, [], ◌∷◌, ◌++◌, length, Bool, true, false, not, ◌==◌, if◌then◌else◌, Option,
  none, some, map, on_option,
}
use smsg.Base.Outcome.{Outcome, ok, failed, fault, ◌>>=◌}
use smsg.Base.Memory.{Memory}
use smsg.Base.Text.{Text, literal, c_string, has_nul}
use smsg.Ncmd.{ncmd_iscomplete, ncmd_get}
use smsg.Ncmd.Names.{ncmd_getname}
use smsg.Calls.{fetch}
use smsg.Server.Loop.{recvbuf}

pub record Machine : Type 0 where
  pub memory : Memory
  -- getpwuid(getuid()) and its pw_name
  pub login_name : Option Text
  -- gethostbyname(): the first address
  pub resolves : Text → Option ℕ
  -- socket() succeeds, and connect() to an address and port does
  pub socket : Bool
  pub connects : ℕ → ℕ → Bool
  -- send() succeeds
  pub sends : List ℕ → Bool
  -- inet_ntoa(), atoi(), "%i", "%#o", and the texts of strerror() and hstrerror()
  pub ntoa : ℕ → Text
  pub atoi : Text → ℕ
  pub decimal : ℕ → Text
  pub octal : ℕ → Text
  pub strerror : Text

-- What was sent to the peer, and what say() and error() were given.
pub record Session : Type 0 where
  pub sent : List (List ℕ)
  pub said : Text
  pub errors : Text

abbrev pub silent : Session
silent = record { sent = []; said = []; errors = [] }

abbrev pub say : Session → Text → Session
say s text = record s { said = s.said ++ text }

abbrev pub error : Session → Text → Session
error s text = record s { errors = s.errors ++ text }

-- The peer's address, or `none` for -1.
unfoldable pub connect_to_server : Machine → Session → Text → ℕ → Session × Option ℕ
connect_to_server m s host port =
    on_option (m.resolves host)
      (
        error s (
            literal "unable to resolve host `"
            ++ (host ++ (literal "' (" ++ (m.strerror ++ literal ")\n")))),
        none,
      )
      λ address.
        if not m.socket
        then (
          error s (literal "error opening client socket (" ++ (m.strerror ++ literal ")\n")),
          none,
        )
        else if m.connects address port
        then (s, some address)
        else (
          error s (
              literal "error connecting to "
              ++ (m.ntoa address
                  ++ (literal ":"
                      ++ (m.decimal port ++ (literal " (" ++ (m.strerror ++ literal ")\n")))))),
          none,
        )

-- `error("error getting user information (%s)\n", strerror(errno))`
abbrev pub no_user : Machine → Session → Session
no_user m s = error s (literal "error getting user information (" ++ (m.strerror ++ literal ")\n"))

-- A string that "%s" follows: the pointer is not null, and there is a NUL in its block.
unfoldable pub string_of : Option (List ℕ) → Outcome Text
string_of none = fault
string_of (some b) = if has_nul b then ok (c_string b) else fault

-- The connection is there, the request was sent: `what` names it in the error message.
unfoldable pub transmit : Machine → Session → Text → List ℕ → Session
transmit m s what sbuf =
    let s' = record s { sent = s.sent ++ (sbuf ∷ []) } in
    if m.sends sbuf
    then s'
    else error s'
        (literal "error sending " ++ (what ++ (literal " (" ++ (m.strerror ++ literal ")\n"))))

-- What one recv() comes to: -1, 0, or a number of bytes, at the end of the buffer.
pub data Got : Type 0 where
  recv_failed peer_gone : Got
  got : List ℕ → Got

abbrev pub got_of : Outcome (List ℕ) → Got
got_of (ok t) = got t
got_of failed = recv_failed
got_of fault = recv_failed

unfoldable pub receive : Memory → List ℕ → Option (List ℕ) → Got
receive m rbuf none = recv_failed
receive m rbuf (some []) = peer_gone
receive m rbuf (some (b ∷ bs)) = got_of (recvbuf m rbuf (b ∷ bs))

-- `switch(recvbuf(...))`: the two errors, or else what is done with the buffer.
unfoldable pub on_reply {ℓ} :
    {A : Type ℓ} → Machine → Session → Got → (Session → A) → (List ℕ → A) → A
on_reply m s recv_failed stop use_reply =
    stop (error s (literal "error receiving data (" ++ (m.strerror ++ literal ")\n")))
on_reply m s peer_gone stop use_reply =
    stop (error s (literal "peer closed connection while data was expected\n"))
on_reply m s (got rbuf) stop use_reply = use_reply rbuf

-- `default`: no command that was expected; `expected` is the end of the message.
unfoldable pub unexpected : Machine → Session → ℕ → Text → Outcome Session
unexpected m s op expected = elim (ncmd_getname m.memory m.decimal op) [
  | ok name ↦ ok (
      error s (
        literal "received unexpected command "
        ++ (name ++ (literal " (expected " ++ (expected ++ literal ")\n")))))
  | failed ↦ fault
  | fault ↦ fault
]

-- The first argument as a string, between two texts: the reason of a NAK.
unfoldable pub say_reason : Machine → Session → List ℕ → Text → Text → Outcome Session
say_reason m s rbuf before behind = do
  targ ← fetch m.memory rbuf none 0 true
  reason ← string_of targ
  ok (say s (before ++ (reason ++ behind)))
