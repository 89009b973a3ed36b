-- ===== src/Clchat/Receive/Loop.antt =====
-- clchat.c, chatter_func(): the list of users, the `switch` on a command, and the loop over the
-- commands that have come.
use smsg.Base.{
  ◌||◌, leb, on_option, ℕ, zero, suc, ◌+◌, ◌-◌, ◌/◌, ◌%◌, List, [], ◌∷◌, ◌++◌, length, true, false,
  ◌==◌, ltb, if◌then◌else◌, Option, none, some, replicate,
}
use smsg.Base.Outcome.{Outcome, ok, failed, fault, ◌>>=◌}
use smsg.Base.Text.{Text, literal}
use smsg.Ncmd.{ncmd_iscomplete, ncmd_get, ncmd_getnumargs, ncmd_remove}
use smsg.Ncmd.Names.{ncmd_getname}
use smsg.Ncmd.Opcode.{
  NcmdOp, code, of_code, c_door, c_away, c_me, c_oper, c_psay, c_nick, c_say, c_ban, c_beep, c_deop,
  c_kick, c_op, c_unban, c_who,
}
use smsg.Calls.{set_cmd}
use smsg.Server.Prefs.{byte_of}
use smsg.Client.{Machine, string_of, receive, Got, recv_failed, peer_gone, got}
use smsg.Clchat.Output.{lcc_culist_add}
use smsg.Clchat.Receive.{Chat, asay, into_targ0, into_targ1}
use smsg.Clchat.Receive.Cases.{
  on_door, on_away, on_me, on_oper, on_psay, on_nick, on_say, on_ban, on_beep, on_deop, on_kick,
  on_op, on_unban,
}

-- "%-20s"
abbrev pub padded : Text → Text
padded t = t ++ replicate (20 - length t) 32

-- `for(; i<na; i+=2)`, with so many rounds to go.
unfoldable pub who_entries : Machine → List ℕ → ℕ → ℕ → ℕ → Chat → Outcome Chat
who_entries m rbuf itype zero i s = ok s
who_entries m rbuf itype (suc rounds) i s = do
  s ← into_targ0 m rbuf i true s
  user ← string_of s.targ0
  s ←
      if itype == 0
      then ok (record s { culist = lcc_culist_add m.memory s.culist user })
      else (into_targ1 m rbuf (i + 1) s >>= λ s. string_of s.targ1 >>= λ t.
          ok (asay 2 (padded user ++ (literal " " ++ (t ++ literal "\n"))) s))
  who_entries m rbuf itype rounds (i + 2) s

-- The type of information, and the first argument of the list. A null pointer is tested for. From
-- 128 on a char is negative, which is a type that is none of the three.
unfoldable pub who_type : Machine → List ℕ → ℕ → Chat → Outcome (Chat × (ℕ × ℕ))
who_type m rbuf na s =
    if na % 2 == 1
    then (into_targ0 m rbuf 0 true s >>= λ s.
        on_option s.targ0 (ok (s, (0, 1)))
          λ t. byte_of (some t) >>= λ b. ok (s, (if ltb b 3 || leb 128 b then b else 0, 1)))
    else ok (s, (0, 0))

abbrev pub who_title : ℕ → Chat → Chat
who_title itype s =
    if itype == 1
    then asay 2 (literal "Persons logged on to system\n") s
    else if itype == 2
    then asay 2 (literal "Persons in chat and on system\n") s
    else s

-- `case C_WHO`; from `i` to `na` in steps of two there are `(na - i + 1) / 2` rounds.
unfoldable pub on_who : Machine → List ℕ → Chat → Outcome Chat
on_who m rbuf s = do
  na ← ncmd_getnumargs rbuf
  r ← who_type m rbuf na s
  let itype : ℕ = r.1.0
  let i : ℕ = r.1.1
  let s' = who_title itype r.0
  let s'' : Chat = if itype == 0 then record s' { culist = [] } else s'
  who_entries m rbuf itype ((na - i + 1) / 2) i s''

-- `default`: printing a null name is a fault.
unfoldable pub ignored : Outcome Text → Chat → Outcome Chat
ignored (ok name) s =
    ok (asay 2 (literal "Received netcommand " ++ (name ++ literal " from server, ignoring.\n")) s)
ignored failed s = fault
ignored fault s = fault

unfoldable pub on_other : Machine → ℕ → Chat → Outcome Chat
on_other m op s = ignored (ncmd_getname m.memory m.decimal op) s

unfoldable pub on_op_code : Machine → List ℕ → ℕ → Option NcmdOp → Chat → Outcome Chat
on_op_code m rbuf op (some c_door) s = on_door m rbuf s
on_op_code m rbuf op (some c_away) s = on_away m rbuf s
on_op_code m rbuf op (some c_me) s = on_me m rbuf s
on_op_code m rbuf op (some c_oper) s = on_oper m rbuf s
on_op_code m rbuf op (some c_psay) s = on_psay m rbuf s
on_op_code m rbuf op (some c_nick) s = on_nick m rbuf s
on_op_code m rbuf op (some c_say) s = on_say m rbuf s
on_op_code m rbuf op (some c_ban) s = on_ban m rbuf s
on_op_code m rbuf op (some c_beep) s = on_beep m rbuf s
on_op_code m rbuf op (some c_deop) s = on_deop m rbuf s
on_op_code m rbuf op (some c_kick) s = on_kick m rbuf s
on_op_code m rbuf op (some c_op) s = on_op m rbuf s
on_op_code m rbuf op (some c_unban) s = on_unban m rbuf s
on_op_code m rbuf op (some c_who) s = on_who m rbuf s
on_op_code m rbuf op _ s = on_other m op s

-- `if(req_who)`: `sbuf` is what the send buffer held.
unfoldable pub request_who : Machine → List ℕ → Chat → Outcome (List ℕ × Chat)
request_who m sbuf s =
    if s.req_who
    then (set_cmd m.memory sbuf (code c_who) >>= λ t.
        let s' : Chat = record s { sent = s.sent ++ (t ∷ []); req_who = false } in
        ok (
          t,
          if m.sends t
              then s'
              else asay 3 (literal "error sending command (" ++ (m.strerror ++ literal ")\n")) s',
        ))
    else ok (sbuf, s)

-- One command at the head of the buffer; `sbuf` goes with it.
unfoldable pub on_command : Machine → List ℕ → List ℕ → Chat → Outcome (List ℕ × Chat)
on_command m rbuf sbuf s =
    ncmd_get rbuf >>= λ op. on_op_code m rbuf op (of_code op) s >>= λ s'. request_who m sbuf s'

-- `while(ncmd_iscomplete(...))`. Out of fuel it is `failed`.
unfoldable pub receive_loop :
    ℕ → Machine → List ℕ → List ℕ → Chat → Outcome (List ℕ × (List ℕ × Chat))
receive_loop zero m rbuf sbuf s = failed
receive_loop (suc fuel) m rbuf sbuf s = ncmd_iscomplete rbuf >>= λ size.
    if size == 0
    then ok (rbuf, (sbuf, s))
    else (on_command m rbuf sbuf s >>= λ r.
        ncmd_remove m.memory rbuf >>= λ rest. receive_loop fuel m rest.0 r.0 r.1)

-- How chatter_func() goes on after recv().
pub data Next : Type 0 where
  goes_on : List ℕ → List ℕ → Chat → Next
  server_gone : Chat → Next

-- The result is to be -2; the reason is told.
unfoldable pub server_closed : Chat → Chat
server_closed s =
    if s.kicked == 2
    then asay 2 (literal "Server closed connection because you are banned. Quitting...\n") s
    else if s.kicked == 1
    then asay 2 (literal "Server closed connection because you are kicked. Quitting...\n") s
    else asay 2 (literal "Server closed connection without warning. Quitting...\n") s

-- The three results of recvbuf(); the pointers are local to the block.
unfoldable pub after_recv : ℕ → Machine → List ℕ → List ℕ → Chat → Got → Outcome Next
after_recv fuel m rbuf sbuf s recv_failed = ok (
    goes_on rbuf sbuf
      (asay 3 (literal "error receiving data from server (" ++ (m.strerror ++ literal ")\n")) s))
after_recv fuel m rbuf sbuf s peer_gone = ok (server_gone (server_closed s))
after_recv fuel m rbuf sbuf s (got t) =
    receive_loop fuel m t sbuf (record s { targ0 = none; targ1 = none }) >>= λ r.
    ok (goes_on r.0 r.1.0 r.1.1)

-- `if(FD_ISSET(connfd, &read_fds))`
unfoldable pub from_server : ℕ → Machine → List ℕ → List ℕ → Chat → Option (List ℕ) → Outcome Next
from_server fuel m rbuf sbuf s received =
    after_recv fuel m rbuf sbuf s (receive m.memory rbuf received)
