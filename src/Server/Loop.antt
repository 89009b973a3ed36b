-- ===== src/Server/Loop.antt =====
-- server.c, runserver(): the loop around select(), one event at a time, and ncmd.c, recvbuf().
pub mod Slots
use smsg.Base.{
  on_option, ℕ, suc, ◌+◌, ◌≤◌, ◌≡◌, refl, List, [], ◌∷◌, ◌++◌, length, set, replicate, get_elem?,
  Bool, true, false, not, ◌&&◌, ◌==◌, ltb, leb, if◌then◌else◌, Option, none, some,
}
use smsg.Base.Outcome.{Outcome, ok, failed, fault, ◌>>=◌}
use smsg.Base.Memory.{Memory}
use smsg.Base.Text.{Text, literal}
use smsg.Ncmd.{ncmd_iscomplete, ncmd_remove}
use smsg.Ncmd.Opcode.{NcmdOp, code, c_door}
use smsg.Udata.{UdataEnt, udata_get_by_fd, udata_flagunset, udata_update, udata_def_entry}
use smsg.Host.{Host}
use smsg.Server.Moderation.{throw_out}
use smsg.Server.Door.{tell_others}
use smsg.Server.Dispatch.{ls_handle_netcmd}
use smsg.Server.{
  Server, Client, Reply, normal, error, kick, max_clients, client_at, compose, deref, with_udata,
}

-- clients[] before the first connection: static storage, all zero.
abbrev pub unused_client : Client
unused_client = record { fd = some 0; address = 0; buf = [] }

abbrev pub initial : Server
initial = record {
  udata = [];
  clients = replicate max_clients unused_client;
  num_clients = 0;
  beleet = false;
  sent = [];
  written = [];
}

-- The first element below `num_clients` whose fd is -1, or else `num_clients`.
unfoldable pub free_index : ℕ → List Client → ℕ → ℕ
free_index num_clients [] i = num_clients
free_index num_clients (c ∷ cs) i =
    let later = free_index num_clients cs (suc i) in
    if leb num_clients i then num_clients else elim c.fd [ none ↦ i | some fd ↦ later ]

-- A connection that was accepted as descriptor `newfd`; at the limit it is closed.
unfoldable pub accept_client : Server → ℕ → ℕ → Server
unfolding free_index
accept_client s newfd address =
    let i = free_index s.num_clients s.clients 0 in
    if leb max_clients s.num_clients then s else record s {
      clients = set s.clients i (record { fd = some newfd; address = address; buf = [] });
      num_clients = if i == s.num_clients then suc s.num_clients else s.num_clients;
    }

-- The connection is closed and the element is free again.
unfoldable pub drop_client : Server → ℕ → Client → Server
drop_client s i c = record s { clients = set s.clients i (record c { fd = none; buf = [] }) }

abbrev pub error_chat_peerclose : Text
error_chat_peerclose = literal "connection closed by peer"

-- `case 0`: the peer has closed. A chatting user is taken out of the chat.
unfoldable pub peer_closed : Host → Server → ℕ → Outcome Server
unfolding tell_others throw_out drop_client
peer_closed h s i = client_at s i >>= λ c.
    on_option (udata_get_by_fd s.udata c.fd) (ok (drop_client s i c)) λ tuent.
      deref tuent.user >>= λ user.
      compose h.memory [] (code c_door)
        (some (0 ∷ []) ∷ tuent.nick ∷ some error_chat_peerclose ∷ [])
      >>= λ sbuf.
          let s' = tell_others h s sbuf i in
          ok (drop_client (with_udata s' (throw_out h s'.udata user)) i c)

-- The bytes of one recv() at the end of the buffer.
unfoldable pub recvbuf : Memory → List ℕ → List ℕ → Outcome (List ℕ)
recvbuf m buf received =
    if m.grants (length buf + length received) then ok (buf ++ received) else failed

abbrev pub with_buf : Server → ℕ → Client → List ℕ → Server
with_buf s i c buf = record s { clients = set s.clients i (record c { buf = buf }) }

-- The client that the handler wants out.
unfoldable pub kick_out : Server → Reply → Outcome Server
unfolding drop_client
kick_out s normal = ok s
kick_out s error = ok s
kick_out s (kick r) = client_at s r >>= λ c. ok (drop_client s r c)

-- One command is handled and removed, however many have arrived.
unfoldable pub handle_first : Host → Text → Text → Server → ℕ → Outcome Server
unfolding kick_out
handle_first h version os s i = ls_handle_netcmd h version os s i >>= λ r.
    kick_out r.0 r.1 >>= λ s'.
    client_at s' i >>= λ c. ncmd_remove h.memory c.buf >>= λ rest. ok (with_buf s' i c rest.0)

-- What recvbuf() made of the buffer; a buffer that cannot grow is as an error of recv().
unfoldable pub after_recvbuf :
    Host → Text → Text → Server → ℕ → Client → Outcome (List ℕ) → Outcome Server
unfolding handle_first
after_recvbuf h version os s i c fault = fault
after_recvbuf h version os s i c failed = ok s
after_recvbuf h version os s i c (ok buf) =
    let s' = with_buf s i c buf in
    ncmd_iscomplete buf >>= λ size. if size == 0 then ok s' else handle_first h version os s' i

-- `default`: bytes have come.
unfoldable pub data_received : Host → Text → Text → Server → ℕ → List ℕ → Outcome Server
unfolding recvbuf after_recvbuf
data_received h version os s i received =
    client_at s i >>= λ c. after_recvbuf h version os s i c (recvbuf h.memory c.buf received)

pub data Event : Type 0 where
  -- descriptor and address of a new connection
  connected : ℕ → ℕ → Event
  -- the client's index, and what recv() returned
  closed : ℕ → Event
  recv_error : ℕ → Event
  received : ℕ → List ℕ → Event

unfoldable pub step : Host → Text → Text → Server → Event → Outcome Server
unfolding accept_client peer_closed data_received
step h version os s (connected newfd address) = ok (accept_client s newfd address)
step h version os s (closed i) = peer_closed h s i
step h version os s (recv_error i) = ok s
step h version os s (received i bytes) = data_received h version os s i bytes

-- Any history; the host may answer each event differently.
unfoldable pub run : Text → Text → Server → List (Host × Event) → Outcome Server
unfolding step
run version os s [] = ok s
run version os s ((h, e) ∷ es) = step h version os s e >>= λ s'. run version os s' es
