-- ===== src/Server.antt =====
-- server.c and servchat.c: the server's state, and the helpers that its handlers share.
pub mod Chat
pub mod Message
pub mod Prefs
pub mod Door
pub mod Dispatch
pub mod Loop
pub mod Service
pub mod Speech
pub mod Moderation
pub mod Who
pub mod Userinfo
pub mod Evolution
pub mod Bans
pub mod Keeps
pub mod Leet
pub mod Permanence
pub mod Preferences
pub mod Settings
pub mod Authority
pub mod Spread
use smsg.Base.{
  on_option, ℕ, suc, ◌+◌, ◌*◌, ◌≡◌, List, [], ◌∷◌, ◌++◌, length, get_elem?, set, Bool, true, false,
  not, ◌&&◌, ◌||◌, ◌==◌, ltb, if◌then◌else◌, Option, none, some,
}
use smsg.Base.Outcome.{Outcome, ok, failed, fault, ◌>>=◌, or_keep}
use smsg.Base.Memory.{Memory}
use smsg.Base.Text.{Text, literal, c_string}
use smsg.Ncmd.{ncmd_set, ncmd_add, ncmd_getarg, ncmd_getnumargs}
use smsg.Udata.{UdataEnt, Flags, udata_get_by_fd, is_some}
use smsg.Host.{Host}
unfoldable pub use smsg.Calls.{set_cmd, add_args, compose, fetch, deref, text_of}

-- `struct sclient`; the fd -1 is `none`.
pub record Client : Type 0 where
  pub fd : Option ℕ
  pub address : ℕ
  pub buf : List ℕ

abbrev pub max_clients : ℕ
max_clients = 111

pub record Server : Type 0 where
  pub udata : List UdataEnt
  -- clients[], with `max_clients` elements
  pub clients : List Client
  pub num_clients : ℕ
  -- `static int beleet`: 0 or ~0
  pub beleet : Bool
  -- the calls of send() so far, with their descriptors
  pub sent : List (ℕ × List ℕ)
  -- what was written to terminals, with their paths
  pub written : List (Text × List ℕ)

-- What a handler returns: -5, -1, or the index of a client to kick out.
pub data Reply : Type 0 where
  normal error : Reply
  kick : ℕ → Reply

-- `clients[cl]`; an index outside the array is a fault.
abbrev pub client_at : Server → ℕ → Outcome Client
client_at s cl = on_option (get_elem? s.clients cl) fault ok

abbrev pub with_udata : Server → List UdataEnt → Server
with_udata s l = record s { udata = l }

-- send() on one descriptor; the result is false for -1.
unfoldable pub sendbuf : Host → Server → Option ℕ → List ℕ → Server × Bool
sendbuf h s none msg = (s, false)
sendbuf h s (some fd) msg = (record s { sent = s.sent ++ ((fd, msg) ∷ []) }, h.sends fd msg)

-- Is there a present user on that descriptor?
abbrev pub is_chatting : Server → Option ℕ → Bool
is_chatting s fd = is_some (udata_get_by_fd s.udata fd)

-- The loop over clients[] from index `i`: the descriptors that get the message.
unfoldable pub recipients : (ℕ → ℕ → Bool) → Server → ℕ → List Client → List ℕ
recipients test s i [] = []
recipients test s i (c ∷ cs) =
    let rest = recipients test s (suc i) cs in
    elim c.fd [
      | none ↦ rest
      | some fd ↦ if test i fd && is_chatting s (some fd) then fd ∷ rest else rest
    ]

unfoldable pub send_all : Host → Server → List ℕ → List ℕ → Server × Bool
unfolding sendbuf
send_all h s msg [] = (s, true)
send_all h s msg (fd ∷ fds) =
    let (s', sent) = sendbuf h s (some fd) msg in
    let (s'', all_sent) = send_all h s' msg fds in (s'', sent && all_sent)

abbrev pub not_excluded : Option ℕ → ℕ → Bool
not_excluded none i = true
not_excluded (some excl) i = not (i == excl)

-- lcs_dist_ncmd()
unfoldable pub lcs_dist_ncmd : Host → Server → List ℕ → Option ℕ → Server × Bool
unfolding recipients send_all
lcs_dist_ncmd h s sbuf excl_cl =
    send_all h s sbuf (recipients (λ i fd. not_excluded excl_cl i) s 0 s.clients)

-- lcs_send_ncmd() to a client of clients[], and to a descriptor.
unfoldable pub lcs_send_ncmd : Host → Server → List ℕ → Option ℕ → Server × Bool
unfolding sendbuf
lcs_send_ncmd h s sbuf fd = sendbuf h s fd sbuf
