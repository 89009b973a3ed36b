-- ===== src/Server/Permanence.antt =====
-- Histories of the server and the table.
use smsg.Base.{
  arith, if_keeps, leb, on_option, if◌then◌else◌, ℕ, ◌≡◌, List, [], ◌∷◌, Bool, true, false, Option,
  none, some,
}
use smsg.Base.Outcome.{Outcome, ok, failed, fault, ◌>>=◌}
use smsg.Base.Text.{Text}
use smsg.Udata.{UdataEnt, first, has_fd, has_nick, udata_get_by_fd, udata_get_by_nick}
use smsg.Udata.Distinct.{IsDistinct}
use smsg.Host.{Host}
use smsg.Server.{max_clients, Server, Client, Reply, normal, error, kick, send_all}
use smsg.Server.Moderation.{throw_out}
use smsg.Server.Dispatch.{ls_handle_netcmd}
use smsg.Server.Loop.{
  step, run, Event, connected, closed, recv_error, received, initial, kick_out, handle_first,
  data_received, peer_closed, after_recvbuf, accept_client, with_buf,
}
use smsg.Server.Evolution.{
  IsOrderly, is_banned, Evolves, Evolves-refl, Evolves-trans, first-test, first-IsBarred,
}
use smsg.Server.Bans.{Evolves-throw_out}
use smsg.Server.Keeps.{Keeps, keeps_ok, keeps_failed, keeps_fault, Keeps-from, after_send_all}
use smsg.Server.Keeps.History.{ls_handle_netcmd-Keeps}

data Safe (l : List UdataEnt) : Outcome Server → Type 0 where
  safe_ok : (s : Server) → Evolves l s.udata → Safe l (ok s)
  safe_failed : Safe l failed
  safe_fault : Safe l fault

bind-Safe :
    {A : Type 0} (l : List UdataEnt) (m : Outcome A) (f : A → Outcome Server)
    → ((a : A) → Safe l (f a))
    → Safe l (m >>= f)
bind-Safe l (ok a) f k = k a
bind-Safe l failed f k = safe_failed
bind-Safe l fault f k = safe_fault

if_Safe :
    (l : List UdataEnt) (b : Bool) (x y : Outcome Server)
    → Safe l x
    → Safe l y
    → Safe l (if b then x else y)
if_Safe l true x y p q = p
if_Safe l false x y p q = q

option-Safe :
    {A : Type 0} (l : List UdataEnt) (o : Option A) (x : Outcome Server) (f : A → Outcome Server)
    → Safe l x
    → ((a : A) → Safe l (f a))
    → Safe l (on_option o x f)
option-Safe l none x f p q = p
option-Safe l (some a) x f p q = q a

handled-Safe :
    (l : List UdataEnt) (o : Outcome (Server × Reply)) (f : Server × Reply → Outcome Server)
    → Keeps l o
    → ((s : Server) (r : Reply) → Evolves l s.udata → Safe l (f (s, r)))
    → Safe l (o >>= f)
handled-Safe l (ok p) f (keeps_ok s r e) k = k s r e
handled-Safe l failed f keeps_failed k = safe_failed
handled-Safe l fault f keeps_fault k = safe_fault

after-Safe :
    (l : List UdataEnt) (o : Outcome Server) (f : Server → Outcome Server)
    → Safe l o
    → ((s : Server) → Evolves l s.udata → Safe l (f s))
    → Safe l (o >>= f)
after-Safe l (ok p) f (safe_ok s e) k = k s e
after-Safe l failed f safe_failed k = safe_failed
after-Safe l fault f safe_fault k = safe_fault

Safe-from : (l k : List UdataEnt) (o : Outcome Server) → Evolves l k → Safe k o → Safe l o
Safe-from l k o e (safe_ok s f) = safe_ok s (Evolves-trans e f)
Safe-from l k failed e safe_failed = safe_failed
Safe-from l k fault e safe_fault = safe_fault

kick_out-Safe :
    (l : List UdataEnt) (s : Server) (r : Reply) → Evolves l s.udata → Safe l (kick_out s r)
unfolding kick_out
kick_out-Safe l s normal e = safe_ok s e
kick_out-Safe l s error e = safe_ok s e
kick_out-Safe l s (kick i) e = search (bind-Safe, safe_ok) depth 4

handle_first-Safe :
    (l : List UdataEnt) (h : Host) (version os : Text) (s : Server) (i : ℕ)
    → Evolves l s.udata
    → Safe l (handle_first h version os s i)
unfolding handle_first
handle_first-Safe l h version os s i e =
    handled-Safe l (ls_handle_netcmd h version os s i) _
      (Keeps-from l s.udata _ e (ls_handle_netcmd-Keeps h s i version os))
      λ s' r f.
        after-Safe l (kick_out s' r) _ (kick_out-Safe l s' r f)
          λ s'' g. search (bind-Safe, safe_ok) depth 6

peer_closed-Safe : (h : Host) (s : Server) (i : ℕ) → Safe s.udata (peer_closed h s i)
unfolding peer_closed
peer_closed-Safe h s i = search (bind-Safe, option-Safe, safe_ok, Evolves-refl, gone) depth 12
  where
    gone :
        (msg fds : List ℕ) (user : Text)
        → Evolves s.udata (throw_out h (send_all h s msg fds).0.udata user)
    gone msg fds user =
        Evolves-trans (after_send_all s.udata h s msg fds (Evolves-refl s.udata))
          (Evolves-throw_out h _ user)

accept_client-Evolves :
    (s : Server) (newfd address : ℕ) → Evolves s.udata (accept_client s newfd address).udata
unfolding accept_client
accept_client-Evolves s newfd address =
    if_keeps (λ (r : Server). Evolves s.udata r.udata) (leb max_clients s.num_clients)
      (Evolves-refl s.udata) (Evolves-refl s.udata)

after_recvbuf-Safe :
    (h : Host) (version os : Text) (s : Server) (i : ℕ) (c : Client) (o : Outcome (List ℕ))
    → Safe s.udata (after_recvbuf h version os s i c o)
unfolding after_recvbuf
after_recvbuf-Safe h version os s i c (ok buf) =
    let first_handled =
      handle_first-Safe s.udata h version os (with_buf s i c buf) i (Evolves-refl s.udata) in
    search (bind-Safe, if_Safe, safe_ok, Evolves-refl, first_handled) depth 6
after_recvbuf-Safe h version os s i c failed = safe_ok s (Evolves-refl s.udata)
after_recvbuf-Safe h version os s i c fault = safe_fault

step-Safe :
    (h : Host) (version os : Text) (s : Server) (e : Event) → Safe s.udata (step h version os s e)
unfolding step
step-Safe h version os s (connected newfd address) =
    safe_ok (accept_client s newfd address) (accept_client-Evolves s newfd address)
step-Safe h version os s (closed i) = peer_closed-Safe h s i
step-Safe h version os s (recv_error i) = safe_ok s (Evolves-refl s.udata)
step-Safe h version os s (received i bytes) =
    unfold data_received in search (bind-Safe, after_recvbuf-Safe) depth 4

run-Safe :
    (l : List UdataEnt) (version os : Text) (s : Server) (es : List (Host × Event))
    → Evolves l s.udata
    → Safe l (run version os s es)
unfolding run
run-Safe l version os s [] e = safe_ok s e
run-Safe l version os s ((h, ev) ∷ es) e =
    after-Safe l (step h version os s ev) _ (Safe-from l s.udata _ e (step-Safe h version os s ev))
      λ s' f. run-Safe l version os s' es f

Safe-ok :
    (l : List UdataEnt) (s : Server) (o : Outcome Server) → Safe l o → o ≡ ok s → Evolves l s.udata
Safe-ok l s o (safe_ok s' e) same = let eq : s' ≡ s = cc in rw (← eq) e
Safe-ok l s failed safe_failed same = cc
Safe-ok l s fault safe_fault same = cc

-- Whatever events a server goes through, from a table in which no user has two entries and no
-- banned user is present, if the events run to a state then its table is of that kind too, and
-- everyone who was banned at the start is banned at the end.
pub run_bans :
    (version os : Text) (s s' : Server) (es : List (Host × Event))
    → IsOrderly s.udata
    → run version os s es ≡ ok s'
    → IsOrderly s'.udata × ((u : Text) → is_banned s.udata u ≡ true → is_banned s'.udata u ≡ true)
run_bans version os s s' es o same =
    let e = Safe-ok s.udata s' _ (run-Safe s.udata version os s es (Evolves-refl s.udata)) same in
    (e.orderly o, e.bans_stay o)

chatter_unbanned :
    (test : UdataEnt → Bool) (l : List UdataEnt) (e : UdataEnt)
    → ((x : UdataEnt) → test x ≡ true → x.flags.present ≡ true)
    → IsOrderly l
    → first test l ≡ some e
    → e.flags.banned ≡ false
chatter_unbanned test l e present o f =
    let here = present e (first-test test l e f) in
    let barred = first-IsBarred test l e o.barred f in ground arith

-- In every state that a server reaches from its start, by any events, no user has two entries, and
-- neither a connection's chatting user nor a user who is found by nick is banned.
pub run-initial :
    (version os : Text) (s : Server) (es : List (Host × Event))
    → run version os initial es ≡ ok s
    → IsDistinct s.udata
      × ((fd : Option ℕ) (e : UdataEnt)
          → udata_get_by_fd s.udata fd ≡ some e
          → e.flags.banned ≡ false)
      × ((nick : Text) (e : UdataEnt)
          → udata_get_by_nick s.udata (some nick) ≡ some e
          → e.flags.banned ≡ false)
unfolding udata_get_by_fd udata_get_by_nick
run-initial version os s es same =
    let o = (run_bans version os initial s es (record { distinct = tt; barred = tt }) same).0 in
    (
      o.distinct,
      (λ fd e f. chatter_unbanned (has_fd fd) s.udata e (λ x h. ground arith) o f),
      (λ nick e f. chatter_unbanned (has_nick nick) s.udata e (λ x h. ground arith) o f),
    )
