-- ===== src/Server/Keeps.antt =====
-- Handlers and the table: lemmas on how a handler is put together.
pub mod Talk
pub mod Entry
pub mod Desk
pub mod History
use smsg.Base.{
  on_option, ℕ, ◌≡◌, refl, sym, ap, List, [], ◌∷◌, Bool, true, false, if◌then◌else◌, Option, none,
  some, arith, ◌&&◌, ◌==◌, not,
}
use smsg.Base.Outcome.{Outcome, ok, failed, fault, ◌>>=◌}
use smsg.Base.Text.{Text}
use smsg.Udata.{UdataEnt}
use smsg.Host.{Host}
use smsg.Server.{
  Server, Reply, Client, deref, sendbuf, send_all, lcs_dist_ncmd, lcs_send_ncmd, recipients,
  with_udata,
}
use smsg.Server.Door.{tell_others}
use smsg.Server.Evolution.{Evolves, Evolves-refl, Evolves-trans}

pub data Keeps (l : List UdataEnt) : Outcome (Server × Reply) → Type 0 where
  keeps_ok : (s : Server) (r : Reply) → Evolves l s.udata → Keeps l (ok (s, r))
  keeps_failed : Keeps l failed
  keeps_fault : Keeps l fault

pub bind-Keeps :
    {A : Type 0} (l : List UdataEnt) (m : Outcome A) (f : A → Outcome (Server × Reply))
    → ((a : A) → Keeps l (f a))
    → Keeps l (m >>= f)
bind-Keeps l (ok a) f k = k a
bind-Keeps l failed f k = keeps_failed
bind-Keeps l fault f k = keeps_fault

pub deref-Keeps :
    {A : Type 0} (l : List UdataEnt) (o : Option A) (f : A → Outcome (Server × Reply))
    → ((a : A) → o ≡ some a → Keeps l (f a))
    → Keeps l (deref o >>= f)
deref-Keeps l none f k = keeps_fault
deref-Keeps l (some a) f k = k a refl

pub if_Keeps_table :
    (l : List UdataEnt) (b : Bool) (x y : Outcome (Server × Reply))
    → Keeps l x
    → Keeps l y
    → Keeps l (if b then x else y)
if_Keeps_table l true x y p q = p
if_Keeps_table l false x y p q = q

pub option-Keeps :
    {A : Type 0} (l : List UdataEnt) (o : Option A) (x : Outcome (Server × Reply))
    (f : A → Outcome (Server × Reply))
    → Keeps l x
    → ((a : A) → o ≡ some a → Keeps l (f a))
    → Keeps l (on_option o x f)
option-Keeps l none x f p q = p
option-Keeps l (some a) x f p q = q a refl

-- Sending changes no entry.
pub sendbuf_udata :
    (h : Host) (s : Server) (fd : Option ℕ) (msg : List ℕ) → (sendbuf h s fd msg).0.udata ≡ s.udata
unfolding sendbuf
sendbuf_udata h s none msg = refl
sendbuf_udata h s (some fd) msg = refl

pub send_all_udata :
    (h : Host) (s : Server) (msg fds : List ℕ) → (send_all h s msg fds).0.udata ≡ s.udata
unfolding send_all
send_all_udata h s msg [] = refl
send_all_udata h s msg (fd ∷ fds) = send_all_udata h _ msg fds

pub sent-Keeps :
    (l : List UdataEnt) (h : Host) (s : Server) (fd : Option ℕ) (msg : List ℕ) (r : Reply)
    → Evolves l s.udata
    → Keeps l (ok ((sendbuf h s fd msg).0, r))
sent-Keeps l h s fd msg r e = keeps_ok (sendbuf h s fd msg).0 r (rw (sendbuf_udata h s fd msg) e)

pub lcs_send-Keeps :
    (l : List UdataEnt) (h : Host) (s : Server) (msg : List ℕ) (fd : Option ℕ) (r : Reply)
    → Evolves l s.udata
    → Keeps l (ok ((lcs_send_ncmd h s msg fd).0, r))
unfolding lcs_send_ncmd
lcs_send-Keeps l h s msg fd r e = sent-Keeps l h s fd msg r e

pub lcs_dist-Keeps :
    (l : List UdataEnt) (h : Host) (s : Server) (msg : List ℕ) (excl : Option ℕ) (r : Reply)
    → Evolves l s.udata
    → Keeps l (ok ((lcs_dist_ncmd h s msg excl).0, r))
unfolding lcs_dist_ncmd
lcs_dist-Keeps l h s msg excl r e = keeps_ok _ r (rw (send_all_udata h s msg _) e)

-- A second send after a first.
pub after_send :
    (l : List UdataEnt) (h : Host) (s : Server) (msg : List ℕ) (fd : Option ℕ)
    → Evolves l s.udata
    → Evolves l (lcs_send_ncmd h s msg fd).0.udata
unfolding lcs_send_ncmd
after_send l h s msg fd e = rw (sendbuf_udata h s fd msg) e

pub after_send_all :
    (l : List UdataEnt) (h : Host) (s : Server) (msg fds : List ℕ)
    → Evolves l s.udata
    → Evolves l (send_all h s msg fds).0.udata
after_send_all l h s msg fds e = rw (send_all_udata h s msg fds) e

pub if_Keeps_case :
    (l : List UdataEnt) (b : Bool) (x y : Outcome (Server × Reply))
    → (b ≡ true → Keeps l x)
    → (b ≡ false → Keeps l y)
    → Keeps l (if b then x else y)
if_Keeps_case l true x y p q = p refl
if_Keeps_case l false x y p q = q refl

-- What a handler keeps, it keeps from any earlier table on.
pub Keeps-from :
    (l k : List UdataEnt) (o : Outcome (Server × Reply)) → Evolves l k → Keeps k o → Keeps l o
Keeps-from l k o e (keeps_ok s r f) = keeps_ok s r (Evolves-trans e f)
Keeps-from l k failed e keeps_failed = keeps_failed
Keeps-from l k fault e keeps_fault = keeps_fault
