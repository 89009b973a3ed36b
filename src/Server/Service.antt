-- ===== src/Server/Service.antt =====
-- server.c, runserver(): the opening of the log and the socket, the fork, the signals, and the rounds
-- of select() around what Loop has.
pub mod Safety
use smsg.Base.{
  ℕ, List, [], ◌∷◌, ◌++◌, Bool, true, false, not, ◌||◌, if◌then◌else◌, Option, none, some,
  on_option,
}
use smsg.Base.Outcome.{Outcome, ok, ◌>>=◌}
use smsg.Base.Text.{Text, literal}
use smsg.Host.{Host}
use smsg.Server.{Server}
use smsg.Server.Loop.{Event, initial, run}

-- The results of fork(): -1, 0, or the child's number.
pub data Fork : Type 0 where
  fork_failed child : Fork
  parent_of : ℕ → Fork

-- What the machine gives when the server is opened: whether the calls succeed, and the texts.
-- `logs` is `loglevel >= 0`.
pub record Site : Type 0 where
  pub logs : Bool
  pub logfilename : Option Text
  pub dups : Bool
  pub fdopens : Bool
  pub fopens : Text → Bool
  pub socket : Bool
  pub binds : ℕ → Bool
  pub reuses : Bool
  pub listens : Bool
  pub forks : Fork
  pub setsid : Bool
  pub strerror : Text
  pub decimal : ℕ → Text

-- What it comes to: -1 with the message, 0 in the parent with its message, or a server with the
-- messages so far.
pub data Opening : Type 0 where
  refused in_parent opened : Text → Opening

abbrev pub error_text : Site → Text → Text
error_text p what = what ++ (literal " (" ++ (p.strerror ++ literal ")\n"))

-- `if(... == -1) {error(...); return -1;}`
abbrev pub unless_fails : Site → Bool → Text → Opening → Opening
unless_fails p succeeds what next = if succeeds then next else refused (error_text p what)

abbrev pub to_stderr : Site → Opening → Opening
to_stderr p next =
    unless_fails p p.dups (literal "error duplicating stderr for logging")
      (unless_fails p p.fdopens (literal "error opening a dupped stderr for logging") next)

-- The log: no name, or an empty one, is stderr.
unfoldable pub open_log : Site → Option Text → Opening → Opening
open_log p none next = to_stderr p next
open_log p (some []) next = to_stderr p next
open_log p (some (c ∷ t)) next =
    unless_fails p (p.fopens (c ∷ t)) (literal "error opening log file") next

-- `if(autofork)`
unfoldable pub fork_off : Site → Text → Fork → Opening
fork_off p before fork_failed = refused (before ++ error_text p (literal "error forking server"))
fork_off p before child =
    if p.setsid
    then opened before
    else refused
        (before ++ error_text p (literal "error creating a new session for forked process"))
fork_off p before (parent_of pid) =
    in_parent
      (before ++ (literal "Server forked to background. pid=" ++ (p.decimal pid ++ literal "\n")))

-- setsockopt() may fail.
abbrev pub reuse_error : Site → Text
reuse_error p =
    if p.reuses
    then []
    else error_text p
        (literal "error making server socket address reusable (nonfatal, can just be annoying)")

-- listen(), after what was said before.
unfoldable pub listen_on : Site → Bool → Text → Opening
unfolding fork_off
listen_on p autofork before =
    if p.listens
    then (if autofork then fork_off p before p.forks else opened before)
    else refused (before ++ error_text p (literal "error making the server socket listen"))

unfoldable pub open_socket : Site → ℕ → Bool → Opening
unfolding listen_on
open_socket p port autofork = unless_fails p p.socket (literal "error opening server socket") (
    unless_fails p (p.binds port) (literal "error binding server socket to port " ++ p.decimal port)
      (listen_on p autofork (reuse_error p)))

unfoldable pub open_server : Site → ℕ → Bool → Opening
unfolding open_log open_socket
open_server p port autofork =
    let rest = open_socket p port autofork in if p.logs then open_log p p.logfilename rest else rest

-- What select() comes to: -1 with EINTR, -1, or events on its descriptors.
pub data Waiting : Type 0 where
  interrupted select_failed : Waiting
  ready : List (Host × Event) → Waiting

-- A round, and whether SIGTERM or SIGINT came before select() returned, or later.
pub record Round : Type 0 where
  pub waiting : Waiting
  pub stopped : Bool
  pub stopped_late : Bool

-- How the server stands when the rounds are over; it has returned 0 or -1.
pub data Ending : Type 0 where
  running finished wait_error : Ending

-- `ls_exitloop` is the first of these; `rest` is how it goes on.
abbrev pub after_wait :
    Bool
    → Text
    → Text
    → Server
    → Waiting
    → (Server → Outcome (Server × Ending))
    → Outcome (Server × Ending)
after_wait stop version os s interrupted rest = ok (s, if stop then finished else wait_error)
after_wait stop version os s select_failed rest = ok (s, wait_error)
after_wait stop version os s (ready events) rest = run version os s events >>= rest

-- `while(!ls_exitloop)`
unfoldable pub serve : Text → Text → Bool → Server → List Round → Outcome (Server × Ending)
serve version os stop s [] = ok (s, if stop then finished else running)
serve version os stop s (r ∷ rs) =
    let rest : Server → Outcome (Server × Ending) =
      λ s'. serve version os (r.stopped || r.stopped_late) s' rs in
    if stop then ok (s, finished) else after_wait r.stopped version os s r.waiting rest

-- What runserver() comes to.
pub data Served : Type 0 where
  not_opened : Opening → Served
  served : Text → Server → Ending → Served

abbrev pub serve_opened : Text → Text → List Round → Opening → Outcome Served
serve_opened version os rounds (refused t) = ok (not_opened (refused t))
serve_opened version os rounds (in_parent t) = ok (not_opened (in_parent t))
serve_opened version os rounds (opened t) =
    serve version os false initial rounds >>= λ r. ok (served t r.0 r.1)

unfoldable pub runserver : Site → Text → Text → ℕ → Bool → List Round → Outcome Served
unfolding serve open_server
runserver p version os port autofork rounds =
    serve_opened version os rounds (open_server p port autofork)
