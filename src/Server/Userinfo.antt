-- ===== src/Server/Userinfo.antt =====
-- servchat.c: the names by which log lines and messages call a client.
use smsg.Base.{
  ℕ, ◌+◌, ◌≤◌, [], ◌++◌, length, length-append, if◌then◌else◌, Option, none, some, arith,
}
use smsg.Base.Outcome.{Outcome, ok, ◌>>=◌, ◌>>◌, guard_fault}
use smsg.Base.Text.{Text, literal}
use smsg.Udata.{UdataEnt, udata_get_by_fd}
use smsg.Host.{Host}
use smsg.Server.{Server, client_at, deref}

-- The prefix and the nick; the buffer has `2 + xstrlen(nick) + 1` bytes.
unfoldable pub display_name : UdataEnt → Text → Text
display_name tud nick =
    (if tud.flags.away then literal "&" else [])
    ++ ((if tud.flags.operator then literal "@" else []) ++ nick)

unfoldable pub lcs_compose_name : Host → Server → ℕ → Outcome Text
unfolding display_name
lcs_compose_name h s cl_idx = do
  c ← client_at s cl_idx
  tud ← deref (udata_get_by_fd s.udata c.fd)
  nick ← deref tud.nick
  guard_fault (h.memory.grants (2 + length nick + 1))
  ok (display_name tud nick)

-- The text of lcs_userinfo() and the size that it allocates for it. In the branch for a nick
-- without a user, strcpy() of the nick overwrites the "[".
pub record Labelled : Type 0 where
  pub text : Text
  pub allocated : ℕ

unfoldable pub with_host : Text → ℕ → Text → Labelled
with_host front size hostinfo = record {
  text = front ++ (literal "(" ++ (hostinfo ++ literal ")"));
  allocated = size + (length hostinfo + 1);
}

-- The user's name that is shown: the caller's, or else the entry's.
abbrev pub shown_user : Option Text → Option Text → Option Text
shown_user none user = user
shown_user (some given) user = some given

unfoldable pub labelled : Option Text → Option Text → Text → Labelled
unfolding with_host
labelled (some tuser) (some nick) hostinfo = record {
  text = tuser ++ (literal "[" ++ (nick ++ (literal "](" ++ (hostinfo ++ literal ")"))));
  allocated = length tuser + 2 + length nick + 2 + length hostinfo + 1;
}
labelled (some tuser) none hostinfo = with_host tuser (length tuser + 2) hostinfo
labelled none (some nick) hostinfo = record {
  text = nick ++ (literal "](" ++ (hostinfo ++ literal ")"));
  allocated = 2 + length nick + 2 + length hostinfo + 1;
}
labelled none none hostinfo = with_host [] 2 hostinfo

abbrev pub entry_user : Option UdataEnt → Option Text
entry_user none = none
entry_user (some e) = e.user

abbrev pub entry_nick : Option UdataEnt → Option Text
entry_nick none = none
entry_nick (some e) = e.nick

-- lcs_userinfo() of the client with that index.
unfoldable pub lcs_userinfo : Host → Server → ℕ → Option Text → Outcome Labelled
unfolding labelled
lcs_userinfo h s cl_idx user = do
  c ← client_at s cl_idx
  let tuent = udata_get_by_fd s.udata c.fd
  ok (labelled (shown_user user (entry_user tuent)) (entry_nick tuent) (h.ntoa c.address))

-- The text that lcs_userinfo() composes, with its NUL, fits the memory that was allocated for it.
pub labelled_fits :
    (user nick : Option Text) (hostinfo : Text)
    → length (labelled user nick hostinfo).text + 1 ≤ (labelled user nick hostinfo).allocated
unfolding labelled
labelled_fits none none hostinfo = omega (arith, length-append hostinfo (literal ")"))
labelled_fits none (some n) hostinfo = omega (
  arith,
  length-append n (literal "](" ++ (hostinfo ++ literal ")")),
  length-append hostinfo (literal ")"),
)
labelled_fits (some u) none hostinfo = omega (
  arith,
  length-append u (literal "(" ++ (hostinfo ++ literal ")")),
  length-append hostinfo (literal ")"),
)
labelled_fits (some u) (some n) hostinfo = omega (
  arith,
  length-append u (literal "[" ++ (n ++ (literal "](" ++ (hostinfo ++ literal ")")))),
  length-append n (literal "](" ++ (hostinfo ++ literal ")")),
  length-append hostinfo (literal ")"),
)
