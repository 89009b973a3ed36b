-- ===== src/Server/Prefs.antt =====
-- server.c, ls_handle_netcmd(): the preferences of a user, `case SETPREF` and `case GETPREF`.
use smsg.Base.{ℕ, List, [], ◌∷◌, true, false, not, if◌then◌else◌, Option, none, some}
use smsg.Base.Outcome.{Outcome, ok, fault, ◌>>=◌}
use smsg.Base.Text.{Text}
use smsg.Ncmd.Opcode.{code, ack, pref}
use smsg.Udata.{UdataEnt, udata_get, udata_update, udata_def_entry, udata_def, ttyset_unset}
use smsg.Host.{Host, islocal, isloggedin, is_empty_text}
use smsg.Server.Message.{
  answer, refuse, error_not_local, error_no_such_user, error_user_not_logged_in,
}
use smsg.Server.{Server, Client, Reply, client_at, with_udata, fetch, deref, text_of}

-- `targ[0]`
unfoldable pub byte_of : Option (List ℕ) → Outcome ℕ
byte_of none = fault
byte_of (some []) = fault
byte_of (some (b ∷ bs)) = ok b

-- An empty terminal name is turned into a null pointer.
abbrev pub unless_empty : Option Text → Option Text
unless_empty none = none
unless_empty (some s) = if is_empty_text s then none else some s

-- The preferences as udata_update() is given them.
abbrev pub preferences : Option Text → Option Text → ℕ → ℕ → UdataEnt
preferences user tty tbeep tmode = record udata_def_entry {
  user = user;
  tty = unless_empty tty;
  beep = tbeep;
  mode = tmode;
}

-- The result of udata_update() in the table, and the reply. -1 comes of refused memory only.
unfoldable pub store_prefs : Host → Server → Client → UdataEnt → Outcome (Server × Reply)
unfolding answer refuse udata_update
store_prefs h s c tue =
    let r = udata_update h.memory s.udata tue in
    if r.1
    then answer h (with_udata s r.0) c (code ack) []
    else refuse h (with_udata s r.0) c h.strerror

-- The branch of a local, known and logged in user; `targ0` holds the name.
unfoldable pub set_prefs : Host → Server → Client → Option (List ℕ) → Outcome (Server × Reply)
unfolding byte_of store_prefs
set_prefs h s c targ0 = do
  targ0 ← fetch h.memory c.buf targ0 2 false
  targ1 ← fetch h.memory c.buf none 3 true
  tbeep ← byte_of targ0
  tmode ← byte_of targ1
  targ0 ← fetch h.memory c.buf targ0 0 true
  targ1 ← fetch h.memory c.buf targ1 1 true
  store_prefs h s c (preferences (text_of targ0) (text_of targ1) tbeep tmode)

-- `case SETPREF`
unfoldable pub handle_setpref : Host → Server → ℕ → Outcome (Server × Reply)
unfolding set_prefs refuse
handle_setpref h s cl = do
  c ← client_at s cl
  targ0 ← fetch h.memory c.buf none 0 true
  if not (islocal c.address)
      then refuse h s c error_not_local
      else (deref (text_of targ0) >>= λ user.
          if not (h.user_exists user)
          then refuse h s c error_no_such_user
          else if not (isloggedin h user)
          then refuse h s c error_user_not_logged_in
          else set_prefs h s c targ0)

-- The arguments of the reply to GETPREF, by the user's entry.
abbrev pub pref_args : Option UdataEnt → List (Option (List ℕ))
pref_args none = some ttyset_unset ∷ some (udata_def ∷ []) ∷ some (udata_def ∷ []) ∷ []
pref_args (some e) = e.tty ∷ some (e.beep ∷ []) ∷ some (e.mode ∷ []) ∷ []

-- `case GETPREF`
unfoldable pub handle_getpref : Host → Server → ℕ → Outcome (Server × Reply)
unfolding answer refuse
handle_getpref h s cl = do
  c ← client_at s cl
  targ0 ← fetch h.memory c.buf none 0 true
  if not (islocal c.address)
      then refuse h s c error_not_local
      else (deref (text_of targ0) >>= λ user.
          if not (h.user_exists user)
          then refuse h s c error_no_such_user
          else answer h s c (code pref) (pref_args (udata_get s.udata (some user))))
