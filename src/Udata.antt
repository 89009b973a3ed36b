-- ===== src/Udata.antt =====
-- udata.c: the server's table of user preferences and chat state. The linked list is a `List` in
-- the order of its links; an entry is found anew by its user where the source keeps a pointer.
pub mod Lookup
pub mod Fields
pub mod Distinct
use smsg.Base.{
  ℕ, ◌≡◌, List, [], ◌∷◌, ◌++◌, Bool, true, false, not, ◌&&◌, ◌||◌, ◌==◌, if◌then◌else◌, Option,
  none, some,
}
use smsg.Base.Memory.{Memory}
use smsg.Base.Text.{Text, literal, text_eq}

-- The bits of `flags` that the program uses, `UDATA_CFLAGS`.
pub record Flags : Type 0 where
  pub operator : Bool
  pub away : Bool
  pub present : Bool
  pub banned : Bool
  pub superuser : Bool

abbrev pub no_flags : Flags
no_flags = record {
  operator = false;
  away = false;
  present = false;
  banned = false;
  superuser = false;
}

-- `flags |= f`
abbrev pub union : Flags → Flags → Flags
union a f = record {
  operator = a.operator || f.operator;
  away = a.away || f.away;
  present = a.present || f.present;
  banned = a.banned || f.banned;
  superuser = a.superuser || f.superuser;
}

-- `flags &= ~f`
abbrev pub minus : Flags → Flags → Flags
minus a f = record {
  operator = a.operator && not f.operator;
  away = a.away && not f.away;
  present = a.present && not f.present;
  banned = a.banned && not f.banned;
  superuser = a.superuser && not f.superuser;
}

abbrev pub is_empty : Flags → Bool
is_empty f = not (f.operator || f.away || f.present || f.banned || f.superuser)

-- `char` fields are kept as their bytes.
abbrev pub udata_leave : ℕ
udata_leave = 254

abbrev pub udata_def : ℕ
udata_def = 255

abbrev pub ttyset_unset : Text
ttyset_unset = literal "none"

-- A null pointer is `none`, and so is the fd -1.
pub record UdataEnt : Type 0 where
  pub user : Option Text
  pub tty : Option Text
  pub beep : ℕ
  pub mode : ℕ
  pub queue : Option (List ℕ)
  pub fd : Option ℕ
  pub nick : Option Text
  pub flags : Flags

abbrev pub udata_def_entry : UdataEnt
udata_def_entry = record {
  user = none;
  tty = none;
  beep = udata_leave;
  mode = udata_leave;
  queue = none;
  fd = none;
  nick = none;
  flags = no_flags;
}

-- `p && strcmp(s, p) == 0`
abbrev pub is_text : Text → Option Text → Bool
is_text s none = false
is_text s (some t) = text_eq s t

abbrev pub is_some : {A : Type 0} → Option A → Bool
is_some none = false
is_some (some a) = true

abbrev pub fd_eq : Option ℕ → Option ℕ → Bool
fd_eq none none = true
fd_eq none (some b) = false
fd_eq (some a) none = false
fd_eq (some a) (some b) = a == b

-- The loop that walks the list up to the first entry that passes the test.
unfoldable pub first : (UdataEnt → Bool) → List UdataEnt → Option UdataEnt
first test [] = none
first test (e ∷ l) = if test e then some e else first test l

-- An assignment through the pointer to that entry.
unfoldable pub modify : (UdataEnt → Bool) → (UdataEnt → UdataEnt) → List UdataEnt → List UdataEnt
modify test change [] = []
modify test change (e ∷ l) = if test e then change e ∷ l else e ∷ modify test change l

abbrev pub has_user : Text → UdataEnt → Bool
has_user user e = is_text user e.user

abbrev pub has_nick : Text → UdataEnt → Bool
has_nick nick e = is_some e.fd && (e.flags.present && is_text nick e.nick)

abbrev pub has_fd : Option ℕ → UdataEnt → Bool
has_fd fd e = fd_eq fd e.fd && e.flags.present

unfoldable pub udata_get : List UdataEnt → Option Text → Option UdataEnt
udata_get l none = none
udata_get l (some user) = first (has_user user) l

unfoldable pub udata_get_by_nick : List UdataEnt → Option Text → Option UdataEnt
udata_get_by_nick l none = none
udata_get_by_nick l (some nick) = first (has_nick nick) l

unfoldable pub udata_get_by_fd : List UdataEnt → Option ℕ → Option UdataEnt
udata_get_by_fd l fd = first (has_fd fd) l

-- strdup() of a string that may be null.
abbrev pub copied : Memory → Option Text → Bool
copied m none = true
copied m (some s) = m.copies s

abbrev pub or_unset : Option Text → Text
or_unset none = ttyset_unset
or_unset (some tty) = tty

-- The entry that udata_add() links in.
unfoldable pub new_entry : UdataEnt → Text → UdataEnt
new_entry ne user = record {
  user = some user;
  tty = some (or_unset ne.tty);
  beep = if ne.beep == udata_leave then udata_def else ne.beep;
  mode = if ne.mode == udata_leave then udata_def else ne.mode;
  queue = none;
  fd = ne.fd;
  nick = ne.nick;
  flags = no_flags;
}

-- The list afterwards, and whether 0 is returned.
unfoldable pub add_named : Memory → List UdataEnt → UdataEnt → Text → List UdataEnt × Bool
unfolding new_entry udata_get
add_named m l ne user =
    if is_some (udata_get l (some user))
    then (l, false)
    else if m.entry && (m.copies user && (m.copies (or_unset ne.tty) && copied m ne.nick))
    then (l ++ (new_entry ne user ∷ []), true)
    else (l, false)

unfoldable pub udata_add : Memory → List UdataEnt → UdataEnt → List UdataEnt × Bool
unfolding add_named
udata_add m l ne = elim ne.user [ none ↦ (l, false) | some user ↦ add_named m l ne user ]

unfoldable pub unlink : (UdataEnt → Bool) → List UdataEnt → List UdataEnt
unlink test [] = []
unlink test (e ∷ l) = if test e then l else e ∷ unlink test l

unfoldable pub udata_remove : List UdataEnt → Option Text → List UdataEnt × Bool
unfolding udata_get unlink
udata_remove l none = (l, false)
udata_remove l (some user) =
    if is_some (udata_get l (some user)) then (unlink (has_user user) l, true) else (l, false)

-- Nothing is set that would be worth an entry.
abbrev pub is_default : UdataEnt → Bool
is_default e =
    text_eq (or_unset e.tty) ttyset_unset
    && ((e.beep == udata_leave || e.beep == udata_def)
        && ((e.mode == udata_leave || e.mode == udata_def) && is_empty e.flags))

abbrev pub or_old {ℓ} : {A : Type ℓ} → Option A → Option A → Option A
or_old none old = old
or_old (some new) old = some new

-- The assignments to a present entry; the new nick is not stored if it cannot be copied.
unfoldable pub update_entry : Memory → UdataEnt → UdataEnt → UdataEnt
update_entry m e tent = record tent {
  tty = or_old e.tty tent.tty;
  beep = if e.beep == udata_leave then tent.beep else e.beep;
  mode = if e.mode == udata_leave then tent.mode else e.mode;
  fd = or_old e.fd tent.fd;
  nick = if copied m e.nick then or_old e.nick tent.nick else tent.nick;
}

unfoldable pub update_named : Memory → List UdataEnt → UdataEnt → Text → List UdataEnt × Bool
unfolding udata_get udata_add update_entry modify
update_named m l e user =
    if is_some (udata_get l (some user))
    then (if copied m e.tty
        then (modify (has_user user) (update_entry m e) l, copied m e.nick)
        else (l, false))
    else if is_default e
    then (l, true)
    else udata_add m l e

unfoldable pub udata_update : Memory → List UdataEnt → UdataEnt → List UdataEnt × Bool
unfolding update_named
udata_update m l e = elim e.user [
  | none ↦ if is_default e then (l, true) else udata_add m l e
  | some user ↦ update_named m l e user
]

abbrev pub with_queue : Option (List ℕ) → UdataEnt → UdataEnt
with_queue q e = record e { queue = q }

unfoldable pub udata_set_qp : Memory → List UdataEnt → Text → Option (List ℕ) → List UdataEnt × Bool
unfolding udata_get udata_add modify
udata_set_qp m l user q =
    if is_some (udata_get l (some user))
    then (modify (has_user user) (with_queue q) l, true)
    else (let (l', added) = udata_add m l (record udata_def_entry { user = some user }) in
        (if added then modify (has_user user) (with_queue q) l' else l', added))

unfoldable pub udata_get_qp : List UdataEnt → Text → Option (List ℕ)
unfolding udata_get
udata_get_qp l user = elim (udata_get l (some user)) [ none ↦ none | some e ↦ e.queue ]

abbrev pub add_flags : Flags → UdataEnt → UdataEnt
add_flags f e = record e { flags = union e.flags f }

abbrev pub drop_flags : Flags → UdataEnt → UdataEnt
drop_flags f e = record e { flags = minus e.flags f }

-- -1 where the user has no entry; `modify` then changes nothing.
unfoldable pub udata_flagset : List UdataEnt → Text → Flags → List UdataEnt × Bool
unfolding udata_get modify
udata_flagset l user f = (modify (has_user user) (add_flags f) l, is_some (udata_get l (some user)))

unfoldable pub udata_flagunset : List UdataEnt → Text → Flags → List UdataEnt × Bool
unfolding udata_get modify
udata_flagunset l user f =
    (modify (has_user user) (drop_flags f) l, is_some (udata_get l (some user)))
