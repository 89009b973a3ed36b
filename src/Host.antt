-- ===== src/Host.antt =====
-- servmisc.c: what the server asks of the machine that it runs on. The machine's answers are
-- fields of `Host`; each handler is given the host as it finds it.
use smsg.Base.{
  ℕ, suc, ◌*◌, List, [], ◌∷◌, ◌++◌, length, drop, take, Bool, true, false, not, ◌&&◌, ◌||◌, ◌==◌,
  ltb, if◌then◌else◌, Option, none, some,
}
use smsg.Base.Outcome.{Outcome, ok, failed, fault, ◌>>=◌}
use smsg.Base.Memory.{Memory}
use smsg.Base.Text.{Text, literal, text_eq}

-- An entry that getutxent() returns; strings end at their field's end.
pub record Utmp : Type 0 where
  pub is_user_process : Bool
  pub is_login_process : Bool
  pub ut_user : Text
  pub ut_line : Text
  pub login : ℕ

pub record Host : Type 0 where
  pub memory : Memory
  -- getpwnam() finds the user
  pub user_exists : Text → Bool
  pub utmp : List Utmp
  -- stat() of a path succeeds and shows the group's write permission
  pub group_writable : Text → Bool
  -- open(), isatty() and fdopen() of a path succeed
  pub opens : Text → Bool
  -- send() to a descriptor succeeds
  pub sends : ℕ → List ℕ → Bool
  -- inet_ntoa()
  pub ntoa : ℕ → Text
  -- strerror() of the error that a refused allocation leaves
  pub strerror : Text
  -- " [hh:mm:ss]" of a login time, and "%i" of a number
  pub time_text : ℕ → Text
  pub decimal : ℕ → Text
  -- sizeof(struct userlist_ent)
  pub ent_size : ℕ

-- The address 127.0.0.1, its four bytes as one number.
abbrev pub local_address : ℕ
local_address = 2130706433

abbrev pub islocal : ℕ → Bool
islocal address = address == local_address

abbrev pub iswritabletty : Host → Text → Bool
iswritabletty h ttypath = h.group_writable ttypath

-- getutxline(): the first entry on that line of a login or a user's process.
unfoldable pub line_entry : Text → List Utmp → Option Utmp
line_entry line [] = none
line_entry line (u ∷ us) =
    let later = line_entry line us in
    if (u.is_user_process || u.is_login_process) && text_eq line u.ut_line then some u else later

-- `tty + 5` is behind the string's NUL if the name is shorter than "/dev/".
unfoldable pub isontty : Host → Text → Text → Outcome Bool
unfolding line_entry
isontty h user tty =
    if ltb (length tty) 5 then fault else (elim (line_entry (take 32 (drop 5 tty)) h.utmp) [
      | none ↦ ok false
      | some u ↦ ok (text_eq (take 32 u.ut_user) (take 32 user))
    ])

pub record UserlistEnt : Type 0 where
  pub name : Text
  pub tty : Text
  pub count : ℕ
  pub login : ℕ

-- `list[j].count++` for the first entry of that name, if there is one.
unfoldable pub count_login : Text → List UserlistEnt → Option (List UserlistEnt)
count_login name [] = none
count_login name (e ∷ l) =
    let rest : Option (List UserlistEnt) = elim (count_login name l) [
      | none ↦ none
      | some l' ↦ some (e ∷ l')
    ] in
    if text_eq e.name name then some (record e { count = suc e.count } ∷ l) else rest

abbrev pub first_login : Utmp → UserlistEnt
first_login u = record {
  name = u.ut_user;
  tty = literal "/dev/" ++ u.ut_line;
  count = 1;
  login = u.login;
}

abbrev pub is_empty_text : Text → Bool
is_empty_text [] = true
is_empty_text (a ∷ s) = false

-- `user == NULL || strcmp(namebuf, user) == 0`
abbrev pub is_wanted : Option Text → Text → Bool
is_wanted none name = true
is_wanted (some user) name = text_eq name user

abbrev pub is_counted : Option Text → Utmp → Bool
is_counted user u = u.is_user_process && (not (is_empty_text u.ut_user) && is_wanted user u.ut_user)

-- The list after one entry, or failure.
unfoldable pub add_login : Host → Utmp → List UserlistEnt → Outcome (List UserlistEnt)
unfolding count_login
add_login h u l = elim (count_login u.ut_user l) [
  | some l' ↦ ok l'
  | none ↦
      if h.memory.grants (h.ent_size * suc (length l))
      then ok (l ++ (first_login u ∷ []))
      else failed
]

unfoldable pub userlist_loop :
    Host → Option Text → List Utmp → List UserlistEnt → Outcome (List UserlistEnt)
unfolding add_login
userlist_loop h user [] l = ok l
userlist_loop h user (u ∷ us) l =
    (if is_counted user u then add_login h u l else ok l) >>= λ l'. userlist_loop h user us l'

abbrev pub end_entry : UserlistEnt
end_entry = record { name = []; tty = []; count = 0; login = 0 }

-- `failed` is a null pointer. The array ends with an entry whose count is 0.
unfoldable pub get_userlist : Host → Option Text → Outcome (List UserlistEnt)
unfolding userlist_loop
get_userlist h user = userlist_loop h user h.utmp [] >>= λ l.
    if h.memory.grants (h.ent_size * suc (length l)) then ok (l ++ (end_entry ∷ [])) else failed

unfoldable pub is_listed : Outcome (List UserlistEnt) → Bool
is_listed (ok (e ∷ l)) = not (e.count == 0)
is_listed (ok []) = false
is_listed failed = false
is_listed fault = false

unfoldable pub isloggedin : Host → Text → Bool
unfolding get_userlist is_listed
isloggedin h user = is_listed (get_userlist h (some user))
