-- ===== src/Udata/Lookup.antt =====
-- udata.c as a map from users to entries: what udata_get() finds after each operation.
use smsg.Base.{
  ◌≡◌, refl, List, [], ◌∷◌, ◌++◌, true, false, not, ◌&&◌, if◌then◌else◌, Option, none, some, arith,
}
use smsg.Base.Memory.{Memory, IsPlentiful}
use smsg.Base.Text.{Text, text_eq, text_eq_iff}
use smsg.Udata.{
  UdataEnt, Flags, first, modify, unlink, has_user, is_text, is_some, udata_get, udata_add,
  add_named, update_named, udata_update, udata_flagset, udata_flagunset, new_entry, update_entry,
  add_flags, drop_flags, copied, or_unset,
}

abbrev pub map_option : (UdataEnt → UdataEnt) → Option UdataEnt → Option UdataEnt
map_option change none = none
map_option change (some e) = some (change e)

-- A change leaves the user's name alone.
abbrev pub KeepsUser : (UdataEnt → UdataEnt) → Type 0
KeepsUser change = (e : UdataEnt) → (change e).user ≡ e.user

pub is_text_same :
    (u v : Text) (p : Option Text) → is_text u p ≡ true → is_text v p ≡ true → text_eq u v ≡ true
is_text_same u v none h k = cc
is_text_same u v (some t) h k = ground (arith, text_eq_iff u t, text_eq_iff v t, text_eq_iff u v)

pub is_text_other : (u v : Text) (p : Option Text) → text_eq u v ≡ true → is_text u p ≡ is_text v p
is_text_other u v p h = rw ((text_eq_iff u v).0 h)

pub first-modify :
    (u v : Text) (change : UdataEnt → UdataEnt) (l : List UdataEnt)
    → KeepsUser change
    → first (has_user u) (modify (has_user v) change l)
      ≡ (if text_eq u v then map_option change (first (has_user u) l) else first (has_user u) l)
unfolding first modify
first-modify u v change [] keeps = ground arith
first-modify u v change (e ∷ l) keeps = ground (
  arith,
  keeps e,
  is_text_same u v e.user,
  is_text_other u v e.user,
  first-modify u v change l keeps,
)

pub first-append :
    (u : Text) (l : List UdataEnt) (e : UdataEnt)
    → first (has_user u) (l ++ (e ∷ [])) ≡ (
        if is_some (first (has_user u) l)
        then first (has_user u) l
        else if has_user u e
        then some e
        else none)
unfolding first
first-append u [] e = refl
first-append u (x ∷ l) e = ground (arith, first-append u l e)

pub first-unlink :
    (u v : Text) (l : List UdataEnt)
    → text_eq u v ≡ false
    → first (has_user u) (unlink (has_user v) l) ≡ first (has_user u) l
unfolding first unlink
first-unlink u v [] h = refl
first-unlink u v (e ∷ l) h = ground (arith, is_text_same u v e.user, first-unlink u v l h)

pub copied_plenty : (m : Memory) (s : Option Text) → IsPlentiful m → copied m s ≡ true
copied_plenty m none p = refl
copied_plenty m (some s) p = p.all_copied s

-- With memory plentiful, adding an entry with a user gives a fresh user the new entry, lets a user
-- who has one keep it, and changes nobody else's.
pub udata_get-udata_add :
    (m : Memory) (l : List UdataEnt) (ne : UdataEnt) (user u : Text)
    → IsPlentiful m
    → ne.user ≡ some user
    → udata_get (udata_add m l ne).0 (some u) ≡ (
        if text_eq u user && not (is_some (udata_get l (some user)))
        then some (new_entry ne user)
        else udata_get l (some u))
unfolding udata_get udata_add
udata_get-udata_add m l ne user u p named = ground (
  arith,
  p.all_entries,
  p.all_copied user,
  p.all_copied (or_unset ne.tty),
  copied_plenty m ne.nick p,
  first-append u l (new_entry ne user),
  text_eq_iff u user,
)

-- Setting and clearing flags each change the flags of what udata_get() finds for that user, as
-- asked, and nothing that it finds for another.
pub udata_get-flags :
    (l : List UdataEnt) (user u : Text) (f : Flags)
    → (udata_get (udata_flagset l user f).0 (some u) ≡ (
        if text_eq u user
        then map_option (add_flags f) (udata_get l (some u))
        else udata_get l (some u)))
      × (udata_get (udata_flagunset l user f).0 (some u) ≡ (
          if text_eq u user
          then map_option (drop_flags f) (udata_get l (some u))
          else udata_get l (some u)))
unfolding udata_get udata_flagset udata_flagunset
udata_get-flags l user u f = (
  first-modify u user (add_flags f) l (λ e. refl),
  first-modify u user (drop_flags f) l (λ e. refl),
)

-- With memory plentiful, an update of a user who has an entry changes what udata_get() finds for
-- that user as asked, and for no other user.
pub udata_get-udata_update :
    (m : Memory) (l : List UdataEnt) (e : UdataEnt) (user u : Text)
    → IsPlentiful m
    → e.user ≡ some user
    → is_some (udata_get l (some user)) ≡ true
    → udata_get (udata_update m l e).0 (some u) ≡ (
        if text_eq u user
        then map_option (update_entry m e) (udata_get l (some u))
        else udata_get l (some u))
unfolding udata_get udata_update
udata_get-udata_update m l e user u p named held = ground (
  arith,
  copied_plenty m e.tty p,
  first-modify u user (update_entry m e) l (λ e'. unfold update_entry in refl),
)

-- The call of a function whose argument names a user, and of one whose argument names none.
pub udata_add-some :
    (m : Memory) (l : List UdataEnt) (ne : UdataEnt) (user : Text)
    → ne.user ≡ some user
    → udata_add m l ne ≡ add_named m l ne user
unfolding udata_add
udata_add-some m l ne user n = ground arith

pub udata_add-none :
    (m : Memory) (l : List UdataEnt) (ne : UdataEnt)
    → ne.user ≡ none
    → udata_add m l ne ≡ (l, false)
unfolding udata_add
udata_add-none m l ne n = ground arith

pub udata_update-some :
    (m : Memory) (l : List UdataEnt) (e : UdataEnt) (user : Text)
    → e.user ≡ some user
    → udata_update m l e ≡ update_named m l e user
unfolding udata_update
udata_update-some m l e user n = ground arith
