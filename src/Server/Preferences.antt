-- ===== src/Server/Preferences.antt =====
-- The preferences that the server keeps, SETPREF and GETPREF of server.c on the table of udata.c, as
-- a map from users to preferences.
use smsg.Base.{
  ℕ, ◌≡◌, refl, ap, sym, ◌∙◌, List, Bool, true, false, ◌==◌, if◌then◌else◌, Option, none, some,
  arith, Bool-cases, if_keeps, if_keeps_eq, inl, inr,
}
use smsg.Base.Memory.{Memory, IsPlentiful}
use smsg.Base.Text.{Text, text_eq, text_eq→eq, text_eq_refl}
use smsg.Udata.{
  UdataEnt, udata_get, udata_update, udata_add, udata_def, udata_leave, ttyset_unset, update_named,
  update_entry, new_entry, or_old, or_unset, is_some, is_default,
}
use smsg.Udata.Lookup.{udata_get-udata_update, udata_get-udata_add, map_option, udata_update-some}
use smsg.Server.Prefs.{preferences, unless_empty}

-- What is known of a user's wishes. A user who is unknown has none.
pub record Wishes : Type 0 where
  pub tty : Option Text
  pub beep : ℕ
  pub mode : ℕ

unfoldable pub wishes_of : Option UdataEnt → Wishes
wishes_of none = record { tty = some ttyset_unset; beep = udata_def; mode = udata_def }
wishes_of (some e) = record { tty = e.tty; beep = e.beep; mode = e.mode }

-- The abstract view of the table.
unfoldable pub wishes : List UdataEnt → Text → Wishes
unfolding wishes_of
wishes l user = wishes_of (udata_get l (some user))

-- A setting that is not given, or is given as `udata_leave`, is left as it was.
unfoldable pub assign : Option Text → ℕ → ℕ → Wishes → Wishes
assign tty beep mode old = record {
  tty = or_old (unless_empty tty) old.tty;
  beep = if beep == udata_leave then old.beep else beep;
  mode = if mode == udata_leave then old.mode else mode;
}

-- An entry that is there is given the wishes.
updated :
    (m : Memory) (o : Option UdataEnt) (user tty : Option Text) (beep mode : ℕ)
    → is_some o ≡ true
    → wishes_of (map_option (update_entry m (preferences user tty beep mode)) o)
      ≡ assign tty beep mode (wishes_of o)
unfolding wishes_of assign update_entry
updated m none user tty beep mode h = cc
updated m (some e) user tty beep mode h = refl

or_unset-or_old : (o : Option Text) → some (or_unset o) ≡ or_old o (some ttyset_unset)
or_unset-or_old none = refl
or_unset-or_old (some s) = refl

-- A new entry starts from no wishes.
fresh_entry :
    (o : Option UdataEnt) (user : Text) (tty : Option Text) (beep mode : ℕ)
    → is_some o ≡ false
    → wishes_of (some (new_entry (preferences (some user) tty beep mode) user))
      ≡ assign tty beep mode (wishes_of o)
unfolding wishes_of assign new_entry
fresh_entry none user tty beep mode h = rw (or_unset-or_old (unless_empty tty)) refl
fresh_entry (some e) user tty beep mode h = cc

-- Wishes that are none need no entry.
no_entry :
    (o : Option UdataEnt) (user tty : Option Text) (beep mode : ℕ)
    → is_some o ≡ false
    → is_default (preferences user tty beep mode) ≡ true
    → wishes_of o ≡ assign tty beep mode (wishes_of o)
unfolding wishes_of assign
no_entry none user tty beep mode h d =
    let tty_unset : or_unset (unless_empty tty) ≡ ttyset_unset =
      text_eq→eq (or_unset (unless_empty tty)) ttyset_unset (ground arith) in
    let same_tty : or_old (unless_empty tty) (some ttyset_unset) ≡ some ttyset_unset =
      sym (or_unset-or_old (unless_empty tty)) ∙ ap some tty_unset in
    let same_beep : (if beep == udata_leave then udata_def else beep) ≡ udata_def = ground arith in
    let same_mode : (if mode == udata_leave then udata_def else mode) ≡ udata_def = ground arith in
    rw (same_tty, same_beep, same_mode) refl
no_entry (some e) user tty beep mode h d = cc

update_fresh :
    (m : Memory) (l : List UdataEnt) (e : UdataEnt) (user : Text)
    → e.user ≡ some user
    → is_some (udata_get l (some user)) ≡ false
    → udata_update m l e ≡ (if is_default e then (l, true) else udata_add m l e)
unfolding update_named
update_fresh m l e user named fresh = rw (udata_update-some m l e user named, fresh) refl

unchanged :
    (m : Memory) (l : List UdataEnt) (e : UdataEnt) (user u : Text)
    → IsPlentiful m
    → e.user ≡ some user
    → text_eq u user ≡ false
    → udata_get (udata_update m l e).0 (some u) ≡ udata_get l (some u)
unchanged m l e user u p named other =
    let added = udata_get-udata_add m l e user u p named in
    let changed = udata_get-udata_update m l e user u p named in
    elim (Bool-cases (is_some (udata_get l (some user)))) [
      | inl held ↦ rw (changed held, other) refl
      | inr fresh ↦ rw (update_fresh m l e user named fresh) (
          if_keeps {A = List UdataEnt × Bool} (λ r. udata_get r.0 (some u) ≡ udata_get l (some u))
            (is_default e) refl (rw (added, other) refl))
    ]

own :
    (m : Memory) (l : List UdataEnt) (user : Text) (tty : Option Text) (beep mode : ℕ)
    → IsPlentiful m
    → wishes (udata_update m l (preferences (some user) tty beep mode)).0 user
      ≡ assign tty beep mode (wishes l user)
unfolding wishes
own m l user tty beep mode p =
    let e = preferences (some user) tty beep mode in
    elim (Bool-cases (is_some (udata_get l (some user)))) [
      | inl held ↦
          rw (udata_get-udata_update m l e user user p refl held, text_eq_refl user)
            (updated m (udata_get l (some user)) (some user) tty beep mode held)
      | inr fresh ↦ rw (update_fresh m l e user refl fresh) (
          if_keeps_eq {A = List UdataEnt × Bool}
            (λ r.
              wishes_of (udata_get r.0 (some user))
              ≡ assign tty beep mode (wishes_of (udata_get l (some user))))
            (is_default e)
            (λ d. no_entry (udata_get l (some user)) (some user) tty beep mode fresh d)
            (λ d.
              rw (udata_get-udata_add m l e user user p refl, text_eq_refl user, fresh)
                (fresh_entry (udata_get l (some user)) user tty beep mode fresh)))
    ]

-- With memory plentiful, udata_update() of the entry that SETPREF builds implements an assignment
-- in a map from users to preferences, in which a user without an entry has the default ones: the
-- user's are assigned, each that is left out kept as it was, and nobody else's change.
pub wishes-udata_update :
    (m : Memory) (l : List UdataEnt) (user u : Text) (tty : Option Text) (beep mode : ℕ)
    → IsPlentiful m
    → wishes (udata_update m l (preferences (some user) tty beep mode)).0 u
      ≡ (if text_eq u user then assign tty beep mode (wishes l u) else wishes l u)
wishes-udata_update m l user u tty beep mode p = elim (Bool-cases (text_eq u user)) [
  | inl same ↦ rw (same, text_eq→eq u user same) (own m l user tty beep mode p)
  | inr other ↦ rw other (
      unfold wishes in
      ap wishes_of (unchanged m l (preferences (some user) tty beep mode) user u p refl other))
]
