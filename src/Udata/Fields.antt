-- ===== src/Udata/Fields.antt =====
-- udata.c: what adding, updating and the flags do to each field of an entry, and to nobody else's.
use smsg.Base.{
  ℕ, ◌≡◌, refl, ◌∙◌, List, Bool, true, false, if◌then◌else◌, Option, none, some, arith, ◌==◌,
}
use smsg.Base.Memory.{Memory, IsPlentiful}
use smsg.Base.Text.{Text, literal, text_eq, text_eq_refl}
use smsg.Udata.{
  UdataEnt, Flags, no_flags, udata_get, udata_add, add_named, udata_update, udata_flagset,
  udata_flagunset, new_entry, update_entry, is_some, add_flags, drop_flags, or_unset, or_old,
}
use smsg.Udata.Lookup.{
  udata_get-udata_add, udata_get-udata_update, udata_get-flags, udata_add-some, copied_plenty,
}

-- A string that is given is taken, and a null pointer leaves the other.
abbrev pub Takes : Option Text → Option Text → Option Text → Type 0
Takes given other new = (given ≡ none → new ≡ other) × ((t : Text) → given ≡ some t → new ≡ some t)

-- A number that is given is taken, and 254, which stands for none, leaves the other.
abbrev pub TakesNumber : ℕ → ℕ → ℕ → Type 0
TakesNumber given other new = (given ≡ 254 → new ≡ other) × (¬ (given ≡ 254) → new ≡ given)

-- The entry of a new user: 255 stands for the default, and what only others set is unset.
pub record IsAdded (ne : UdataEnt) (user : Text) (new : UdataEnt) : Type 0 where
  pub its_user : new.user ≡ some user
  pub its_tty : Takes ne.tty (some (literal "none")) new.tty
  pub its_beep : TakesNumber ne.beep 255 new.beep
  pub its_mode : TakesNumber ne.mode 255 new.mode
  pub its_queue : new.queue ≡ none
  pub its_fd : new.fd ≡ ne.fd
  pub its_nick : new.nick ≡ ne.nick
  pub its_flags : new.flags ≡ no_flags

-- The entry of a user that had one.
pub record IsUpdated (e old new : UdataEnt) : Type 0 where
  pub its_user : new.user ≡ old.user
  pub its_tty : Takes e.tty old.tty new.tty
  pub its_beep : TakesNumber e.beep old.beep new.beep
  pub its_mode : TakesNumber e.mode old.mode new.mode
  pub its_queue : new.queue ≡ old.queue
  pub its_fd : (e.fd ≡ none → new.fd ≡ old.fd) × ((fd : ℕ) → e.fd ≡ some fd → new.fd ≡ some fd)
  pub its_nick : Takes e.nick old.nick new.nick
  pub its_flags : new.flags ≡ old.flags

number_taken : (given other : ℕ) → TakesNumber given other (if given == 254 then other else given)
number_taken given other = ((λ e. rw e refl), (λ other_one. ground arith))

or_old-Takes {ℓ} :
    {A : Type ℓ} (given other : Option A)
    → (given ≡ none → or_old given other ≡ other)
      × ((a : A) → given ≡ some a → or_old given other ≡ some a)
or_old-Takes given other = ((λ e. rw e refl), (λ a e. rw e refl))

or_unset-Takes : (given : Option Text) → Takes given (some (literal "none")) (some (or_unset given))
or_unset-Takes given = ((λ e. rw e refl), (λ a e. rw e refl))

new_entry-IsAdded : (ne : UdataEnt) (user : Text) → IsAdded ne user (new_entry ne user)
unfolding new_entry
new_entry-IsAdded ne user = record {
  its_user = refl;
  its_tty = or_unset-Takes ne.tty;
  its_beep = number_taken ne.beep 255;
  its_mode = number_taken ne.mode 255;
  its_queue = refl;
  its_fd = refl;
  its_nick = refl;
  its_flags = refl;
}

update_entry-IsUpdated :
    (m : Memory) (e old : UdataEnt) → IsPlentiful m → IsUpdated e old (update_entry m e old)
unfolding update_entry
update_entry-IsUpdated m e old p = record {
  its_user = refl;
  its_tty = or_old-Takes e.tty old.tty;
  its_beep = number_taken e.beep old.beep;
  its_mode = number_taken e.mode old.mode;
  its_queue = refl;
  its_fd = or_old-Takes e.fd old.fd;
  its_nick = rw (copied_plenty m e.nick p) (or_old-Takes e.nick old.nick);
  its_flags = refl;
}

-- With memory plentiful, adding an entry with a user leaves the table as it is and fails if the
-- user has an entry already. Otherwise it succeeds, and the user's entry has the terminal, beep and
-- mode that are given, or the text "none" and UDATA_DEF for those that are not, the fd and the nick
-- given, no queue and no flags. Either way what udata_get() finds for other users is as before.
pub udata_add_lem :
    (m : Memory) (l : List UdataEnt) (ne : UdataEnt) (user : Text)
    → IsPlentiful m
    → ne.user ≡ some user
    → (is_some (udata_get l (some user)) ≡ true → udata_add m l ne ≡ (l, false))
      × (udata_get l (some user) ≡ none
          → ((udata_add m l ne).1 ≡ true)
            × ((new : UdataEnt) × (udata_get (udata_add m l ne).0 (some user) ≡ some new)
                × IsAdded ne user new))
      × ((u : Text)
          → text_eq u user ≡ false
          → udata_get (udata_add m l ne).0 (some u) ≡ udata_get l (some u))
unfolding add_named
udata_add_lem m l ne user p named =
    let call = udata_add-some m l ne user named in
    (
      (λ held. call ∙ rw held refl),
      (λ fresh. (
        rw
            (
              call,
              fresh,
              p.all_entries,
              p.all_copied user,
              p.all_copied (or_unset ne.tty),
              copied_plenty m ne.nick p,
            )
            refl,
        (
          new_entry ne user,
          udata_get-udata_add m l ne user user p named ∙ rw (text_eq_refl user, fresh) refl,
          new_entry-IsAdded ne user,
        ),
      )),
      (λ u other. udata_get-udata_add m l ne user u p named ∙ rw other refl),
    )

-- With memory plentiful, after an update of a user who has an entry, that user's entry has the
-- terminal, beep, mode, fd and nick that the update gives, and for each that it does not give (a
-- null pointer, UDATA_LEAVE for beep and mode, -1 for the fd) the old one; user, queue and flags
-- are the old ones, and what udata_get() finds for other users is as before.
pub udata_update_lem :
    (m : Memory) (l : List UdataEnt) (e : UdataEnt) (user : Text) (old : UdataEnt)
    → IsPlentiful m
    → e.user ≡ some user
    → udata_get l (some user) ≡ some old
    → ((new : UdataEnt) × (udata_get (udata_update m l e).0 (some user) ≡ some new)
        × IsUpdated e old new)
      × ((u : Text)
          → text_eq u user ≡ false
          → udata_get (udata_update m l e).0 (some u) ≡ udata_get l (some u))
udata_update_lem m l e user old p named found =
    let held : is_some (udata_get l (some user)) ≡ true = rw found refl in
    (
      (
        update_entry m e old,
        udata_get-udata_update m l e user user p named held ∙ rw (text_eq_refl user, found) refl,
        update_entry-IsUpdated m e old p,
      ),
      (λ u other. udata_get-udata_update m l e user u p named held ∙ rw other refl),
    )

-- The flags one by one.
pub data Flag : Type 0 where
  operator_flag away_flag present_flag banned_flag superuser_flag : Flag

abbrev pub is_set : Flags → Flag → Bool
is_set f operator_flag = f.operator
is_set f away_flag = f.away
is_set f present_flag = f.present
is_set f banned_flag = f.banned
is_set f superuser_flag = f.superuser

-- The flags that are asked for get one value, and the rest of the entry is as it was.
pub record IsAssigned (value : Bool) (f : Flags) (old new : UdataEnt) : Type 0 where
  pub asked : (k : Flag) → is_set f k ≡ true → is_set new.flags k ≡ value
  pub others : (k : Flag) → is_set f k ≡ false → is_set new.flags k ≡ is_set old.flags k
  pub rest : record new { flags = old.flags } ≡ old

add_flags-IsAssigned : (old : UdataEnt) (f : Flags) → IsAssigned true f old (add_flags f old)
add_flags-IsAssigned old f = record { asked = added; others = left; rest = refl }
  where
    added : (k : Flag) → is_set f k ≡ true → is_set (add_flags f old).flags k ≡ true
    added operator_flag h = ground arith
    added away_flag h = ground arith
    added present_flag h = ground arith
    added banned_flag h = ground arith
    added superuser_flag h = ground arith

    left : (k : Flag) → is_set f k ≡ false → is_set (add_flags f old).flags k ≡ is_set old.flags k
    left operator_flag h = ground arith
    left away_flag h = ground arith
    left present_flag h = ground arith
    left banned_flag h = ground arith
    left superuser_flag h = ground arith

drop_flags-IsAssigned : (old : UdataEnt) (f : Flags) → IsAssigned false f old (drop_flags f old)
drop_flags-IsAssigned old f = record { asked = cleared; others = left; rest = refl }
  where
    cleared : (k : Flag) → is_set f k ≡ true → is_set (drop_flags f old).flags k ≡ false
    cleared operator_flag h = ground arith
    cleared away_flag h = ground arith
    cleared present_flag h = ground arith
    cleared banned_flag h = ground arith
    cleared superuser_flag h = ground arith

    left : (k : Flag) → is_set f k ≡ false → is_set (drop_flags f old).flags k ≡ is_set old.flags k
    left operator_flag h = ground arith
    left away_flag h = ground arith
    left present_flag h = ground arith
    left banned_flag h = ground arith
    left superuser_flag h = ground arith

-- For a user who has an entry, udata_flagset() sets in it, and udata_flagunset() clears in it, each
-- flag that is asked for and leaves each other flag and every other field as it was; what
-- udata_get() finds for other users is as before.
pub udata_flagset_lem :
    (l : List UdataEnt) (user : Text) (old : UdataEnt) (f : Flags)
    → udata_get l (some user) ≡ some old
    → ((new : UdataEnt) × (udata_get (udata_flagset l user f).0 (some user) ≡ some new)
        × IsAssigned true f old new)
      × ((new : UdataEnt) × (udata_get (udata_flagunset l user f).0 (some user) ≡ some new)
          × IsAssigned false f old new)
      × ((u : Text)
          → text_eq u user ≡ false
          → (udata_get (udata_flagset l user f).0 (some u) ≡ udata_get l (some u))
            × (udata_get (udata_flagunset l user f).0 (some u) ≡ udata_get l (some u)))
udata_flagset_lem l user old f found =
    let same = udata_get-flags l user user f in
    (
      (add_flags f old, same.0 ∙ rw (text_eq_refl user, found) refl, add_flags-IsAssigned old f),
      (drop_flags f old, same.1 ∙ rw (text_eq_refl user, found) refl, drop_flags-IsAssigned old f),
      (λ u other.
          let both = udata_get-flags l user u f in
          (both.0 ∙ rw other refl, both.1 ∙ rw other refl)),
    )
