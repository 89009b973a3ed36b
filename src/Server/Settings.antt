-- ===== src/Server/Settings.antt =====
-- SETPREF and GETPREF as they come over the wire: what the handlers do to the users' preferences.
use smsg.Base.{
  ℕ, ◌≡◌, refl, ap, ◌∙◌, List, [], ◌∷◌, ◌++◌, Bool, true, false, Option, none, some, get_elem?,
  if◌then◌else◌, Bool-cases, inl, inr, if_keeps,
}
use smsg.Base.Outcome.{Outcome, ok}
use smsg.Base.Memory.{Memory, IsPlentiful}
use smsg.Base.Text.{Text, text_eq, has_nul, c_string-terminated}
use smsg.Ncmd.Opcode.{code, ack, pref, setpref, getpref}
use smsg.Ncmd.Frame.{Command, encode, IsSized}
use smsg.Calls.Encode.{fetch-encode, compose-encode, command}
use smsg.Udata.{
  UdataEnt, udata_get, udata_update, udata_add, is_some, is_default, or_unset, add_named,
  update_named,
}
use smsg.Udata.Lookup.{copied_plenty, udata_update-some}
use smsg.Host.{Host, local_address, isloggedin}
use smsg.Server.Message.{answer}
use smsg.Server.Prefs.{
  handle_setpref, handle_getpref, preferences, pref_args, set_prefs, store_prefs, byte_of,
}
use smsg.Server.Preferences.{wishes, wishes_of, Wishes, assign, wishes-udata_update}
use smsg.Server.{Server, Client, Reply, normal, with_udata, sendbuf}

-- The command went out on a descriptor.
abbrev pub with_sent : Server → ℕ → Command → Server
with_sent s fd c = record s { sent = s.sent ++ ((fd, encode c) ∷ []) }

pub answer_lem :
    (h : Host) (s : Server) (c : Client) (fd op : ℕ) (args : List (Option (List ℕ)))
    → IsPlentiful h.memory
    → c.fd ≡ some fd
    → answer h s c op args ≡ ok (with_sent s fd (command op args), normal)
unfolding answer sendbuf
answer_lem h s c fd op args p e = rw (compose-encode h.memory [] op args p, e) refl

added_ok :
    (m : Memory) (l : List UdataEnt) (e : UdataEnt) (user : Text)
    → IsPlentiful m
    → is_some (udata_get l (some user)) ≡ false
    → (add_named m l e user).1 ≡ true
unfolding add_named
added_ok m l e user p fresh =
    rw
      (
        fresh,
        p.all_entries,
        p.all_copied user,
        p.all_copied (or_unset e.tty),
        copied_plenty m e.nick p,
      )
      refl

-- Only refused memory makes udata_update() fail.
pub updated_ok :
    (m : Memory) (l : List UdataEnt) (e : UdataEnt) (user : Text)
    → IsPlentiful m
    → e.user ≡ some user
    → (udata_update m l e).1 ≡ true
unfolding update_named udata_add
updated_ok m l e user p named =
    rw (udata_update-some m l e user named) (elim (Bool-cases (is_some (udata_get l (some user)))) [
      | inl held ↦ rw (held, copied_plenty m e.tty p, copied_plenty m e.nick p) refl
      | inr fresh ↦
          rw (fresh, named)
            (if_keeps {A = List UdataEnt × Bool} (λ r. r.1 ≡ true) (is_default e) refl
              (added_ok m l e user p fresh))
    ])

store_prefs_lem :
    (h : Host) (s : Server) (c : Client) (fd : ℕ) (e : UdataEnt) (user : Text)
    → IsPlentiful h.memory
    → c.fd ≡ some fd
    → e.user ≡ some user
    → store_prefs h s c e
      ≡ ok (
        with_sent (with_udata s (udata_update h.memory s.udata e).0) fd (command (code ack) []),
        normal,
      )
unfolding store_prefs
store_prefs_lem h s c fd e user p open_fd named =
    rw (updated_ok h.memory s.udata e user p named)
      (answer_lem h (with_udata s (udata_update h.memory s.udata e).0) c fd (code ack) [] p open_fd)

-- The request for settings, as the protocol has it, and for the settings.
abbrev pub set_request : Text → Text → ℕ → ℕ → Command
set_request user tty beep mode =
    command (code setpref) (some user ∷ some tty ∷ some (beep ∷ []) ∷ some (mode ∷ []) ∷ [])

abbrev pub get_request : Text → Command
get_request user = command (code getpref) (some user ∷ [])

module _ (h : Host) (s : Server) (cl fd : ℕ) (rest : List ℕ) (user : Text)
    (p : IsPlentiful h.memory) (known : h.user_exists user ≡ true)
    (no_nul : has_nul user ≡ false) where
  pub handle_setpref_lem :
      (tty : Text) (beep mode : ℕ)
      → IsSized (set_request user tty beep mode)
      → has_nul tty ≡ false
      → isloggedin h user ≡ true
      → get_elem? s.clients cl
        ≡ some (record {
          fd = some fd;
          address = local_address;
          buf = encode (set_request user tty beep mode) ++ rest;
        })
      → handle_setpref h s cl
        ≡ ok (
          with_sent
              (with_udata s
                (udata_update h.memory s.udata (preferences (some user) (some tty) beep mode)).0)
              fd
              (command (code ack) []),
          normal,
        )
  unfolding handle_setpref set_prefs byte_of
  handle_setpref_lem tty beep mode sized tty_no_nul logged_in at_cl =
      let c = set_request user tty beep mode in
      rw
        (
          at_cl,
          fetch-encode h.memory c rest 0 true none user p sized refl,
          c_string-terminated user no_nul,
          known,
          logged_in,
          fetch-encode h.memory c rest 2 false (some (user ++ (0 ∷ []))) (beep ∷ []) p sized refl,
          fetch-encode h.memory c rest 3 true none (mode ∷ []) p sized refl,
          fetch-encode h.memory c rest 0 true (some (beep ∷ [])) user p sized refl,
          fetch-encode h.memory c rest 1 true (some (mode ∷ 0 ∷ [])) tty p sized refl,
          c_string-terminated tty tty_no_nul,
          c_string-terminated user no_nul,
        )
        (store_prefs_lem h s
          (record { fd = some fd; address = local_address; buf = encode c ++ rest }) fd
          (preferences (some user) (some tty) beep mode) user p refl refl)

  pub handle_getpref_lem :
      IsSized (get_request user)
      → get_elem? s.clients cl
        ≡ some (record {
          fd = some fd;
          address = local_address;
          buf = encode (get_request user) ++ rest;
        })
      → handle_getpref h s cl
        ≡ ok (
          with_sent s fd (command (code pref) (pref_args (udata_get s.udata (some user)))),
          normal,
        )
  unfolding handle_getpref
  handle_getpref_lem sized at_cl =
      let c = get_request user in
      rw
        (
          at_cl,
          fetch-encode h.memory c rest 0 true none user p sized refl,
          c_string-terminated user no_nul,
          known,
        )
        (answer_lem h s (record { fd = some fd; address = local_address; buf = encode c ++ rest })
          fd (code pref) (pref_args (udata_get s.udata (some user))) p refl)

-- The reply to GETPREF tells the wishes.
abbrev pub wishes_args : Wishes → List (Option (List ℕ))
wishes_args w = w.tty ∷ some (w.beep ∷ []) ∷ some (w.mode ∷ []) ∷ []

wishes_args_of : (o : Option UdataEnt) → pref_args o ≡ wishes_args (wishes_of o)
unfolding wishes_of
wishes_args_of none = refl
wishes_args_of (some e) = refl

-- The server after SETPREF: the table is updated, ACK was sent.
abbrev pub after_setpref : Host → Server → ℕ → Text → Text → ℕ → ℕ → Server
after_setpref h s fd user tty beep mode =
    with_sent
      (with_udata s
        (udata_update h.memory s.udata (preferences (some user) (some tty) beep mode)).0)
      fd (command (code ack) [])

-- With memory plentiful, after a SETPREF for a logged-in user on a local connection has been
-- answered with ACK, a GETPREF for any known user on a local connection is answered with the
-- preferences just set if it is the same user, what was left out kept as it was, and with the old
-- preferences if it is another. The users and the terminal have no NUL, and both requests fit the
-- format.
pub setpref_getpref :
    (h h' : Host) (s : Server) (cl cl' fd fd' : ℕ) (rest rest' : List ℕ) (user u tty : Text)
    (beep mode : ℕ)
    → IsPlentiful h.memory
    → IsPlentiful h'.memory
    → h.user_exists user ≡ true
    → h'.user_exists u ≡ true
    → isloggedin h user ≡ true
    → has_nul user ≡ false
    → has_nul u ≡ false
    → has_nul tty ≡ false
    → IsSized (set_request user tty beep mode)
    → IsSized (get_request u)
    → get_elem? s.clients cl
      ≡ some (record {
        fd = some fd;
        address = local_address;
        buf = encode (set_request user tty beep mode) ++ rest;
      })
    → get_elem? s.clients cl'
      ≡ some
          (record { fd = some fd'; address = local_address; buf = encode (get_request u) ++ rest' })
    → (handle_setpref h s cl ≡ ok (after_setpref h s fd user tty beep mode, normal))
      × (handle_getpref h' (after_setpref h s fd user tty beep mode) cl'
          ≡ ok (
            with_sent (after_setpref h s fd user tty beep mode) fd' (
                command (code pref) (
                  wishes_args (
                    if text_eq u user
                    then assign (some tty) beep mode (wishes s.udata u)
                    else wishes s.udata u))),
            normal,
          ))
setpref_getpref h h' s cl cl' fd fd' rest rest' user u tty beep mode p p' known known' logged_in n
      n' nt sized sized' at_cl at_cl' =
    let s' = after_setpref h s fd user tty beep mode in
    let told : pref_args (udata_get s'.udata (some u))
        ≡ wishes_args (
            if text_eq u user
            then assign (some tty) beep mode (wishes s.udata u)
            else wishes s.udata u) =
      wishes_args_of (udata_get s'.udata (some u))
      ∙ ap wishes_args
          (unfold wishes in wishes-udata_update h.memory s.udata user u (some tty) beep mode p) in
    (
      handle_setpref_lem h s cl fd rest user p known n tty beep mode sized nt logged_in at_cl,
      handle_getpref_lem h' s' cl' fd' rest' u p' known' n' sized' at_cl'
          ∙ ap {B = Outcome (Server × Reply)}
              (λ args. ok (with_sent s' fd' (command (code pref) args), normal)) told,
    )
