-- ===== src/Smsg/Port.antt =====
-- The port that smsg.c is given.
use smsg.Base.{
  subst, ℕ, ◌≡◌, ◌≤◌, ◌<◌, refl, List, [], ◌∷◌, Bool, true, false, ◌||◌, ltb, leb, if◌then◌else◌,
  Option, none, some, on_option, arith, Bool-cases, inl, inr, not,
}
use smsg.Base.Outcome.{Outcome, ok, failed, fault, ◌>>=◌}
use smsg.Base.Text.{Text}
use smsg.Smsg.{
  Shell, Settings, Step, stop, go, Opt, opt_z, opt_p, opt_d, opt_t, opt_b, opt_m, opt_l, opt_log,
  opt_n, opt_e, opt_r, opt_g, opt_c, opt_h, opt_f, opt_s, opt_unknown, opt_other, read_option,
  read_options, set_command, set_port, set_destination, set_user, set_tty, set_beep, set_mode,
  set_loglevel, set_erase_key, copy_user, split_at_sign, find_command,
}
use smsg.Smsg.Run.{default_settings}

-- Not given, or a port that a user's program may have.
pub data IsPort (n : ℕ) : Type 0 where
  not_given : n ≡ 65535 → IsPort n
  given : 1024 ≤ n → n < 32768 → IsPort n

pub data GoesOnWithPort : Outcome (Step Settings) → Type 0 where
  stops : (why : Text) → GoesOnWithPort (ok (stop why))
  goes : {s : Settings} → IsPort s.tport → GoesOnWithPort (ok (go s))
  no_result : GoesOnWithPort failed
  faults : GoesOnWithPort fault

branch :
    (b : Bool) {x y : Outcome (Step Settings)}
    → GoesOnWithPort x
    → GoesOnWithPort y
    → GoesOnWithPort (if b then x else y)
branch true g h = g
branch false g h = h

choice :
    {A : Type 0} (o : Option A) {x : Outcome (Step Settings)} {f : A → Outcome (Step Settings)}
    → GoesOnWithPort x
    → ((a : A) → GoesOnWithPort (f a))
    → GoesOnWithPort (on_option o x f)
choice none g h = g
choice (some a) g h = h a

port_given : (m : Shell) (optarg : Text) (s : Settings) → GoesOnWithPort (set_port m optarg s)
unfolding set_port
port_given m optarg s =
    let r = m.strtol 10 optarg in
    branch (not r.1) (stops _) (elim (Bool-cases (ltb r.0 1024 || leb 32768 r.0)) [
      | inl h ↦ rw h (stops _)
      | inr h ↦ rw h (goes (given (ground (arith, h)) (ground (arith, h))))
    ])

user_set :
    (user : Text) (s : Settings) (o : Outcome (List ℕ))
    → IsPort s.tport
    → GoesOnWithPort (set_user user s o)
unfolding set_user
user_set user s (ok b) h = goes h
user_set user s failed h = stops _
user_set user s fault h = faults

on_beep : (t : Text) (s : Settings) → IsPort s.tport → GoesOnWithPort (set_beep t s)
unfolding set_beep
on_beep t s h = search (branch, stops, goes) depth 5

on_mode : (t : Text) (s : Settings) → IsPort s.tport → GoesOnWithPort (set_mode t s)
unfolding set_mode
on_mode t s h = search (branch, stops, goes) depth 5

on_erase_key :
    (m : Shell) (t : Text) (s : Settings) → IsPort s.tport → GoesOnWithPort (set_erase_key m t s)
unfolding set_erase_key
on_erase_key m t s h = search (branch, stops, goes) depth 5

read_option_lem :
    (m : Shell) (o : Opt) (s : Settings) → IsPort s.tport → GoesOnWithPort (read_option m o s)
unfolding read_option set_command set_destination set_tty set_loglevel
read_option_lem m (opt_z t) s h =
    choice s.command (choice (find_command t) (stops _) (λ c. goes h)) (λ c. stops _)
read_option_lem m (opt_p t) s h = port_given m t s
read_option_lem m (opt_d t) s h =
    choice (split_at_sign t) (branch (m.memory.copies t) (goes h) (stops _)) (λ parts.
      branch (m.memory.copies parts.1) (user_set parts.0 _ (copy_user m.memory parts.0) h)
        (stops _))
read_option_lem m (opt_t t) s h =
    branch _ (choice m.ttyname (stops _) (λ tty. goes h))
      (branch (m.memory.copies t) (goes h) (stops _))
read_option_lem m (opt_b t) s h = on_beep t s h
read_option_lem m (opt_m t) s h = on_mode t s h
read_option_lem m (opt_l t) s h = branch _ (goes h) (stops _)
read_option_lem m (opt_log t) s h = branch _ (goes h) (stops _)
read_option_lem m (opt_n t) s h = branch _ (goes h) (stops _)
read_option_lem m (opt_e t) s h = on_erase_key m t s h
read_option_lem m (opt_r t) s h = branch _ (goes h) (stops _)
read_option_lem m opt_g s h = goes h
read_option_lem m opt_c s h = goes h
read_option_lem m opt_h s h = goes h
read_option_lem m opt_f s h = goes h
read_option_lem m opt_s s h = stops _
read_option_lem m opt_unknown s h = stops _
read_option_lem m opt_other s h = goes h

step_lem :
    (o : Outcome (Step Settings)) (later : Settings → Outcome (Step Settings))
    → GoesOnWithPort o
    → ((s : Settings) → IsPort s.tport → GoesOnWithPort (later s))
    → GoesOnWithPort (o >>= λ r. elim r [ stop why ↦ ok (stop why) | go t ↦ later t ])
step_lem _ later (stops why) f = stops why
step_lem _ later (goes {s} h) f = f s h
step_lem _ later no_result f = no_result
step_lem _ later faults f = faults

read_options-GoesOnWithPort :
    (m : Shell) (os : List Opt) (s : Settings)
    → IsPort s.tport
    → GoesOnWithPort (read_options m os s)
unfolding read_options
read_options-GoesOnWithPort m [] s h = goes h
read_options-GoesOnWithPort m (o ∷ os) s h =
    step_lem (read_option m o s) (read_options m os) (read_option_lem m o s h)
      (λ t. read_options-GoesOnWithPort m os t)

given_port : {s : Settings} → GoesOnWithPort (ok (go s)) → IsPort s.tport
given_port (goes h) = h

-- Whatever options are given, if the program gets past all of them then the port is either not
-- given, or at least 1024 and below 2 ^ 15.
pub read_options-IsPort :
    (m : Shell) (os : List Opt) (s : Settings)
    → read_options m os default_settings ≡ ok (go s)
    → IsPort s.tport
read_options-IsPort m os s e =
    given_port
      (subst GoesOnWithPort e (read_options-GoesOnWithPort m os default_settings (not_given refl)))
