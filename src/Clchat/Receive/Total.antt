-- ===== src/Clchat/Receive/Total.antt =====
-- What handles a command gives no error return: lemmas on how the cases are put together.
use smsg.Base.{
  on_option, ℕ, List, [], ◌∷◌, drop, Bool, true, false, if◌then◌else◌, Option, none, some,
}
use smsg.Base.Outcome.{Outcome, ok, failed, fault, ◌>>=◌}
use smsg.Base.Memory.{Memory}
use smsg.Ncmd.{ncmd_getnumargs, ncmd_getarg}
use smsg.Ncmd.Words.{read_ns}
use smsg.Calls.{fetch, fetched}
use smsg.Server.Prefs.{byte_of}
use smsg.Client.{Machine, string_of}
use smsg.Clchat.Receive.{Chat, into_targ0, into_targ1, say_of, say_of_two, is_nick, both_args}

-- No error return: a result, or undefined behaviour.
pub data Runs {A : Type 0} : Outcome A → Type 0 where
  runs_ok : (a : A) → Runs (ok a)
  runs_fault : Runs fault

pub bind-Runs :
    {A B : Type 0} (o : Outcome A) (f : A → Outcome B)
    → Runs o
    → ((a : A) → Runs (f a))
    → Runs (o >>= f)
bind-Runs (ok a) f r k = k a
bind-Runs failed f r k = elim r [ ]
bind-Runs fault f r k = runs_fault

pub if_Runs :
    {A : Type 0} (b : Bool) (x y : Outcome A) → Runs x → Runs y → Runs (if b then x else y)
if_Runs true x y p q = p
if_Runs false x y p q = q

pub option-Runs :
    {A B : Type 0} (o : Option A) (x : Outcome B) (f : A → Outcome B)
    → Runs x
    → ((a : A) → Runs (f a))
    → Runs (on_option o x f)
option-Runs none x f p q = p
option-Runs (some a) x f p q = q a

pub fetched-Runs : (old : Option (List ℕ)) (o : Outcome (List ℕ)) → Runs (fetched old o)
unfolding fetched
fetched-Runs old (ok b) = runs_ok (some b)
fetched-Runs old failed = runs_ok old
fetched-Runs old fault = runs_fault

pub fetch-Runs :
    (m : Memory) (buf : List ℕ) (old : Option (List ℕ)) (k : ℕ) (z : Bool)
    → Runs (fetch m buf old k z)
unfolding fetch
fetch-Runs m buf old k z = fetched-Runs old (ncmd_getarg m buf k z)

pub string_of-Runs : (t : Option (List ℕ)) → Runs (string_of t)
unfolding string_of
string_of-Runs none = runs_fault
string_of-Runs (some b) = if_Runs _ _ _ (runs_ok _) runs_fault

pub byte_of-Runs : (t : Option (List ℕ)) → Runs (byte_of t)
unfolding byte_of
byte_of-Runs none = runs_fault
byte_of-Runs (some []) = runs_fault
byte_of-Runs (some (b ∷ bs)) = runs_ok b

pub read_ns-Runs : (w : List ℕ) → Runs (read_ns w)
unfolding read_ns
read_ns-Runs [] = runs_fault
read_ns-Runs (a ∷ []) = runs_fault
read_ns-Runs (a ∷ b ∷ w) = runs_ok _

pub numargs-Runs : (buf : List ℕ) → Runs (ncmd_getnumargs buf)
unfolding ncmd_getnumargs
numargs-Runs buf = read_ns-Runs (drop 2 buf)

pub ruleset runs_rules = (
  bind-Runs, if_Runs, option-Runs, runs_ok, runs_fault, fetch-Runs, string_of-Runs, byte_of-Runs,
  numargs-Runs,
)

module _ (m : Machine) (rbuf : List ℕ) where
  pub into_targ0-Runs : (k : ℕ) (z : Bool) (s : Chat) → Runs (into_targ0 m rbuf k z s)
  unfolding into_targ0
  into_targ0-Runs k z s = search runs_rules depth 6

  pub into_targ1-Runs : (k : ℕ) (s : Chat) → Runs (into_targ1 m rbuf k s)
  unfolding into_targ1
  into_targ1-Runs k s = search runs_rules depth 6

  pub both_args-Runs : (s : Chat) → Runs (both_args m rbuf s)
  unfolding both_args
  both_args-Runs s = search (runs_rules, into_targ0-Runs, into_targ1-Runs) depth 6

pub say_of-Runs :
    (p : ℕ) (a : List ℕ) (t : Option (List ℕ)) (b : List ℕ) (s : Chat) → Runs (say_of p a t b s)
unfolding say_of
say_of-Runs p a t b s = search runs_rules depth 6

pub say_of_two-Runs :
    (p : ℕ) (t : Option (List ℕ)) (a : List ℕ) (u : Option (List ℕ)) (b : List ℕ) (s : Chat)
    → Runs (say_of_two p t a u b s)
unfolding say_of_two
say_of_two-Runs p t a u b s = search runs_rules depth 6

pub is_nick-Runs : (t n : Option (List ℕ)) → Runs (is_nick t n)
unfolding is_nick
is_nick-Runs t none = runs_fault
is_nick-Runs t (some n) = search runs_rules depth 6

pub ruleset case_rules = (
  runs_rules, into_targ0-Runs, into_targ1-Runs, both_args-Runs, say_of-Runs, say_of_two-Runs,
  is_nick-Runs,
)
