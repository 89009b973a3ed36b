-- ===== src/Calls.antt =====
-- How the server and the clients call ncmd.c, their strings and their pointers.
pub mod Encode
use smsg.Base.{ℕ, List, [], ◌∷◌, Bool, Option, none, some}
use smsg.Base.Outcome.{Outcome, ok, failed, fault, ◌>>=◌, or_keep}
use smsg.Base.Memory.{Memory}
use smsg.Base.Text.{Text, c_string}
use smsg.Ncmd.{ncmd_set, ncmd_add, ncmd_getarg}

-- ncmd_set() and ncmd_add() as their callers use them, their results ignored.
unfoldable pub set_cmd : Memory → List ℕ → ℕ → Outcome (List ℕ)
set_cmd m sbuf op = or_keep sbuf (ncmd_set m sbuf op)

unfoldable pub add_args : Memory → List ℕ → List (Option (List ℕ)) → Outcome (List ℕ)
add_args m sbuf [] = ok sbuf
add_args m sbuf (a ∷ args) = or_keep sbuf (ncmd_add m sbuf a) >>= λ t. add_args m t args

unfoldable pub compose : Memory → List ℕ → ℕ → List (Option (List ℕ)) → Outcome (List ℕ)
unfolding set_cmd add_args
compose m sbuf op args = set_cmd m sbuf op >>= λ t. add_args m t args

-- The pointer after a call of ncmd_getarg(), from what it held and what the call came to.
unfoldable pub fetched : Option (List ℕ) → Outcome (List ℕ) → Outcome (Option (List ℕ))
fetched old (ok b) = ok (some b)
fetched old failed = ok old
fetched old fault = fault

-- ncmd_getarg() as its callers use it: where it fails the pointer keeps what it had.
unfoldable pub fetch : Memory → List ℕ → Option (List ℕ) → ℕ → Bool → Outcome (Option (List ℕ))
unfolding fetched
fetch m buf old k addzero = fetched old (ncmd_getarg m buf k addzero)

-- A string that the C library follows the pointer of.
abbrev pub deref : {A : Type 0} → Option A → Outcome A
deref none = fault
deref (some a) = ok a

abbrev pub text_of : Option (List ℕ) → Option Text
text_of none = none
text_of (some b) = some (c_string b)
