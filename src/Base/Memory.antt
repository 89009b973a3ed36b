-- ===== src/Base/Memory.antt =====
-- Memory as the C library gives it. Whether a request is granted is the environment's choice, so
-- it is a parameter of every function that allocates.
use smsg.Base.Tests.{if◌then◌else◌, leb, le→leb}
use smsg.Base.Lists.{length, take, drop, replicate, length-append, drop-append}
use smsg.Base.Lists.{take-append, take_all, drop-drop}
use smsg.Base.Outcome.{Outcome, ok, failed, fault}
use Prim.Native.Nat.{ℕ, ◌+◌, ◌-◌}
use mathlib.Core.Path.{◌≡◌, refl}
use mathlib.Core.Bool.{Bool, true}
use mathlib.Core.List.{List, ◌++◌}
use native.Mathlib.Omega.{arith}

pub record Memory : Type 0 where
  -- realloc() to so many bytes
  pub grants : ℕ → Bool
  -- malloc() of a `struct udata_ent`
  pub entry : Bool
  -- strdup() of a string
  pub copies : List ℕ → Bool
  -- what an uninitialised byte holds
  pub junk : ℕ

-- Every request is granted.
pub record IsPlentiful (m : Memory) : Type 0 where
  pub all_granted : (n : ℕ) → m.grants n ≡ true
  pub all_entries : m.entry ≡ true
  pub all_copied : (s : List ℕ) → m.copies s ≡ true

unfoldable pub realloc : Memory → List ℕ → ℕ → Outcome (List ℕ)
realloc m buf n =
    if m.grants n then ok (take n buf ++ replicate (n - length buf) m.junk) else failed

-- memcpy() to an offset in allocated memory.
unfoldable pub overwrite : List ℕ → ℕ → List ℕ → Outcome (List ℕ)
overwrite buf at_offset bytes =
    if leb (at_offset + length bytes) (length buf)
    then ok (take at_offset buf ++ (bytes ++ drop (at_offset + length bytes) buf))
    else fault

-- A block that grows keeps what it holds.
pub realloc_grows :
    (m : Memory) (buf : List ℕ) (n : ℕ)
    → IsPlentiful m
    → realloc m buf (length buf + n) ≡ ok (buf ++ replicate n m.junk)
unfolding realloc
realloc_grows m buf n p =
    let rest : length buf + n - length buf ≡ n = omega arith in
    rw (p.all_granted (length buf + n), take_all (length buf + n) buf (omega arith), rest)

-- Writing over `old`.
pub overwrite-append :
    (xs old new rest : List ℕ)
    → length old ≡ length new
    → overwrite (xs ++ (old ++ rest)) (length xs) new ≡ ok (xs ++ (new ++ rest))
unfolding overwrite
overwrite-append xs old new rest e = rw (
  le→leb (length xs + length new) (length (xs ++ (old ++ rest)))
      (omega (arith, length-append xs (old ++ rest), length-append old rest)),
  take-append (length xs) xs (old ++ rest) refl,
  drop-drop (length xs) (length new) (xs ++ (old ++ rest)),
  drop-append (length xs) xs (old ++ rest) refl,
  drop-append (length new) old rest e,
)
