-- ===== src/Base/Text.antt =====
-- C strings, as the bytes before the terminating NUL.
use smsg.Base.Tests.{◌==◌, if◌then◌else◌}
use Prim.Native.Nat.{ℕ}
use Prim.Native.Char.{Char}
use Prim.Native.Char as Char
use Prim.Native.String.{String}
use mathlib.Core.Path.{◌≡◌, refl}
use mathlib.Core.Logic.{◌↔◌}
use mathlib.Core.Bool.{Bool, true, false, ◌&&◌}
use mathlib.Core.List.{List, [], ◌∷◌, ◌++◌}
use native.Mathlib.Omega.{arith}

abbrev pub Text : Type 0
Text = List ℕ

-- A string literal of the source.
abbrev pub literal : String → Text
literal String.[] = []
literal (String.◌∷◌ c s) = Char.code c ∷ literal s

-- `strcmp(s, t) == 0`
unfoldable pub text_eq : Text → Text → Bool
text_eq [] [] = true
text_eq [] (b ∷ t) = false
text_eq (a ∷ s) [] = false
text_eq (a ∷ s) (b ∷ t) = a == b && text_eq s t

-- The string that a buffer with a NUL in it holds.
unfoldable pub c_string : List ℕ → Text
c_string [] = []
c_string (a ∷ s) = let rest = c_string s in if a == 0 then [] else a ∷ rest

-- Is there a NUL among the bytes?
abbrev pub has_nul : List ℕ → Bool
has_nul [] = false
has_nul (b ∷ bs) = let rest = has_nul bs in if b == 0 then true else rest

-- A string with its NUL is read back.
pub c_string-terminated : (s : Text) → has_nul s ≡ false → c_string (s ++ (0 ∷ [])) ≡ s
unfolding c_string
c_string-terminated [] h = refl
c_string-terminated (a ∷ s) h = ground (arith, c_string-terminated s)

pub has_nul-terminated : (s : Text) → has_nul (s ++ (0 ∷ [])) ≡ true
has_nul-terminated [] = refl
has_nul-terminated (a ∷ s) = ground (arith, has_nul-terminated s)

pub text_eq→eq : (s t : Text) → text_eq s t ≡ true → s ≡ t
unfolding text_eq
text_eq→eq [] [] h = refl
text_eq→eq [] (b ∷ t) h = cc
text_eq→eq (a ∷ s) [] h = cc
text_eq→eq (a ∷ s) (b ∷ t) h = ground (arith, text_eq→eq s t)

pub text_eq_refl : (s : Text) → text_eq s s ≡ true
unfolding text_eq
text_eq_refl [] = refl
text_eq_refl (a ∷ s) = ground (arith, text_eq_refl s)

pub text_eq_iff : (s t : Text) → (text_eq s t ≡ true) ↔ (s ≡ t)
text_eq_iff s t = (text_eq→eq s t, λ e. rw e (text_eq_refl t))
