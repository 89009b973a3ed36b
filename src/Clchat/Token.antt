-- ===== src/Clchat/Token.antt =====
-- clchat.c: the words of a command line, lcc_my_strsep() and lcc_strsepx(). A pointer into the line is
-- the rest of the line; the null pointer is `none`.
use smsg.Base.{
  ℕ, zero, suc, List, [], ◌∷◌, Bool, false, ◌||◌, ◌==◌, if◌then◌else◌, Option, none, some,
}
use smsg.Base.Text.{Text}

-- `strchr(delim, c)` for a character that is not the NUL.
unfoldable pub is_in : Text → ℕ → Bool
is_in [] c = false
is_in (d ∷ delim) c = c == d || is_in delim c

-- " \f\n\r\t\v"
abbrev pub lcc_token_delim : Text
lcc_token_delim = 32 ∷ 12 ∷ 10 ∷ 13 ∷ 9 ∷ 11 ∷ []

-- `while(*(*p) != '\0' && strchr(delim, *(*p))) (*p)++`
unfoldable pub skip_delims : Text → Text → Text
unfolding is_in
skip_delims delim [] = []
skip_delims delim (c ∷ t) = let rest = skip_delims delim t in if is_in delim c then rest else c ∷ t

unfoldable pub lcc_skip_to_token_start : Option Text → Text → Option Text
lcc_skip_to_token_start none delim = none
lcc_skip_to_token_start (some t) delim = some (skip_delims delim t)

-- strchr() or strpbrk(), and what is done with its result: the part up to the first character that
-- passes the test, and the part behind it.
unfoldable pub cut : (ℕ → Bool) → Text → Text × Option Text
cut test [] = ([], none)
cut test (c ∷ t) =
    let (token, rest) = cut test t in if test c then ([], some t) else (c ∷ token, rest)

-- The token, and `*p` afterwards.
unfoldable pub lcc_my_strsep : Option Text → Text → Option Text × Option Text
lcc_my_strsep none delim = (none, none)
lcc_my_strsep (some begin) [] = (some begin, none)
lcc_my_strsep (some begin) (ch ∷ []) =
    let (token, rest) = cut (λ c. c == ch) begin in (some token, rest)
lcc_my_strsep (some begin) (d ∷ e ∷ delim) =
    let (token, rest) = cut (is_in (d ∷ e ∷ delim)) begin in (some token, rest)

unfoldable pub lcc_strsepx : Option Text → Text → Option Text × Option Text
lcc_strsepx p delim = lcc_my_strsep (lcc_skip_to_token_start p delim) delim

-- `while(rtokenp)`: the tokens that are left. Out of fuel there are none.
unfoldable pub tokens : ℕ → Option Text → List Text
tokens zero p = []
tokens (suc fuel) none = []
tokens (suc fuel) (some t) =
    let (tt, rest) = lcc_strsepx (some t) lcc_token_delim in
    let more = tokens fuel rest in elim tt [ none ↦ more | some token ↦ token ∷ more ]
