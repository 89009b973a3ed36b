-- ===== src/Clchat/Complete/Matches.antt =====
-- What Tab looks for, and what it finds.
use smsg.Base.{
  ℕ, zero, suc, ◌+◌, ◌-◌, ◌<◌, ◌≤◌, ◌≡◌, refl, sym, ap, ◌∙◌, List, [], ◌∷◌, ◌++◌, subst, length,
  take, drop, get_elem?, length-append, append_assoc, take-append, drop-append, Bool, true, false,
  if◌then◌else◌, none, some, arith, Bool-cases, inl, inr,
}
use smsg.Base.Outcome.{ok}
use smsg.Base.Memory.{IsPlentiful}
use smsg.Base.Text.{Text, literal}
use smsg.Ncmd.Opcode.{NcmdOp, code, all_ops, of_code-code}
use smsg.Ncmd.Names.{ncmd_getname, eq_nocase, name}
use smsg.Client.{Machine}
use smsg.Clchat.Complete.{
  stops, token_start, Match, no_match, several, one_match, find_match, command_names, is_hidden,
}

-- The names that begin with a text, upper and lower case being one.
unfoldable pub matching : Text → List Text → List Text
matching cts [] = []
matching cts (t ∷ ts) =
    let rest = matching cts ts in if eq_nocase (length cts) cts t then t ∷ rest else rest

abbrev pub match_of : List Text → Match
match_of [] = no_match
match_of (t ∷ []) = one_match t
match_of (t ∷ u ∷ ts) = several

found_one :
    (cts x : Text) (ts : List Text) → find_match cts (some x) ts ≡ match_of (x ∷ matching cts ts)
unfolding find_match matching
found_one cts x [] = refl
found_one cts x (t ∷ ts) = elim (Bool-cases (eq_nocase (length cts) cts t)) [
  | inl h ↦ rw h refl
  | inr h ↦ rw h (found_one cts x ts)
]

pub find_match_lem :
    (cts : Text) (ts : List Text) → find_match cts none ts ≡ match_of (matching cts ts)
unfolding find_match matching
find_match_lem cts [] = refl
find_match_lem cts (t ∷ ts) = elim (Bool-cases (eq_nocase (length cts) cts t)) [
  | inl h ↦ rw h (found_one cts t ts)
  | inr h ↦ rw h (find_match_lem cts ts)
]

-- The commands that a user types.
abbrev pub typed_names : List Text
typed_names =
    literal "door"
    ∷ literal "away"
    ∷ literal "ban"
    ∷ literal "beep"
    ∷ literal "bs"
    ∷ literal "clear"
    ∷ literal "deop"
    ∷ literal "help"
    ∷ literal "kick"
    ∷ literal "log"
    ∷ literal "me"
    ∷ literal "nick"
    ∷ literal "op"
    ∷ literal "oper"
    ∷ literal "priv"
    ∷ literal "psay"
    ∷ literal "quit"
    ∷ literal "say"
    ∷ literal "unban"
    ∷ literal "who"
    ∷ []

visible : List NcmdOp → List Text
visible [] = []
visible (op ∷ ops) = let rest = visible ops in if is_hidden (name op) then rest else name op ∷ rest

getname_ok :
    (m : Machine) (op : NcmdOp)
    → IsPlentiful m.memory
    → ncmd_getname m.memory m.decimal (code op) ≡ ok (name op)
unfolding ncmd_getname
getname_ok m op p = rw (of_code-code op, p.all_copied (name op)) refl

command_names-visible :
    (m : Machine) (ops : List NcmdOp)
    → IsPlentiful m.memory
    → command_names m ops ≡ ok (visible ops)
unfolding command_names visible
command_names-visible m [] p = refl
command_names-visible m (op ∷ ops) p = rw (command_names-visible m ops p, getname_ok m op p) refl

visible_all : visible all_ops ≡ typed_names
unfolding visible name
visible_all = refl

pub command_names_lem :
    (m : Machine) → IsPlentiful m.memory → command_names m all_ops ≡ ok typed_names
command_names_lem m p = command_names-visible m all_ops p ∙ ap ok visible_all

-- No character that ends a token.
unfoldable pub is_token : Text → Bool
is_token [] = true
is_token (c ∷ t) = let rest = is_token t in if stops c then false else rest

-- A text behind which a token begins.
pub data IsBreak (pre : Text) : Type 0 where
  at_start : pre ≡ [] → IsBreak pre
  after_stop : (xs : Text) (c : ℕ) → pre ≡ xs ++ (c ∷ []) → stops c ≡ true → IsBreak pre

element_behind : (xs : Text) (c : ℕ) (ys : Text) → get_elem? (xs ++ (c ∷ ys)) (length xs) ≡ some c
element_behind [] c ys = refl
element_behind (x ∷ xs) c ys = element_behind xs c ys

stop_found :
    (xs : Text) (c : ℕ) (ys : Text)
    → stops c ≡ true
    → token_start ((xs ++ (c ∷ [])) ++ ys) (length (xs ++ (c ∷ []))) ≡ ok (length (xs ++ (c ∷ [])))
unfolding token_start
stop_found xs c ys h =
    let size : length (xs ++ (c ∷ [])) ≡ suc (length xs) =
      omega (arith, length-append xs (c ∷ [])) in
    rw (size, append_assoc xs (c ∷ []) ys, element_behind xs c ys, h) refl

break_found : (pre ys : Text) → IsBreak pre → token_start (pre ++ ys) (length pre) ≡ ok (length pre)
unfolding token_start
break_found pre ys (at_start e) =
    subst (λ (t : Text). token_start (t ++ ys) (length t) ≡ ok (length t)) (sym e) refl
break_found pre ys (after_stop xs c e h) =
    subst (λ (t : Text). token_start (t ++ ys) (length t) ≡ ok (length t)) (sym e)
      (stop_found xs c ys h)

token_at :
    (tok rest : Text) (j : ℕ)
    → is_token tok ≡ true
    → j < length tok
    → (c : ℕ) × (get_elem? (tok ++ rest) j ≡ some c) × (stops c ≡ false)
unfolding is_token
token_at [] rest j h l = absurd (omega arith)
token_at (c ∷ tok) rest zero h l = (c, refl, ground arith)
token_at (c ∷ tok) rest (suc j) h l =
    let later : is_token tok ≡ true = ground arith in token_at tok rest j later (omega arith)

get_elem?-append_right :
    (xs ys : Text) (j : ℕ) → get_elem? (xs ++ ys) (length xs + j) ≡ get_elem? ys j
get_elem?-append_right [] ys j = let plain : 0 + j ≡ j = omega arith in rw plain refl
get_elem?-append_right (x ∷ xs) ys j =
    let next : suc (length xs) + j ≡ suc (length xs + j) = omega arith in
    rw next (get_elem?-append_right xs ys j)

token_scanned :
    (pre tok rest : Text) (j : ℕ)
    → IsBreak pre
    → is_token tok ≡ true
    → j ≤ length tok
    → token_start (pre ++ (tok ++ rest)) (length pre + j) ≡ ok (length pre)
unfolding token_start
token_scanned pre tok rest zero b h l =
    let plain : length pre + 0 ≡ length pre = omega arith in
    rw plain (break_found pre (tok ++ rest) b)
token_scanned pre tok rest (suc j) b h l =
    let next : length pre + suc j ≡ suc (length pre + j) = omega arith in
    let (c, at_c, plain) = token_at tok rest j h (omega arith) in
    rw (next, get_elem?-append_right pre (tok ++ rest) j, at_c, plain)
      (token_scanned pre tok rest j b h (omega arith))

-- The token before the cursor is found.
pub token_start_lem :
    (pre tok rest : Text)
    → IsBreak pre
    → is_token tok ≡ true
    → token_start ((pre ++ tok) ++ rest) (length (pre ++ tok)) ≡ ok (length pre)
token_start_lem pre tok rest b h =
    rw (append_assoc pre tok rest, length-append pre tok)
      (token_scanned pre tok rest (length tok) b h (omega arith))

pub token_taken :
    (pre tok rest : Text)
    → take (length (pre ++ tok) - length pre) (drop (length pre) ((pre ++ tok) ++ rest)) ≡ tok
token_taken pre tok rest =
    let size : length (pre ++ tok) - length pre ≡ length tok =
      omega (arith, length-append pre tok) in
    rw (size, append_assoc pre tok rest, drop-append (length pre) pre (tok ++ rest) refl)
      (take-append (length tok) tok rest refl)
