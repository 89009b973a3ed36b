-- ===== src/Ncmd/Names.antt =====
-- ncmd.c, ncmd_getname() and ncmd_getnum(), with the table of names in ncmd.h.
use smsg.Base.{
  on_option, some, ℕ, suc, zero, ◌+◌, ◌≡◌, ◌⊎◌, ◌↔◌, inl, inr, refl, sym, ◌∙◌, ap, List, [], ◌∷◌,
  Bool, true, false, ◌&&◌, ◌==◌, leb, if◌then◌else◌, length, take, map, arith, Bool-cases,
  length-map, ◌≢◌, some,
}
use smsg.Base.Outcome.{Outcome, ok, failed}
use smsg.Base.Memory.{Memory, IsPlentiful}
use smsg.Base.Text.{Text, literal}
use smsg.Ncmd.Opcode.{
  NcmdOp, unknown, msg, getqmsg, qmsg, getlist, list, setpref, getpref, pref, chatdoor, ack, nak,
  c_door, c_away, c_ban, c_beep, c_bs, c_clear, c_deop, c_help, c_kick, c_log, c_me, c_nick, c_op,
  c_oper, c_priv, c_psay, c_quit, c_say, c_unban, c_who, code, all_ops, of_code, of_code-code,
}

-- `ncmds[].name`
unfoldable pub name : NcmdOp → Text
name unknown = literal "!!UNKNOWN!!"
name msg = literal "N_MSG"
name getqmsg = literal "N_GETQMSG"
name qmsg = literal "N_QMSG"
name getlist = literal "N_GETLIST"
name list = literal "N_LIST"
name setpref = literal "N_SETPREF"
name getpref = literal "N_GETPREF"
name pref = literal "N_PREF"
name chatdoor = literal "N_CHATDOOR"
name ack = literal "N_ACK"
name nak = literal "N_NAK"
name c_door = literal "door"
name c_away = literal "away"
name c_ban = literal "ban"
name c_beep = literal "beep"
name c_bs = literal "bs"
name c_clear = literal "clear"
name c_deop = literal "deop"
name c_help = literal "help"
name c_kick = literal "kick"
name c_log = literal "log"
name c_me = literal "me"
name c_nick = literal "nick"
name c_op = literal "op"
name c_oper = literal "oper"
name c_priv = literal "priv"
name c_psay = literal "psay"
name c_quit = literal "quit"
name c_say = literal "say"
name c_unban = literal "unban"
name c_who = literal "who"

-- A null pointer is `failed`; `decimal` is "%i".
unfoldable pub ncmd_getname : Memory → (ℕ → Text) → ℕ → Outcome Text
unfolding name
ncmd_getname m decimal ncmd_code =
    on_option (of_code ncmd_code) (if m.grants 6 then ok (take 5 (decimal ncmd_code)) else failed)
      λ op. if m.copies (name op) then ok (name op) else failed

-- A letter as strncasecmp() compares it.
unfoldable pub to_lower : ℕ → ℕ
to_lower c = if leb 65 c && leb c 90 then c + 32 else c

-- `strncasecmp(s, t, n) == 0`, on strings that end with a NUL.
unfoldable pub eq_nocase : ℕ → Text → Text → Bool
unfolding to_lower
eq_nocase zero s t = true
eq_nocase (suc n) [] [] = true
eq_nocase (suc n) [] (b ∷ t) = false
eq_nocase (suc n) (a ∷ s) [] = false
eq_nocase (suc n) (a ∷ s) (b ∷ t) = to_lower a == to_lower b && eq_nocase n s t

-- The result -2, as an unsigned enumeration holds it.
abbrev pub no_command : ℕ
no_command = 4294967294

-- `for(i=0; ncmds[i].name; i++)`, from an entry on.
unfoldable pub find_name : List NcmdOp → Text → ℕ → ℕ
unfolding eq_nocase name
find_name [] s sl = no_command
find_name (op ∷ ops) s sl =
    let rest = find_name ops s sl in
    if eq_nocase sl (name op) s && (length (name op) == sl) then code op else rest

unfoldable pub ncmd_getnum : Text → ℕ → ℕ
unfolding find_name
ncmd_getnum s sl = find_name all_ops s sl

-- Only the letters' lower case matters.
eq_nocase-map :
    (n : ℕ) (s t : Text)
    → map to_lower s ≡ map to_lower t
    → (u : Text) → eq_nocase n u s ≡ eq_nocase n u t
unfolding eq_nocase
eq_nocase-map zero s t e u = refl
eq_nocase-map (suc n) [] [] e [] = refl
eq_nocase-map (suc n) [] [] e (c ∷ u) = refl
eq_nocase-map (suc n) [] (b ∷ t) e u = cc
eq_nocase-map (suc n) (a ∷ s) [] e u = cc
eq_nocase-map (suc n) (a ∷ s) (b ∷ t) e [] = refl
eq_nocase-map (suc n) (a ∷ s) (b ∷ t) e (c ∷ u) =
    let same : to_lower a ≡ to_lower b = cc in
    let rest : map to_lower s ≡ map to_lower t = cc in rw (same, eq_nocase-map n s t rest u) refl

find_name-map :
    (ops : List NcmdOp) (s t : Text) (n : ℕ)
    → map to_lower s ≡ map to_lower t
    → find_name ops s n ≡ find_name ops t n
unfolding find_name
find_name-map [] s t n e = refl
find_name-map (op ∷ ops) s t n e =
    rw (eq_nocase-map n s t e (name op), find_name-map ops s t n e) refl

-- Strings of the same length that compare equal are equal but for the case of letters.
eq_nocase→eq :
    (n : ℕ) (s t : Text)
    → length s ≡ n
    → length t ≡ n
    → eq_nocase n s t ≡ true
    → map to_lower s ≡ map to_lower t
unfolding eq_nocase
eq_nocase→eq zero [] [] hs ht e = refl
eq_nocase→eq zero [] (b ∷ t) hs ht e = absurd (omega arith)
eq_nocase→eq zero (a ∷ s) t hs ht e = absurd (omega arith)
eq_nocase→eq (suc n) [] t hs ht e = absurd (omega arith)
eq_nocase→eq (suc n) (a ∷ s) [] hs ht e = absurd (omega arith)
eq_nocase→eq (suc n) (a ∷ s) (b ∷ t) hs ht e =
    let both : (to_lower a ≡ to_lower b) × (eq_nocase n s t ≡ true) = ground arith in
    rw (both.0, eq_nocase→eq n s t (omega arith) (omega arith) both.1) refl

find_name_found :
    (ops : List NcmdOp) (s : Text) (c : ℕ)
    → find_name ops s (length s) ≡ c
    → (c ≡ no_command) ⊎ ((op : NcmdOp) × (code op ≡ c) × (map to_lower s ≡ map to_lower (name op)))
unfolding find_name
find_name_found [] s c e = inl (sym e)
find_name_found (op ∷ ops) s c e =
    elim (Bool-cases (eq_nocase (length s) (name op) s && (length (name op) == length s))) [
      | inl h ↦
          let both : (eq_nocase (length s) (name op) s ≡ true) × (length (name op) ≡ length s) =
            ground arith in
          inr (op, cc, sym (eq_nocase→eq (length s) (name op) s both.1 refl both.0))
      | inr h ↦ find_name_found ops s c cc
    ]

find_name_own : (op : NcmdOp) → find_name all_ops (name op) (length (name op)) ≡ code op
unfolding find_name eq_nocase to_lower name code
find_name_own unknown = refl
find_name_own _ = refl

code_inj : (op op' : NcmdOp) → code op ≡ code op' → op ≡ op'
code_inj op op' e =
    let same : some op ≡ some op' = sym (of_code-code op) ∙ ap of_code e ∙ of_code-code op' in cc

code-no_command : (op : NcmdOp) → code op ≢ no_command
unfolding code
code-no_command unknown = λ e. absurd (omega arith)
code-no_command _ = λ e. absurd (omega arith)

getnum→eq :
    (op : NcmdOp) (s : Text)
    → ncmd_getnum s (length s) ≡ code op
    → map to_lower s ≡ map to_lower (name op)
unfolding ncmd_getnum
getnum→eq op s e = elim (find_name_found all_ops s (code op) e) [
  | inl h ↦ absurd (code-no_command op h)
  | inr (op', same, h) ↦ h ∙ ap (λ o. map to_lower (name o)) (code_inj op' op same)
]

eq→getnum :
    (op : NcmdOp) (s : Text)
    → map to_lower s ≡ map to_lower (name op)
    → ncmd_getnum s (length s) ≡ code op
unfolding ncmd_getnum
eq→getnum op s e =
    let long : length s ≡ length (name op) =
      sym (length-map to_lower s) ∙ ap length e ∙ length-map to_lower (name op) in
    rw long (find_name-map all_ops s (name op) (length (name op)) e ∙ find_name_own op)

-- With memory plentiful, ncmd_getname() of a command's code is its name, and ncmd_getnum() of a
-- text with its length is that code if and only if the text is that name up to upper and lower
-- case.
pub ncmd_getnum-ncmd_getname :
    (m : Memory) (decimal : ℕ → Text) (op : NcmdOp)
    → IsPlentiful m
    → (ncmd_getname m decimal (code op) ≡ ok (name op))
      × ((s : Text)
          → (ncmd_getnum s (length s) ≡ code op) ↔ (map to_lower s ≡ map to_lower (name op)))
unfolding ncmd_getname
ncmd_getnum-ncmd_getname m decimal op p =
    rw (of_code-code op, p.all_copied (name op)) (refl, λ s. (getnum→eq op s, eq→getnum op s))
