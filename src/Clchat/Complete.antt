-- ===== src/Clchat/Complete.antt =====
-- clchat.c, chatter_func(): `case 9`, the tab key, which completes a command or a nick.
pub mod Matches
pub mod Tab
use smsg.Base.{
  ℕ, zero, suc, ◌+◌, ◌-◌, List, [], ◌∷◌, ◌++◌, length, take, drop, get_elem?, Bool, true, false,
  ◌&&◌, ◌||◌, ◌==◌, if◌then◌else◌, Option, none, some, on_option,
}
use smsg.Base.Outcome.{Outcome, ok, failed, fault, ◌>>=◌}
use smsg.Base.Memory.{Memory}
use smsg.Base.Text.{Text, literal}
use smsg.Ncmd.Opcode.{NcmdOp, code, all_ops}
use smsg.Ncmd.Names.{ncmd_getname, eq_nocase}
use smsg.Client.{Machine}
use smsg.Clchat.Input.{Line, bytes_at, lcc_input_edit_wizard}
use smsg.Clchat.Output.{lcc_asay}
use smsg.Clchat.Token.{is_in, lcc_token_delim}

-- `strchr(LCC_TOKEN_DELIM, *cts) != NULL`; strchr() finds the NUL too.
unfoldable pub stops : ℕ → Bool
unfolding is_in
stops c = c == 0 || is_in lcc_token_delim c

-- `while(--cts >= ibuf && ...); cts++`, as an offset.
unfoldable pub token_start : List ℕ → ℕ → Outcome ℕ
token_start b zero = ok 0
token_start b (suc i) =
    on_option (get_elem? b i) fault
      λ c. let rest = token_start b i in if stops c then ok (suc i) else rest

-- "!!" and "N_" begin the names that no user types.
abbrev pub is_hidden : Text → Bool
is_hidden [] = false
is_hidden (a ∷ []) = false
is_hidden (a ∷ b ∷ t) = a == 33 && b == 33 || a == 78 && b == 95

-- `cusi` and `cui` after a loop over the names.
pub data Match : Type 0 where
  no_match several : Match
  one_match : Text → Match

-- `if(strncasecmp(cts, t, ctslen) == 0)`, with what was found before.
unfoldable pub find_match : Text → Option Text → List Text → Match
unfolding eq_nocase
find_match cts cusi [] = on_option cusi no_match one_match
find_match cts cusi (t ∷ ts) =
    let next = find_match cts cusi ts in
    let first = find_match cts (some t) ts in
    if eq_nocase (length cts) cts t then on_option cusi first (λ _. several) else next

-- The names that match, each between its marks.
unfoldable pub listed : Text → Text → Text → List Text → Text
unfolding eq_nocase
listed before behind cts [] = []
listed before behind cts (t ∷ ts) =
    let rest = listed before behind cts ts in
    if eq_nocase (length cts) cts t then lcc_asay 0 (before ++ (t ++ behind)) ++ rest else rest

-- A name before the others, if it is not hidden; a null name is followed.
abbrev pub with_name : Outcome Text → List Text → Outcome (List Text)
with_name (ok t) names = ok (if is_hidden t then names else t ∷ names)
with_name failed names = fault
with_name fault names = fault

-- ncmd_getname() of each code.
unfoldable pub command_names : Machine → List NcmdOp → Outcome (List Text)
command_names m [] = ok []
command_names m (op ∷ ops) =
    command_names m ops >>= λ names. with_name (ncmd_getname m.memory m.decimal (code op)) names

-- The rest of the only match, with a blank for its NUL, goes into the line.
unfoldable pub put_match : Machine → Line → ℕ → Text → Outcome Line
put_match m l ctslen cw =
    if m.memory.copies cw
    then (lcc_input_edit_wizard m.memory l.buffer (drop ctslen (cw ++ (32 ∷ []))) l.ibuf_pos
          l.insertmode
        >>= λ r. ok (record l { buffer = r.0; ibuf_pos = r.1 }))
    else fault

-- What becomes of the line, and what is said.
unfoldable pub complete : Machine → Line → ℕ → Text → Match → Outcome (Line × Text)
complete m l ctslen message no_match = ok (l, [])
complete m l ctslen message several = ok (l, message)
complete m l ctslen message (one_match cw) = put_match m l ctslen cw >>= λ l'. ok (l', [])

-- A token at the start of the line that begins with '/', without it.
abbrev pub command_token : ℕ → Text → Option Text
command_token i [] = none
command_token i (c ∷ t) = if i == 0 && c == 47 then some t else none

unfoldable pub complete_command : Machine → Line → Text → Outcome (Line × Text)
unfolding complete
complete_command m l cts = command_names m all_ops >>= λ names.
    complete m l (length cts)
      (lcc_asay 1 (literal "multiple command matches:")
        ++ (listed (literal " <") (literal ">") cts names ++ lcc_asay 0 (literal "\n")))
      (find_match cts none names)

unfoldable pub complete_nick : Machine → List Text → Line → Text → Outcome (Line × Text)
unfolding complete
complete_nick m culist l cts =
    complete m l (length cts)
      (lcc_asay 1 (literal "multiple nickname matches:")
        ++ (listed (literal " [") (literal "]") cts culist ++ lcc_asay 0 (literal "\n")))
      (find_match cts none culist)

unfoldable pub tab_key : Machine → List Text → Line → Outcome (Line × Text)
tab_key m culist l = do
  b ← bytes_at l.buffer.ibuf
  i ← token_start b l.ibuf_pos
  let cts : Text = take (l.ibuf_pos - i) (drop i b)
  on_option (command_token i cts) (complete_nick m culist l cts) λ t. complete_command m l t
