-- ===== src/Clchat/Output.antt =====
-- clchat.c: what the user is shown, lcc_asay(), and the list of names beside it, culist.
use smsg.Base.{
  ℕ, ◌+◌, ◌*◌, List, [], ◌∷◌, ◌++◌, length, Bool, ◌||◌, ◌==◌, if◌then◌else◌, get_elem?, on_option,
}
use smsg.Base.Text.{Text, literal}
use smsg.Base.Memory.{Memory}

-- lcc_asay_prefixes[]; the first is not shown.
abbrev pub lcc_asay_prefixes : List Text
lcc_asay_prefixes = [] ∷ literal "@@@ " ∷ literal ">>> " ∷ literal "--- " ∷ literal "??? " ∷ []

-- The prefix of a line, none if the number is out of range.
abbrev pub prefix_of : ℕ → Text
prefix_of prefix = on_option (get_elem? lcc_asay_prefixes prefix) [] λ t. t

abbrev pub is_line_end : ℕ → Bool
is_line_end c = c == 10 || c == 13

-- The `while(1)`: a prefix for each line, but not after the last line end.
unfoldable pub lines_with : Text → Text → Text
lines_with prefix [] = []
lines_with prefix (c ∷ []) = c ∷ []
lines_with prefix (c ∷ d ∷ t) =
    let rest = lines_with prefix (d ∷ t) in if is_line_end c then c ∷ (prefix ++ rest) else c ∷ rest

unfoldable pub lcc_asay : ℕ → Text → Text
lcc_asay prefix text = prefix_of prefix ++ lines_with (prefix_of prefix) text

-- lcc_culist_add(); an array that cannot grow, or a name that cannot be copied, leaves the list as it
-- is. A pointer has 8 bytes. The empty list is the null pointer.
unfoldable pub lcc_culist_add : Memory → List Text → Text → List Text
lcc_culist_add m culist name =
    let added = if m.copies name then culist ++ (name ∷ []) else culist in
    if m.grants (8 * (length culist + 2)) then added else culist
