-- ===== src/Clchat/Mailbox.antt =====
-- clchat.c, lcc_mboxchange(): the check of the mailbox. What stat() and fopen() come to are
-- arguments; the file's lines are those that fgets() gives.
pub mod News
use smsg.Base.{
  ℕ, suc, ◌+◌, List, [], ◌∷◌, ◌++◌, Bool, true, false, ◌&&◌, ◌||◌, ◌==◌, ltb, if◌then◌else◌, Option,
  none, some, on_option,
}
use smsg.Base.Text.{Text, literal}
use smsg.Clchat.Output.{lcc_asay}
use smsg.Clchat.Token.{is_in}

-- `firstrun`, the size in `last_st`, and `mailcount`, `none` for -1.
pub record Mailbox : Type 0 where
  pub firstrun : Bool
  pub last_size : ℕ
  pub mailcount : Option ℕ

-- `changed`: 2, 1, -1 or 0.
pub data Change : Type 0 where
  first_look grown shrunk same_size : Change

abbrev pub change_of : Mailbox → ℕ → Change
change_of b size =
    if b.firstrun
    then first_look
    else if size == b.last_size
    then same_size
    else if ltb b.last_size size
    then grown
    else shrunk

-- `strncmp(prefix, buf, strlen(prefix)) == 0`, with what is behind the prefix.
unfoldable pub behind : Text → Text → Option Text
behind [] t = some t
behind (c ∷ p) [] = none
behind (c ∷ p) (d ∷ t) = let rest = behind p t in if c == d then rest else none

-- The part that strcspn() measures.
unfoldable pub up_to : Text → Text → Text
unfolding is_in
up_to stops [] = []
up_to stops (c ∷ t) = let rest = up_to stops t in if is_in stops c then [] else c ∷ rest

-- `changed == 1 && mailcount != -1 && n > mailcount`
abbrev pub is_news : Change → Option ℕ → ℕ → Bool
is_news grown (some k) n = ltb k n
is_news _ mailcount n = false

-- A line of the file: the messages up to it, and what is said.
unfoldable pub from_line : Change → Option ℕ → ℕ → Text → ℕ × Text
unfolding behind up_to
from_line changed mailcount n buf =
    on_option (behind (literal "From ") buf) (n, [])
      λ t. (
        suc n,
        if is_news changed mailcount (suc n)
            then lcc_asay 0 (literal " [" ++ (up_to (32 ∷ 9 ∷ 10 ∷ 13 ∷ []) t ++ literal "]"))
            else [],
      )

unfoldable pub subject_line : Change → Option ℕ → ℕ → Text → Text
unfolding behind up_to
subject_line changed mailcount n buf = on_option (behind (literal "Subject: ") buf) [] λ t.
    if is_news changed mailcount n
    then lcc_asay 0 (literal "<" ++ (up_to (10 ∷ 13 ∷ []) t ++ literal ">"))
    else []

-- `while(fgets(...))`
unfoldable pub count_mail : Change → Option ℕ → ℕ → List Text → ℕ × Text
unfolding from_line subject_line
count_mail changed mailcount n [] = (n, [])
count_mail changed mailcount n (buf ∷ lines) =
    let r = from_line changed mailcount n buf in
    let later = count_mail changed mailcount r.0 lines in
    (later.0, r.1 ++ (subject_line changed mailcount r.0 buf ++ later.1))

abbrev pub headline : Change → Text
headline first_look = []
headline grown = lcc_asay 1 (literal "Yay! More mail!")
headline shrunk = lcc_asay 1 (literal "Hmm. Less mail!")
headline same_size = []

abbrev pub line_end : Change → Text
line_end first_look = []
line_end _ = lcc_asay 0 (literal "\n")

-- `if(changed)`, with the file if it could be opened; `none` is the result -1.
unfoldable pub look_into : Mailbox → Change → ℕ → Option (List Text) → Mailbox × Text × Option Bool
unfolding count_mail
look_into b same_size size file = (record b { last_size = size }, [], some false)
look_into b changed size none =
    (record b { mailcount = none }, headline changed ++ lcc_asay 0 (literal "\n"), none)
look_into b changed size (some lines) =
    let r = count_mail changed b.mailcount 0 lines in
    (
      record b { last_size = size; mailcount = some r.0 },
      headline changed ++ (r.1 ++ line_end changed),
      some true,
    )

-- The mailbox, what is said, and the result.
unfoldable pub lcc_mboxchange :
    Mailbox → Option ℕ → Option (List Text) → Mailbox × Text × Option Bool
unfolding look_into
lcc_mboxchange b none file = (
  record b { mailcount = none },
  on_option b.mailcount [] (λ k. lcc_asay 1 (literal "Ow. Less mail! (file is removed..)")),
  none,
)
lcc_mboxchange b (some size) file =
    look_into (record b { firstrun = false }) (change_of b size) size file
