-- ===== src/Server/Leet.antt =====
-- servchat.c, lcs_msg_translate(): messages in "leet" spelling.
use smsg.Base.{ℕ, List, [], ◌∷◌, map, Bool, ◌&&◌, ◌||◌, ◌==◌, leb, if◌then◌else◌}
use smsg.Base.Text.{Text, literal}
use Prim.Native.Nat.{bit_or}

abbrev pub cs : Text
cs = literal "abcdefghijklmnopqrstuvwxyz"

abbrev pub cd : Text
cd = literal "4BCD3FGHiJK1MN0PQR$7uVWXyZ"

unfoldable pub isalpha : ℕ → Bool
isalpha c = (leb 65 c && leb c 90) || (leb 97 c && leb c 122)

-- `cd[strchr(cs, c) - cs]`; strchr() also finds the NUL of `cs`, and `cd` has its NUL there.
unfoldable pub translate_char : Text → Text → ℕ → ℕ
translate_char [] to c = c
translate_char (a ∷ from) [] c = c
translate_char (a ∷ from) (b ∷ to) c = if a == c then b else translate_char from to c

unfoldable pub leet_char : ℕ → ℕ
unfolding isalpha translate_char
leet_char c = translate_char cs cd (if isalpha c then bit_or c 32 else c)

-- The first `trbuflen` bytes are the whole buffer; any other mode changes nothing.
unfoldable pub lcs_msg_translate : List ℕ → ℕ → List ℕ
unfolding leet_char
lcs_msg_translate trbuf mode = if mode == 1 then map leet_char trbuf else trbuf
