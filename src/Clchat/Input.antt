-- ===== src/Clchat/Input.antt =====
-- clchat.c: the line that is typed, lcc_input_edit_wizard() and the keys of chatter_func() that edit
-- a line.
use smsg.Base.{
  ℕ, ◌+◌, ◌-◌, ◌%◌, ◌≡◌, List, [], ◌∷◌, length, take, drop, Bool, true, false, not, ◌&&◌, ◌||◌,
  ◌==◌, ltb, leb, if◌then◌else◌,
}
use smsg.Base.Outcome.{Outcome, ok, failed, fault, ◌>>=◌}
use smsg.Base.Memory.{Memory, realloc, overwrite}

-- A pointer to a block of its own; one that was freed and still stands somewhere is `dangling`.
pub data Pointer : Type 0 where
  null dangling : Pointer
  block : List ℕ → Pointer

-- `struct ibuf_s`
pub record Ibuf : Type 0 where
  pub ibuf : Pointer
  pub ttlen : ℕ
  pub ulen : ℕ

abbrev pub lcc_buf_add_len : ℕ
lcc_buf_add_len = 100

abbrev pub lcc_buf_enlarge_zone : ℕ
lcc_buf_enlarge_zone = 10

-- What malloc() and realloc() return, not being tested.
abbrev pub pointer_of : Outcome (List ℕ) → Pointer
pointer_of (ok b) = block b
pointer_of failed = null
pointer_of fault = null

-- The bytes behind a pointer that is followed.
abbrev pub bytes_at : Pointer → Outcome (List ℕ)
bytes_at null = fault
bytes_at dangling = fault
bytes_at (block b) = ok b

-- `ptr = realloc(ptr, n)`
abbrev pub grown : Memory → Pointer → ℕ → Outcome Pointer
grown m null n = ok (pointer_of (realloc m [] n))
grown m dangling n = fault
grown m (block b) n = ok (pointer_of (realloc m b n))

abbrev pub is_null : Pointer → Bool
is_null null = true
is_null dangling = false
is_null (block b) = false

-- Before a key is read there is room for it.
unfoldable pub make_room : Memory → Ibuf → Outcome Ibuf
make_room m bs =
    if is_null bs.ibuf
    then ok (record {
      ibuf = pointer_of (realloc m [] lcc_buf_add_len);
      ttlen = lcc_buf_add_len;
      ulen = 0;
    })
    else if leb (bs.ttlen - lcc_buf_enlarge_zone) bs.ulen
    then (grown m bs.ibuf (bs.ttlen + lcc_buf_add_len) >>= λ p.
        ok (record bs { ibuf = p; ttlen = bs.ttlen + lcc_buf_add_len }))
    else ok bs

-- memmove() of `n` bytes within a block.
unfoldable pub memmove : List ℕ → ℕ → ℕ → ℕ → Outcome (List ℕ)
memmove b to_offset from_offset n =
    if leb (from_offset + n) (length b)
    then overwrite b to_offset (take n (drop from_offset b))
    else fault

-- The new length of the line; `ulen + datalen - (ulen - *ipos)` is `*ipos + datalen`.
abbrev pub new_length : ℕ → ℕ → ℕ → Bool → ℕ
new_length ulen datalen ipos insertmode =
    let newlen = if insertmode then ulen + datalen else ipos + datalen in
    if ltb newlen ulen then ulen else newlen

-- `if(newlen > bs->ttlen)`
unfoldable pub enlarge : Memory → Ibuf → ℕ → Outcome Ibuf
enlarge m bs newlen =
    if ltb bs.ttlen newlen
    then (grown m bs.ibuf newlen >>= λ p. ok (record bs { ibuf = p; ttlen = newlen }))
    else ok bs

-- The buffer afterwards, and `*ipos`.
unfoldable pub lcc_input_edit_wizard : Memory → Ibuf → List ℕ → ℕ → Bool → Outcome (Ibuf × ℕ)
lcc_input_edit_wizard m bs bytes ipos insertmode =
    let newlen = new_length bs.ulen (length bytes) ipos insertmode in
    enlarge m bs newlen >>= λ bs'. bytes_at bs'.ibuf >>= λ b.
    (if insertmode && ltb ipos bs.ulen
      then memmove b (ipos + length bytes) ipos (bs.ulen - ipos)
      else ok b)
    >>= λ b. overwrite b ipos bytes >>= λ b.
        ok (record bs' { ibuf = block b; ulen = newlen }, ipos + length bytes)

-- Tab and the ends of a line.
abbrev pub is_command : ℕ → Bool
is_command ch = ch == 9 || (ch == 10 || ch == 13)

-- The keys of the `switch` that stay on the line: a key of the terminal, or a character but for Tab
-- and enter.
pub data Key : Type 0 where
  key_home key_end key_left key_right key_dc key_backspace key_ic key_ppage : Key
  character : (ch : ℕ) → is_command ch ≡ false → Key

-- The line being edited: the buffer, `ibuf_pos` and `insertmode`.
pub record Line : Type 0 where
  pub buffer : Ibuf
  pub ibuf_pos : ℕ
  pub insertmode : Bool

-- The memmove() by which the character at an offset goes, if it is not the last.
unfoldable pub close_gap : Ibuf → ℕ → Outcome Ibuf
close_gap bs i =
    if ltb i (bs.ulen - 1)
    then (bytes_at bs.ibuf >>= λ b. memmove b i (i + 1) (bs.ulen - i) >>= λ b.
        ok (record bs { ibuf = block b; ulen = bs.ulen - 1 }))
    else ok (record bs { ulen = bs.ulen - 1 })

-- `case KEY_DC`, and `case KEY_BACKSPACE: case 8`
unfoldable pub delete_char : Line → Outcome Line
delete_char l =
    if ltb l.ibuf_pos l.buffer.ulen
    then (close_gap l.buffer l.ibuf_pos >>= λ bs. ok (record l { buffer = bs }))
    else ok l

unfoldable pub backspace : Line → Outcome Line
backspace l =
    if ltb 0 l.ibuf_pos
    then (close_gap l.buffer (l.ibuf_pos - 1) >>= λ bs.
        ok (record l { buffer = bs; ibuf_pos = l.ibuf_pos - 1 }))
    else ok l

-- `char cch = ch`, of which control characters but C-o and C-v are turned into letters. From 128 on
-- a char is negative, which is not above 13.
unfoldable pub shown_char : ℕ → ℕ
shown_char ch =
    let cch = ch % 256 in
    if ltb 13 cch && (ltb cch 31 && (not (cch == 15) && not (cch == 22)))
    then 64 + cch % 64
    else cch

-- `default`: the character is put into the line.
unfoldable pub type_char : Memory → Line → ℕ → Outcome Line
type_char m l ch =
    lcc_input_edit_wizard m l.buffer (shown_char ch ∷ []) l.ibuf_pos l.insertmode >>= λ r.
    ok (record l { buffer = r.0; ibuf_pos = r.1 })

-- The `switch` on a key that stays on the line.
unfoldable pub edit_key : Memory → Line → Key → Outcome Line
edit_key m l key_home = ok (record l { ibuf_pos = 0 })
edit_key m l key_end =
    ok (record l { ibuf_pos = if ltb l.ibuf_pos l.buffer.ulen then l.buffer.ulen else l.ibuf_pos })
edit_key m l key_left = ok (record l { ibuf_pos = l.ibuf_pos - 1 })
edit_key m l key_right =
    ok (record l { ibuf_pos = if ltb l.ibuf_pos l.buffer.ulen then l.ibuf_pos + 1 else l.ibuf_pos })
edit_key m l key_dc = delete_char l
edit_key m l key_backspace = backspace l
edit_key m l key_ic = ok (record l { insertmode = not l.insertmode })
edit_key m l (character ch _) =
    if ch == 8
    then backspace l
    else if ch == 21
    then ok (record l { buffer = record l.buffer { ulen = 0 }; ibuf_pos = 0 })
    else type_char m l ch
edit_key m l key_ppage = ok l

-- One round for such a key.
unfoldable pub edit_round : Memory → Line → Key → Outcome Line
edit_round m l key = make_room m l.buffer >>= λ bs. edit_key m (record l { buffer = bs }) key

unfoldable pub edit_all : Memory → Line → List Key → Outcome Line
edit_all m l [] = ok l
edit_all m l (k ∷ ks) = edit_round m l k >>= λ l'. edit_all m l' ks
