-- ===== src/Clchat/Draft.antt =====
-- What the user of the chat client sees of the line: the text before and after the cursor. What
-- each key does to it, said without buffers.
pub mod Changes
pub mod Room
pub mod Insert
use smsg.Base.{
  ℕ, zero, suc, ◌+◌, ◌-◌, ◌≤◌, ◌<◌, ◌≡◌, refl, sym, ap, ◌∙◌, subst, List, [], ◌∷◌, ◌++◌, length,
  length-append, take, drop, replicate, append_assoc, append-nil, Bool, true, false, not, ◌&&◌,
  ◌||◌, ◌%◌, ◌==◌, ltb, leb, if◌then◌else◌, arith, Bool-cases, inl, inr, ltb→lt, le→leb,
  take-append, drop-append, length-replicate, lt→ltb, ltb-le, drop-drop,
}
use smsg.Base.Outcome.{Outcome, ok, ◌>>=◌}
use smsg.Base.Memory.{Memory, IsPlentiful, realloc, overwrite, realloc_grows, overwrite-append}
use smsg.Clchat.Input.{
  Ibuf, Line, Pointer, block, Key, key_home, key_end, key_left, key_right, key_dc, key_backspace,
  key_ic, key_ppage, character, make_room, memmove, close_gap, delete_char, backspace, type_char,
  shown_char, edit_key, edit_round, edit_all, lcc_input_edit_wizard, enlarge, new_length,
  lcc_buf_add_len,
}

pub record Draft : Type 0 where
  pub before : List ℕ
  pub after : List ℕ
  pub inserting : Bool

-- The last character of a list, as a list, and what is before it.
abbrev pub last_of : List ℕ → List ℕ
last_of xs = drop (length xs - 1) xs

abbrev pub but_last : List ℕ → List ℕ
but_last xs = take (length xs - 1) xs

-- Characters put at the cursor: what is after it moves, or is replaced one for one.
abbrev pub put : List ℕ → Draft → Draft
put cs d = record d {
  before = d.before ++ cs;
  after = if d.inserting then d.after else drop (length cs) d.after;
}

-- What a key that is a character puts into the line: its low byte, and for the control characters
-- from C-n to C-^, but C-o and C-v, the letter or sign that is pressed with control.
unfoldable pub glyph : ℕ → ℕ
glyph ch =
    let byte = ch % 256 in
    if byte == 14 || (leb 16 byte && leb byte 21 || leb 23 byte && leb byte 30)
    then byte + 64
    else byte

pub shown_char-glyph : (ch : ℕ) → shown_char ch ≡ glyph ch
unfolding shown_char glyph
shown_char-glyph ch = ground arith

unfoldable pub pressed : Draft → Key → Draft
pressed d key_home = record d { before = []; after = d.before ++ d.after }
pressed d key_end = record d { before = d.before ++ d.after; after = [] }
pressed d key_left = record d { before = but_last d.before; after = last_of d.before ++ d.after }
pressed d key_right = record d { before = d.before ++ take 1 d.after; after = drop 1 d.after }
pressed d key_dc = record d { after = drop 1 d.after }
pressed d key_backspace = record d { before = but_last d.before }
pressed d key_ic = record d { inserting = not d.inserting }
pressed d (character ch _) =
    if ch == 8
    then record d { before = but_last d.before }
    else if ch == 21
    then record d { before = []; after = [] }
    else put (glyph ch ∷ []) d
pressed d key_ppage = d

-- The buffer with a text, and `spare` behind it.
abbrev pub buffer_of : List ℕ → List ℕ → List ℕ → Ibuf
buffer_of before after spare = record {
  ibuf = block (before ++ (after ++ spare));
  ttlen = length (before ++ (after ++ spare));
  ulen = length before + length after;
}

abbrev pub line_of : Draft → List ℕ → Line
line_of d spare = record {
  buffer = buffer_of d.before d.after spare;
  ibuf_pos = length d.before;
  insertmode = d.inserting;
}

pub total : (xs ys zs : List ℕ) → length (xs ++ (ys ++ zs)) ≡ length xs + length ys + length zs
total xs ys zs = omega (arith, length-append xs (ys ++ zs), length-append ys zs)

buffer_grown :
    (before after spare e : List ℕ) (n : ℕ)
    → length e ≡ n
    → ◌≡◌ {A = Ibuf}
        (record {
          ibuf = block ((before ++ (after ++ spare)) ++ e);
          ttlen = length (before ++ (after ++ spare)) + n;
          ulen = length before + length after;
        })
        (buffer_of before after (spare ++ e))
buffer_grown before after spare e n h =
    let same : (before ++ (after ++ spare)) ++ e ≡ before ++ (after ++ (spare ++ e)) =
      append_assoc before (after ++ spare) e ∙ ap (◌++◌ before) (append_assoc after spare e) in
    let size : length (before ++ (after ++ spare)) + n
        ≡ length (before ++ (after ++ (spare ++ e))) =
      omega (
        arith,
        h,
        total before after spare,
        total before after (spare ++ e),
        length-append spare e,
      ) in
    rw (same, size) refl

enlarged :
    (m : Memory) (before after spare : List ℕ)
    → IsPlentiful m
    → leb (length (before ++ (after ++ spare)) - 10) (length before + length after) ≡ true
    → make_room m (buffer_of before after spare)
      ≡ ok (buffer_of before after (spare ++ replicate 100 m.junk))
unfolding make_room
enlarged m before after spare p h =
    rw (h, realloc_grows m (before ++ (after ++ spare)) 100 p)
      (ap ok (buffer_grown before after spare (replicate 100 m.junk) 100 refl))

roomy :
    (m : Memory) (before after spare : List ℕ)
    → leb (length (before ++ (after ++ spare)) - 10) (length before + length after) ≡ false
    → make_room m (buffer_of before after spare) ≡ ok (buffer_of before after spare)
unfolding make_room
roomy m before after spare h = rw h refl

-- There is room for a character when a key is read.
pub make_room_lem :
    (m : Memory) (before after spare : List ℕ)
    → IsPlentiful m
    → (s : ℕ) × (more : List ℕ) × (make_room m (buffer_of before after spare)
        ≡ ok (buffer_of before after (s ∷ more)))
make_room_lem m before after [] p = (
  m.junk,
  replicate 99 m.junk,
  enlarged m before after [] p (
      le→leb (length (before ++ (after ++ [])) - 10) (length before + length after)
        (omega (arith, total before after []))),
)
make_room_lem m before after (s ∷ more) p =
    elim (Bool-cases
      (leb (length (before ++ (after ++ (s ∷ more))) - 10) (length before + length after))) [
        | inl h ↦ (s, more ++ replicate 100 m.junk, enlarged m before after (s ∷ more) p h)
        | inr h ↦ (s, more, roomy m before after (s ∷ more) h)
      ]
