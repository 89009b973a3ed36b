-- ===== src/Clchat/Editing/Keys.antt =====
-- Each key on the buffer, and any sequence of keys.
use smsg.Base.{
  replicate, ℕ, ◌+◌, ◌-◌, ◌≡◌, refl, sym, ap, ◌∙◌, List, [], ◌∷◌, ◌++◌, length, length-append, take,
  drop, append_assoc, append-nil, Bool, true, false, ◌==◌, ltb, if◌then◌else◌, arith,
  take-append_drop,
}
use smsg.Base.Outcome.{Outcome, ok}
use smsg.Base.Memory.{Memory, IsPlentiful, realloc}
use smsg.Clchat.Input.{
  null, Line, Key, key_home, key_end, key_left, key_right, key_dc, key_backspace, key_ic, key_ppage,
  character, make_room, edit_key, edit_round, edit_all,
}
use smsg.Clchat.Draft.{Draft, pressed, but_last, last_of, buffer_of, line_of, make_room_lem}
use smsg.Clchat.Editing.{relined, length-but_last}
use smsg.Clchat.Editing.Changes.{delete_lem, backspace_lem, type_lem}

cursor_end :
    (before after : List ℕ)
    → (if ltb (length before) (length before + length after)
        then length before + length after
        else length before)
      ≡ length (before ++ after)
cursor_end before after = ground (arith, length-append before after)

left_text : (before after : List ℕ) → before ++ after ≡ but_last before ++ (last_of before ++ after)
left_text before after =
    ap (λ t. t ++ after) (sym (take-append_drop (length before - 1) before))
    ∙ append_assoc (but_last before) (last_of before) after

right_text : (before after : List ℕ) → before ++ after ≡ (before ++ take 1 after) ++ drop 1 after
right_text before after =
    ap (◌++◌ before) (sym (take-append_drop 1 after))
    ∙ sym (append_assoc before (take 1 after) (drop 1 after))

cursor_right :
    (before after : List ℕ)
    → (if ltb (length before) (length before + length after)
        then length before + 1
        else length before)
      ≡ length (before ++ take 1 after)
cursor_right before [] = ground (arith, length-append before [])
cursor_right before (x ∷ r) = ground (arith, length-append before (x ∷ []))

either :
    (b : Bool) {x y : Outcome Line} (u v : Draft)
    → (spare : List ℕ) × (x ≡ ok (line_of u spare))
    → (spare : List ℕ) × (y ≡ ok (line_of v spare))
    → (spare : List ℕ) × ((if b then x else y) ≡ ok (line_of (if b then u else v) spare))
either true u v p q = p
either false u v p q = q

-- What a key does, with room for a character.
pub follow :
    (m : Memory) (d : Draft) (s : ℕ) (more : List ℕ) (key : Key)
    → (spare : List ℕ) × (edit_key m (line_of d (s ∷ more)) key
        ≡ ok (line_of (pressed d key) spare))
unfolding edit_key pressed
follow m d s more key_home =
    (s ∷ more, ap ok (relined d (pressed d key_home) (s ∷ more) 0 refl refl refl))
follow m d s more key_end = (
  s ∷ more,
  ap ok (
      relined d (pressed d key_end) (s ∷ more)
        (if ltb (length d.before) (length d.before + length d.after)
          then length d.before + length d.after
          else length d.before)
        (sym (append-nil (d.before ++ d.after))) refl (cursor_end d.before d.after)),
)
follow m d s more key_left = (
  s ∷ more,
  ap ok (
      relined d (pressed d key_left) (s ∷ more) (length d.before - 1) (left_text d.before d.after)
        refl (sym (length-but_last d.before))),
)
follow m d s more key_right = (
  s ∷ more,
  ap ok (
      relined d (pressed d key_right) (s ∷ more)
        (if ltb (length d.before) (length d.before + length d.after)
          then length d.before + 1
          else length d.before)
        (right_text d.before d.after) refl (cursor_right d.before d.after)),
)
follow m d s more key_dc = delete_lem d.before d.after d.inserting s more
follow m d s more key_backspace = backspace_lem d.before d.after d.inserting s more
follow m d s more key_ic = (s ∷ more, refl)
follow m d s more (character ch _) =
    either (ch == 8) _ _ (backspace_lem d.before d.after d.inserting s more) (
      either (ch == 21) _ _ (d.before ++ (d.after ++ (s ∷ more)), refl)
        (type_lem m d.before d.after d.inserting s more ch))
follow m d s more key_ppage = (s ∷ more, refl)

unfoldable pub pressed_all : Draft → List Key → Draft
pressed_all d [] = d
pressed_all d (k ∷ ks) = pressed_all (pressed d k) ks

edit_all_from :
    (m : Memory) (d : Draft) (spare : List ℕ) (keys : List Key)
    → IsPlentiful m
    → (spare' : List ℕ) × (edit_all m (line_of d spare) keys
        ≡ ok (line_of (pressed_all d keys) spare'))
unfolding edit_all edit_round pressed_all
edit_all_from m d spare [] p = (spare, refl)
edit_all_from m d spare (k ∷ ks) p =
    let (s, more, room) = make_room_lem m d.before d.after spare p in
    let (behind, done) = follow m d s more k in
    let (last, rest) = edit_all_from m (pressed d k) behind ks p in (last, rw (room, done) rest)

-- The line before anything was typed.
abbrev pub fresh_line : Line
fresh_line = record {
  buffer = record { ibuf = null; ttlen = 0; ulen = 0 };
  ibuf_pos = 0;
  insertmode = true;
}

abbrev pub empty_draft : Draft
empty_draft = record { before = []; after = []; inserting = true }

first_room :
    (m : Memory)
    → IsPlentiful m
    → make_room m fresh_line.buffer ≡ ok (buffer_of [] [] (replicate 100 m.junk))
unfolding make_room realloc
first_room m p = rw (p.all_granted 100) refl

-- With memory plentiful, whatever keys are pressed on the first line, but Tab and enter, the buffer
-- holds the text before the cursor and then the text after it, as a text editor without buffers has
-- them, which puts in the low byte of a key that is a character, or the letter or sign for a
-- control character from C-n to C-^ but C-o and C-v. Position and mode go with these, and nothing
-- is read or written outside of the buffer.
pub edit_all-pressed_all :
    (m : Memory) (key : Key) (keys : List Key)
    → IsPlentiful m
    → (spare : List ℕ) × (edit_all m fresh_line (key ∷ keys)
        ≡ ok (line_of (pressed_all empty_draft (key ∷ keys)) spare))
unfolding edit_all edit_round pressed_all
edit_all-pressed_all m key keys p =
    let (behind, done) = follow m empty_draft m.junk (replicate 99 m.junk) key in
    let (last, rest) = edit_all_from m (pressed empty_draft key) behind keys p in
    (last, rw (first_room m p, done) rest)
