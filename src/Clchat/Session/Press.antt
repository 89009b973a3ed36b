-- ===== src/Clchat/Session/Press.antt =====
-- A key of a round that edits the line at the front of the history.
use smsg.Base.{
  ℕ, ◌≡◌, refl, ap, ◌∙◌, List, [], ◌∷◌, length, replicate, Bool, true, false, ◌==◌, if◌then◌else◌,
  Option, on_option,
}
use smsg.Base.Outcome.{ok}
use smsg.Base.Memory.{Memory, IsPlentiful, realloc}
use smsg.Clchat.Input.{
  Ibuf, is_null, make_room, is_command, Key, key_home, key_end, key_left, key_right, key_dc,
  key_backspace, key_ic, key_ppage, character,
}
use smsg.Clchat.Draft.{Draft, pressed, buffer_of, make_room_lem}
use smsg.Clchat.Editing.Keys.{follow}
use smsg.Clchat.History.{Slot, History, edits, on_stay, edit_line, with_room}
use smsg.Clchat.Session.{
  Chatting, Round, Fixed, Pressed, char_key, terminal_key, stays, meaning, meaning_of, on_key,
  on_meaning, with_shown, said_of,
}

-- A buffer is not in use yet, or it has a text, with the cursor in it.
pub data Ready (bs : Ibuf) (d : Draft) : Type 0 where
  unused : is_null bs.ibuf ≡ true → d.before ≡ [] → d.after ≡ [] → Ready bs d
  written : (spare : List ℕ) → bs ≡ buffer_of d.before d.after spare → Ready bs d

first_room :
    (m : Memory) (bs : Ibuf)
    → IsPlentiful m
    → is_null bs.ibuf ≡ true
    → make_room m bs ≡ ok (buffer_of [] [] (replicate 100 m.junk))
unfolding make_room realloc
first_room m bs p h = rw (h, p.all_granted 100) refl

pub make_room-Ready :
    (m : Memory) (bs : Ibuf) (d : Draft)
    → IsPlentiful m
    → Ready bs d
    → (s : ℕ) × (more : List ℕ) × (make_room m bs ≡ ok (buffer_of d.before d.after (s ∷ more)))
make_room-Ready m bs d p (unused h e f) =
    (m.junk, replicate 99 m.junk, rw (e, f) (first_room m bs p h))
make_room-Ready m bs d p (written spare e) =
    let (s, more, made) = make_room_lem m d.before d.after spare p in
    (s, more, ap (make_room m) e ∙ made)

-- The history with a draft at its front.
abbrev pub front : Ibuf → Ibuf → List Slot → Draft → History
front bs c q d = record {
  iqueue = (bs, c) ∷ q;
  ibqi = 0;
  ibuf_pos = length d.before;
  insertmode = d.inserting;
}

-- The key that comes, and the one that is meant: the user's own backspace key is one.
abbrev pub pressed_of : Key → Pressed
pressed_of (character ch h) = char_key ch
pressed_of key = terminal_key (edits key)

abbrev pub meant : Option ℕ → Key → Key
meant backspace_char (character ch h) =
    if on_option backspace_char false (λ c. ch == c) then key_backspace else character ch h
meant backspace_char key = key

character_eq :
    (ch : ℕ) (b : Bool) (e : is_command ch ≡ b) (h : is_command ch ≡ false)
    → meaning_of ch b e ≡ stays (edits (character ch h))
character_eq ch true e h = cc
character_eq ch false e h = ap (λ x. stays (edits (character ch x))) hlevel

meaning_lem :
    (bc : Option ℕ) (key : Key) → meaning bc (pressed_of key) ≡ stays (edits (meant bc key))
unfolding meaning
meaning_lem bc (character ch h) = by_test (on_option bc false (λ c. ch == c))
  where
    by_test :
        (b : Bool)
        → (if b then stays (edits key_backspace) else meaning_of ch (is_command ch) refl)
          ≡ stays (edits (if b then key_backspace else character ch h))
    by_test true = refl
    by_test false = character_eq ch (is_command ch) refl h
meaning_lem bc key_home = refl
meaning_lem bc key_end = refl
meaning_lem bc key_left = refl
meaning_lem bc key_right = refl
meaning_lem bc key_dc = refl
meaning_lem bc key_backspace = refl
meaning_lem bc key_ic = refl
meaning_lem bc key_ppage = refl

pub on_key_lem :
    (f : Fixed) (r : Round) (s : Chatting) (bs c : Ibuf) (q : List Slot) (d : Draft) (key : Key)
    → IsPlentiful r.machine.memory
    → Ready bs d
    → let k = meant s.typed.backspace_char key in
      let d' = pressed d k in
      (bs' : Ibuf) × Ready bs' d'
      × (on_key f r (record s { history = front bs c q d }) (pressed_of key)
          ≡ ok (with_shown (said_of (edits k)) (record s { history = front bs' c q d' }), true))
unfolding on_key on_meaning with_room on_stay edit_line
on_key_lem f r s bs c q d key p h =
    let k = meant s.typed.backspace_char key in
    let (x, more, roomy) = make_room-Ready r.machine.memory bs d p h in
    let (spare, done) = follow r.machine.memory d x more k in
    (
      buffer_of (pressed d k).before (pressed d k).after spare,
      written spare refl,
      rw (roomy, meaning_lem s.typed.backspace_char key, done) refl,
    )
