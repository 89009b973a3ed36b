-- ===== src/Clchat/Editing.antt =====
-- The keys that edit the line do to the buffer what they do to the text around the cursor.
pub mod Changes
pub mod Keys
use smsg.Base.{
  replicate, ℕ, zero, suc, ◌+◌, ◌-◌, ◌≤◌, ◌≡◌, refl, sym, ap, ◌∙◌, List, [], ◌∷◌, ◌++◌, length,
  length-append, length-drop, take, drop, append_assoc, append-nil, Bool, true, false, not, ◌==◌,
  ltb, if◌then◌else◌, arith, Bool-cases, inl, inr, take-append_drop, length-take_le, lt→ltb,
}
use smsg.Base.Outcome.{Outcome, ok, ◌>>=◌}
use smsg.Base.Memory.{Memory, IsPlentiful, realloc}
use smsg.Clchat.Input.{
  null, Ibuf, Line, block, Key, key_home, key_end, key_left, key_right, key_dc, key_backspace,
  key_ic, key_ppage, character, make_room, close_gap, delete_char, backspace, type_char, shown_char,
  edit_key, edit_round, edit_all, lcc_input_edit_wizard,
}
use smsg.Clchat.Draft.{Draft, pressed, put, but_last, last_of, buffer_of, line_of, make_room_lem}

-- The cursor does not matter to the buffer.
pub rebuffer :
    (before after before' after' spare : List ℕ)
    → before ++ after ≡ before' ++ after'
    → buffer_of before after spare ≡ buffer_of before' after' spare
rebuffer before after before' after' spare e =
    let whole : before ++ (after ++ spare) ≡ before' ++ (after' ++ spare) =
      sym (append_assoc before after spare)
      ∙ ap (λ t. t ++ spare) e
      ∙ append_assoc before' after' spare in
    let used : length before + length after ≡ length before' + length after' =
      omega (arith, length-append before after, length-append before' after', ap length e) in
    rw (whole, used) refl

pub relined :
    (d d' : Draft) (spare : List ℕ) (i : ℕ)
    → d.before ++ d.after ≡ d'.before ++ d'.after
    → d.inserting ≡ d'.inserting
    → i ≡ length d'.before
    → ◌≡◌ {A = Line}
        (record {
          buffer = buffer_of d.before d.after spare;
          ibuf_pos = i;
          insertmode = d.inserting;
        })
        (line_of d' spare)
relined d d' spare i e h k = rw (rebuffer d.before d.after d'.before d'.after spare e, h, k) refl

-- The last character of a text that has one.
pub one_last : (x : ℕ) (xs : List ℕ) → (a : ℕ) × (last_of (x ∷ xs) ≡ a ∷ [])
one_last x xs =
    single (last_of (x ∷ xs)) (omega (arith, length-drop (length (x ∷ xs) - 1) (x ∷ xs)))
  where
    single : (l : List ℕ) → length l ≡ 1 → (a : ℕ) × (l ≡ a ∷ [])
    single [] h = absurd (omega arith)
    single (a ∷ []) h = (a, refl)
    single (a ∷ b ∷ l) h = absurd (omega arith)

pub length-but_last : (xs : List ℕ) → length (but_last xs) ≡ length xs - 1
length-but_last xs = length-take_le (length xs - 1) xs (omega arith)
