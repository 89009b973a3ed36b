-- ===== src/Clchat/Session/Enter.antt =====
-- A line that is typed, key by key, and entered.
use smsg.Base.{
  ℕ, ◌≡◌, refl, sym, ap, ◌∙◌, List, [], ◌∷◌, ◌++◌, length, take, length-append, append-nil,
  append_assoc, Bool, true, false, none, some, map, arith, if◌then◌else◌,
}
use smsg.Base.Outcome.{Outcome, ok, failed, fault, ◌>>=◌}
use smsg.Base.Memory.{IsPlentiful}
use smsg.Base.Text.{Text, c_string}
use smsg.Clchat.Input.{Ibuf, is_null, block, Key}
use smsg.Clchat.Draft.{Draft, pressed, buffer_of, total}
use smsg.Clchat.Editing.Keys.{pressed_all}
use smsg.Clchat.History.{Slot, History, edits, with_room}
use smsg.Clchat.History.Lines.{Holds, holds, Rest, Shows}
use smsg.Clchat.History.Recall.{Stands}
use smsg.Clchat.History.Entered.{line_entered}
use smsg.Clchat.History.Front.{IsPushed-from}
use smsg.Clchat.Commands.{run_line}
use smsg.Clchat.Session.{
  Chatting, Round, Fixed, Pressed, key_enter, selected, with_shown, said_of, is_due, check_mail,
  round_of, on_input, on_server, on_key, on_meaning, on_enter, meaning, looping, turned, Ending,
  chat_loop, quits,
}
use smsg.Clchat.Session.Press.{Ready, front, pressed_of, meant, make_room-Ready, on_key_lem}

with_shown-nil : (s : Chatting) → with_shown [] s ≡ s
with_shown-nil s i = record s {
  typed = record s.typed { chat = record s.typed.chat { shown = append-nil s.typed.chat.shown i } };
}

with_shown-append :
    (a b : Text) (s : Chatting) → with_shown b (with_shown a s) ≡ with_shown (a ++ b) s
with_shown-append a b s i = record s {
  typed = record s.typed {
    chat = record s.typed.chat { shown = append_assoc s.typed.chat.shown a b i };
  };
}

-- A round in which there is a key, and nothing comes from the server.
abbrev pub pressing : Round → Pressed → Round
pressing r key = record r { selection = selected; key = some key; received = none }

abbrev pub keys_of : Round → List Key → List Round
keys_of r keys = map (λ key. pressing r (pressed_of key)) keys

abbrev pub said_all : List Key → Text
said_all [] = []
said_all (k ∷ ks) = said_of (edits k) ++ said_all ks

quiet :
    (f : Fixed) (r : Round) (s : Chatting) (key : Pressed)
    → is_due f.mailchecktime s.checked r.now ≡ false
    → round_of f (pressing r key) s selected ≡ on_input f (pressing r key) s (some key)
unfolding round_of check_mail
quiet f r s key h = rw h (ap (λ x. on_input f (pressing r key) x (some key)) (with_shown-nil s))

press_round :
    (f : Fixed) (r : Round) (s : Chatting) (bs c : Ibuf) (q : List Slot) (d : Draft) (key : Key)
    → IsPlentiful r.machine.memory
    → Ready bs d
    → is_due f.mailchecktime s.checked r.now ≡ false
    → let k = meant s.typed.backspace_char key in
      let d' = pressed d k in
      (bs' : Ibuf) × Ready bs' d'
      × (round_of f (pressing r (pressed_of key)) (record s { history = front bs c q d }) selected
          ≡ ok (looping (with_shown (said_of (edits k)) (record s { history = front bs' c q d' }))))
unfolding on_input
press_round f r s bs c q d key p h due =
    let (bs', h', done) = on_key_lem f (pressing r (pressed_of key)) s bs c q d key p h in
    (bs', h', quiet f r (record s { history = front bs c q d }) (pressed_of key) due ∙ rw done refl)

other_branch : (b : Bool) (x y : Outcome Ending) → b ≡ false → (if b then x else y) ≡ y
other_branch true x y h = cc
other_branch false x y h = refl

-- The loop goes on unless `exitloop` is set.
goes_round :
    (rest : Chatting → Outcome Ending) (s : Chatting)
    → s.typed.exitloop ≡ false
    → turned rest (looping s) ≡ rest s
goes_round rest s h = other_branch s.typed.exitloop (ok (quits s)) (rest s) h

pub press_rounds :
    (f : Fixed) (r : Round) (rs : List Round) (keys : List Key) (s : Chatting) (bs c : Ibuf)
    (q : List Slot) (d : Draft)
    → IsPlentiful r.machine.memory
    → Ready bs d
    → is_due f.mailchecktime s.checked r.now ≡ false
    → s.typed.exitloop ≡ false
    → let ks = map (meant s.typed.backspace_char) keys in
      let d' = pressed_all d ks in
      (bs' : Ibuf) × Ready bs' d'
      × (chat_loop f (keys_of r keys ++ rs) (record s { history = front bs c q d })
          ≡ chat_loop f rs (with_shown (said_all ks) (record s { history = front bs' c q d' })))
unfolding chat_loop pressed_all
press_rounds f r rs [] s bs c q d p h due on =
    (bs, h, ap (chat_loop f rs) (sym (with_shown-nil (record s { history = front bs c q d }))))
press_rounds f r rs (key ∷ keys) s bs c q d p h due on =
    let k = meant s.typed.backspace_char key in
    let ks = map (meant s.typed.backspace_char) keys in
    let (bs', h', done) = press_round f r s bs c q d key p h due in
    let s' = with_shown (said_of (edits k)) s in
    let (bs'', h'', rest) = press_rounds f r rs keys s' bs' c q (pressed d k) p h' due on in
    (
      bs'',
      h'',
      rw done (
            goes_round (chat_loop f (keys_of r keys ++ rs))
              (record s' { history = front bs' c q (pressed d k) }) on)
          ∙ rest
          ∙ ap (chat_loop f rs) (
              with_shown-append (said_of (edits k)) (said_all ks)
                (record s { history = front bs'' c q (pressed_all (pressed d k) ks) })),
    )

bind_twice {ℓ} :
    {A B C : Type 0} {D : Type ℓ} (o : Outcome A) (f : A → B) (g : B → C) (k : C → Outcome D)
    → (o >>= λ a. ok (f a)) >>= (λ b. ok (g b)) >>= k ≡ (o >>= λ a. k (g (f a)))
bind_twice (ok a) f g k = refl
bind_twice failed f g k = refl
bind_twice fault f g k = refl

-- The text of a draft is in its buffer.
buffer-Holds :
    (d : Draft) (spare : List ℕ) → Holds (buffer_of d.before d.after spare) (d.before ++ d.after)
buffer-Holds d spare =
    holds spare (ap block (sym (append_assoc d.before d.after spare)))
      (sym (length-append d.before d.after))
      (omega (arith, length-append d.before d.after, total d.before d.after spare))

-- The history with a new line, that nothing was typed in, at its front.
abbrev pub new_line : Slot → List Slot → Bool → History
new_line s q ins = record { iqueue = s ∷ q; ibqi = 0; ibuf_pos = 0; insertmode = ins }

pub enter_round :
    (f : Fixed) (r : Round) (s : Chatting) (bs c : Ibuf) (q : List Slot) (d : Draft)
    (ls : List Text)
    → IsPlentiful r.machine.memory
    → Ready bs d
    → is_null c.ibuf ≡ true
    → Rest 0 q ls
    → is_due f.mailchecktime s.checked r.now ≡ false
    → let t : Text = d.before ++ d.after in
      (s' : Slot) × (q' : List Slot) × (round_of f
          (pressing r key_enter)
          (record s { history = front bs c q d })
          selected
        ≡ (run_line r.machine f.version r.opens (c_string (t ++ (0 ∷ []))) s.typed >>= λ typed.
            ok (looping (record s { typed = typed; history = new_line s' q' d.inserting }))))
      × (is_null s'.0.ibuf ≡ true)
      × Shows q' (take (length q) (t ∷ ls))
unfolding on_input on_key with_room on_meaning on_enter meaning on_server
enter_round f r s bs c q d ls p h k rest due =
    let t : Text = d.before ++ d.after in
    let (x, more, roomy) = make_room-Ready r.machine.memory bs d p h in
    let bs' = buffer_of d.before d.after (x ∷ more) in
    let stands : Stands 0 (bs', c) q t ls = (buffer-Holds d (x ∷ more), k, rest) in
    let copied =
      line_entered r.machine.memory 0 (length d.before) d.inserting (bs', c) q t t ls p stands
        refl in
    let (s', q', moved, empty, shown) =
      IsPushed-from 0 (length d.before) d.inserting (bs', c) q t t ls stands refl in
    (
      s',
      q',
      quiet f r (record s { history = front bs c q d }) key_enter due
          ∙ rw (roomy, copied, moved)
              (bind_twice (run_line r.machine f.version r.opens (c_string (t ++ (0 ∷ []))) s.typed)
                (λ typed. record s { typed = typed; history = new_line s' q' d.inserting })
                (λ s''. (s'', false)) _),
      empty,
      shown,
    )
