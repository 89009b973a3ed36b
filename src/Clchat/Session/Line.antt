-- ===== src/Clchat/Session/Line.antt =====
-- From the keys that are pressed to the line that is run.
use smsg.Base.{◌≡◌, refl, ap, ◌∙◌, List, [], ◌∷◌, ◌++◌, length, take, Bool, true, false, map}
use smsg.Base.Outcome.{Outcome, ok, failed, fault, ◌>>=◌}
use smsg.Base.Memory.{IsPlentiful}
use smsg.Base.Text.{Text, c_string}
use smsg.Clchat.Input.{is_null, Key}
use smsg.Clchat.Draft.{Draft}
use smsg.Clchat.Editing.Keys.{pressed_all}
use smsg.Clchat.History.{Slot}
use smsg.Clchat.History.Lines.{Rest, Shows}
use smsg.Clchat.Commands.{run_line}
use smsg.Clchat.Session.{
  Chatting, Round, Fixed, key_enter, with_shown, is_due, looping, turned, chat_loop, Turn, Ending,
}
use smsg.Clchat.Session.Press.{unused, meant}
use smsg.Clchat.Session.Enter.{pressing, keys_of, said_all, press_rounds, enter_round, new_line}

-- What the user has in the line before typing.
abbrev pub blank : Bool → Draft
blank ins = record { before = []; after = []; inserting = ins }

bind_last :
    {A : Type 0} (o : Outcome A) (f : A → Turn) (k : Turn → Outcome Ending)
    → (o >>= (λ a. ok (f a)) >>= k) ≡ (o >>= λ a. k (f a))
bind_last (ok a) f k = refl
bind_last failed f k = refl
bind_last fault f k = refl

-- With memory plentiful, while the loop is not to end, on a new line before lines of which none was
-- visited, in rounds in which nothing comes from the server and the mailbox is not due, any
-- sequence of editing keys, the user's own backspace key among them, and then enter make the loop
-- run just the text that a text editor without buffers has after these keys, up to its first NUL,
-- once, in the state as it was but for what the page keys say, and go on with what that comes to.
-- The history then has that text in front of the older lines, as many as fit, and a new line before
-- them.
pub chat_loop-run_line :
    (f : Fixed) (r : Round) (rs : List Round) (keys : List Key) (s : Chatting) (first : Slot)
    (q : List Slot) (ls : List Text) (ins : Bool)
    → IsPlentiful r.machine.memory
    → is_null first.0.ibuf ≡ true
    → is_null first.1.ibuf ≡ true
    → Rest 0 q ls
    → is_due f.mailchecktime s.checked r.now ≡ false
    → s.typed.exitloop ≡ false
    → let ks = map (meant s.typed.backspace_char) keys in
      let d = pressed_all (blank ins) ks in
      let t : Text = d.before ++ d.after in
      (first' : Slot) × (q' : List Slot) × (chat_loop f
          (keys_of r keys ++ (pressing r key_enter ∷ rs))
          (record s { history = new_line first q ins })
        ≡ (run_line r.machine f.version r.opens
              (c_string (t ++ (0 ∷ [])))
              (with_shown (said_all ks) s).typed
            >>= λ typed.
                turned
                  (chat_loop f rs)
                  (looping (record s { typed = typed; history = new_line first' q' d.inserting }))))
      × (is_null first'.0.ibuf ≡ true)
      × Shows q' (take (length q) (t ∷ ls))
unfolding chat_loop
chat_loop-run_line f r rs keys s first q ls ins p h k rest due on =
    let ks = map (meant s.typed.backspace_char) keys in
    let d = pressed_all (blank ins) ks in
    let t : Text = d.before ++ d.after in
    let s' = with_shown (said_all ks) s in
    let (bs, ready, typing) =
      press_rounds f r (pressing r key_enter ∷ rs) keys s first.0 first.1 q (blank ins) p
        (unused h refl refl) due on in
    let (first', q', entering, empty, shown) =
      enter_round f r s' bs first.1 q d ls p ready k rest due in
    (
      first',
      q',
      typing
          ∙ ap (λ o. o >>= turned (chat_loop f rs)) entering
          ∙ bind_last (run_line r.machine f.version r.opens (c_string (t ++ (0 ∷ []))) s'.typed)
              (λ typed.
                looping (record s { typed = typed; history = new_line first' q' d.inserting }))
              (turned (chat_loop f rs)),
      empty,
      shown,
    )
