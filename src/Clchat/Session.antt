-- ===== src/Clchat/Session.antt =====
-- clchat.c, chatter_func(): the rounds of its loop, and what is before and behind it.
pub mod Press
pub mod Enter
pub mod Line
use smsg.Base.{
  ℕ, suc, ◌+◌, ◌≡◌, refl, List, [], ◌∷◌, ◌++◌, length, set, Bool, true, false, ◌&&◌, ◌==◌, ltb, leb,
  if◌then◌else◌, Option, none, some, on_option,
}
use smsg.Base.Outcome.{Outcome, ok, ◌>>=◌}
use smsg.Base.Text.{Text, literal, c_string}
use smsg.Client.{Machine}
use smsg.Clchat.Input.{is_command, key_backspace, key_ppage, character}
use smsg.Clchat.Output.{lcc_asay}
use smsg.Clchat.History.{History, Stay, edits, slot_at, with_room, on_stay, entered_line, next_line}
use smsg.Clchat.Complete.{tab_key}
use smsg.Clchat.Mailbox.{Mailbox, lcc_mboxchange}
use smsg.Clchat.Commands.{Typed, run_line}
use smsg.Clchat.Receive.Loop.{Next, goes_on, server_gone, from_server}

-- The variables of the loop; `checked` is `maillastcheck.tv_sec`.
pub record Chatting : Type 0 where
  pub typed : Typed
  pub history : History
  pub rbuf : List ℕ
  pub mailbox : Mailbox
  pub checked : ℕ

-- The result of select(); EINTR is `interrupted`.
pub data Selected : Type 0 where
  interrupted select_failed selected : Selected

-- What wgetch() returns: a character, or a key of the terminal.
pub data Pressed : Type 0 where
  char_key : ℕ → Pressed
  terminal_key : Stay → Pressed
  key_enter key_resize : Pressed

-- What the machine gives in a round: the results of select(), gettimeofday(), and of stat() and
-- fopen() on the mailbox; the key, if there is one; the result of recv(), if there is something to
-- receive; and whether the log can be opened.
pub record Round : Type 0 where
  pub machine : Machine
  pub selection : Selected
  pub now : ℕ
  pub mail_size : Option ℕ
  pub mail_lines : Option (List Text)
  pub key : Option Pressed
  pub received : Option (Option (List ℕ))
  pub opens : Bool

-- What does not change: VERSION, CMDLINE_HISTLEN and `chatopts->mailchecktime`.
pub record Fixed : Type 0 where
  pub version : Text
  pub cmdline_histlen : ℕ
  pub mailchecktime : ℕ

abbrev pub with_shown : Text → Chatting → Chatting
with_shown text s = record s {
  typed = record s.typed { chat = record s.typed.chat { shown = s.typed.chat.shown ++ text } };
}

-- Is the mailbox to be looked at?
abbrev pub is_due : ℕ → ℕ → ℕ → Bool
is_due mailchecktime checked now = ltb 0 mailchecktime && leb (checked + mailchecktime) now

unfoldable pub check_mail : Fixed → Round → Chatting → Chatting
check_mail f r s =
    if is_due f.mailchecktime s.checked r.now
    then (let c = lcc_mboxchange s.mailbox r.mail_size r.mail_lines in
        with_shown c.1 (record s { mailbox = c.0; checked = r.now }))
    else s

-- The cases of the `switch`.
pub data Meaning : Type 0 where
  stays : Stay → Meaning
  completes resizes enters : Meaning

abbrev pub meaning_of : (ch : ℕ) (command : Bool) → is_command ch ≡ command → Meaning
meaning_of ch true h = if ch == 9 then completes else enters
meaning_of ch false h = stays (edits (character ch h))

-- `if(ch == backspace_char) ch = 8`
unfoldable pub meaning : Option ℕ → Pressed → Meaning
meaning backspace_char (char_key ch) =
    if on_option backspace_char false (λ c. ch == c)
    then stays (edits key_backspace)
    else meaning_of ch (is_command ch) refl
meaning backspace_char (terminal_key stay) = stays stay
meaning backspace_char key_enter = enters
meaning backspace_char key_resize = resizes

-- `case 9`, on the current line.
unfoldable pub on_tab : Machine → Chatting → Outcome Chatting
on_tab m s =
    let h = s.history in
    slot_at h.iqueue h.ibqi >>= λ e.
    tab_key m s.typed.chat.culist
      (record { buffer = e.0; ibuf_pos = h.ibuf_pos; insertmode = h.insertmode })
    >>= λ r. ok (
        with_shown r.1 (record s {
          history = record h {
            iqueue = set h.iqueue h.ibqi (r.0.buffer, e.1);
            ibuf_pos = r.0.ibuf_pos;
          };
        }))

-- The line is parsed, and the lines move.
unfoldable pub on_enter : Machine → Text → Bool → Chatting → Outcome Chatting
on_enter m version opens s = entered_line m.memory s.history >>= λ bufcopy.
    run_line m version opens (c_string bufcopy) s.typed >>= λ typed.
    next_line s.history >>= λ history. ok (record s { typed = typed; history = history })

-- `case KEY_PPAGE: case KEY_NPAGE`
abbrev pub said_of : Stay → Text
said_of (edits key_ppage) = lcc_asay 1 (
    literal
      "Page_up and page_down are reserved for scrollback which is yet to come...be patient.\n")
said_of _ = []

-- The state, and `cont_loop`.
unfoldable pub on_meaning : Fixed → Round → Chatting → Meaning → Outcome (Chatting × Bool)
unfolding on_tab on_enter
on_meaning f r s (stays stay) = on_stay r.machine.memory s.history stay >>= λ h.
    ok (with_shown (said_of stay) (record s { history = h }), true)
on_meaning f r s completes = on_tab r.machine s >>= λ s'. ok (s', true)
on_meaning f r s resizes = ok (s, true)
on_meaning f r s enters = on_enter r.machine f.version r.opens s >>= λ s'. ok (s', false)

-- `if(FD_ISSET(STDIN_FILENO, &read_fds))`
unfoldable pub on_key : Fixed → Round → Chatting → Pressed → Outcome (Chatting × Bool)
unfolding on_meaning meaning
on_key f r s key = with_room r.machine.memory s.history >>= λ h.
    on_meaning f r (record s { history = h }) (meaning s.typed.backspace_char key)

-- How a round ends: `break` is `server_quit`.
pub data Turn : Type 0 where
  looping server_quit : Chatting → Turn

abbrev pub turn_of : Chatting → Next → Turn
turn_of s (goes_on rbuf sbuf chat) =
    looping (record s { typed = record s.typed { sbuf = sbuf; chat = chat }; rbuf = rbuf })
turn_of s (server_gone chat) = server_quit (record s { typed = record s.typed { chat = chat } })

-- The fuel is above the number of bytes there are.
abbrev pub enough : List ℕ → Option (List ℕ) → ℕ
enough rbuf received = suc (length rbuf + on_option received 0 length)

-- `if(FD_ISSET(connfd, &read_fds))`
unfoldable pub on_server : Round → Chatting → Option (Option (List ℕ)) → Outcome Turn
on_server r s none = ok (looping s)
on_server r s (some received) =
    from_server (enough s.rbuf received) r.machine s.rbuf s.typed.sbuf s.typed.chat received
    >>= λ n. ok (turn_of s n)

-- What is done with a key goes before what comes from the server.
unfoldable pub on_input : Fixed → Round → Chatting → Option Pressed → Outcome Turn
unfolding on_key on_server
on_input f r s none = on_server r s r.received
on_input f r s (some key) =
    on_key f r s key >>= λ k. if k.1 then ok (looping k.0) else on_server r k.0 r.received

-- The text of a failed select().
abbrev pub select_error : Selected → Machine → Text
select_error select_failed m =
    lcc_asay 3 (literal "select error (" ++ (m.strerror ++ literal ")\n"))
select_error _ m = []

unfoldable pub round_of : Fixed → Round → Chatting → Selected → Outcome Turn
unfolding check_mail on_input
round_of f r s interrupted = ok (looping s)
round_of f r s selection =
    on_input f r (check_mail f r (with_shown (select_error selection r.machine) s)) r.key

-- How the loop stands when the rounds are over: it goes on, or its result is 0 or -2.
pub data Ending : Type 0 where
  goes_on_still quits gone : Chatting → Ending

-- `while(!exitloop)`
abbrev pub turned : (Chatting → Outcome Ending) → Turn → Outcome Ending
turned rest (looping s) = if s.typed.exitloop then ok (quits s) else rest s
turned rest (server_quit s) = ok (gone s)

unfoldable pub chat_loop : Fixed → List Round → Chatting → Outcome Ending
unfolding round_of
chat_loop f [] s = ok (goes_on_still s)
chat_loop f (r ∷ rs) s = round_of f r s r.selection >>= turned (chat_loop f rs)
