-- ===== src/Examples/Lines.antt =====
-- The lines of the chat client, its tab key, and the check of the mailbox, on concrete input.
use smsg.Base.{
  set, ℕ, ◌≡◌, ◌<◌, refl, List, [], ◌∷◌, ◌++◌, length, take, drop, map, replicate, true, false,
  none, some, arith,
}
use smsg.Base.Outcome.{ok, fault, ◌>>=◌}
use smsg.Base.Text.{Text, literal, c_string}
use smsg.Clchat.Input.{dangling, null, Ibuf, is_null, Key, key_left, character}
use smsg.Clchat.Output.{lcc_asay}
use smsg.Clchat.Draft.{Draft, buffer_of, line_of}
use smsg.Clchat.Editing.Keys.{pressed_all}
use smsg.Clchat.History.Freed.{next_line-fault}
use smsg.Clchat.History.{
  next_line, recalled, free_last, shift, History, Slot, empty_ibuf, up, stay_all, with_room,
  entered_line,
}
use smsg.Clchat.History.Lines.{Holds, holds, Shows}
use smsg.Clchat.History.Recall.{history}
use smsg.Clchat.History.Front.{IsPushed, next_line-stay_all}
use smsg.Clchat.Complete.{stops, tab_key}
use smsg.Clchat.Complete.Matches.{is_token, at_start, matching}
use smsg.Clchat.Complete.Tab.{completed, tab_key_lem}
use smsg.Clchat.Mailbox.{behind, lcc_mboxchange}
use smsg.Clchat.Mailbox.News.{Mail, AreMails, file_of, announced, lcc_mboxchange_lem}
use smsg.Clchat.Commands.{run_line}
use smsg.Clchat.Session.{
  Chatting, Round, Fixed, selected, key_enter, with_shown, looping, turned, chat_loop,
}
use smsg.Clchat.Session.Press.{meant}
use smsg.Clchat.Session.Enter.{pressing, keys_of, said_all, new_line}
use smsg.Clchat.Session.Line.{blank, chat_loop-run_line}
use smsg.Examples.{memory, memory-IsPlentiful}
use smsg.Examples.Programs.{machine}
use smsg.Examples.Chats.{typed}

abbrev written : Text → Ibuf
written t = buffer_of t [] (replicate 90 170)

written-Holds : Holds (written (literal "/who")) (literal "/who")
written-Holds = holds (replicate 90 170) refl refl (omega arith)

written-Holds' : Holds (written (literal "hi")) (literal "hi")
written-Holds' = holds (replicate 90 170) refl refl (omega arith)

abbrev front_slot : Slot
front_slot = (written (literal "hi"), empty_ibuf)

abbrev older : List Slot
older = (written (literal "/who"), empty_ibuf) ∷ (empty_ibuf, empty_ibuf) ∷ []

-- Up, and enter.
next_line-stay_all_example :
    (h : History) × (h' : History) × (stay_all memory
        (history front_slot older 0 2 true)
        (replicate 1 up)
      ≡ ok h)
    × (with_room memory h ≡ ok h')
    × (entered_line memory h' ≡ ok (literal "/who" ++ (0 ∷ [])))
    × IsPushed h' (length older) (literal "/who" ∷ literal "/who" ∷ [])
next_line-stay_all_example =
    next_line-stay_all memory 1 2 true front_slot older (literal "hi") (literal "/who")
      (literal "/who" ∷ []) memory-IsPlentiful
      (written-Holds', refl, (written-Holds, refl, (refl, refl, tt))) refl

abbrev typed_nick : Draft
typed_nick = record { before = literal "b"; after = []; inserting = true }

abbrev nicks : List Text
nicks = literal "al" ∷ literal "bob" ∷ []

b-is_token : is_token (literal "b") ≡ true
unfolding is_token stops
b-is_token = refl

tab_key_lem_example :
    (said : Text) × (spare' : List ℕ) × (tab_key machine nicks
        (line_of typed_nick (replicate 90 170))
      ≡ ok (line_of (completed typed_nick 1 (matching (literal "b") nicks)) spare', said))
    × (length (matching (literal "b") nicks) < 2 → said ≡ [])
tab_key_lem_example =
    tab_key_lem machine nicks [] (literal "b") [] (replicate 90 170) true memory-IsPlentiful
      (at_start refl) b-is_token

abbrev old_mail : Mail
old_mail = record { sender = literal "bo@host Mon\n"; lines = literal "Subject: a\n" ∷ [] }

abbrev new_mail : Mail
new_mail = record { sender = literal "al@host Tue\n"; lines = literal "Subject: b\n" ∷ [] }

both-AreMails : AreMails (old_mail ∷ new_mail ∷ [])
unfolding behind
both-AreMails = (refl, (refl, tt))

lcc_mboxchange_lem_example :
    lcc_mboxchange
      (record { firstrun = false; last_size = 10; mailcount = some 1 })
      (some 20)
      (some (file_of (old_mail ∷ new_mail ∷ [])))
    ≡ (
      record { firstrun = false; last_size = 20; mailcount = some 2 },
      lcc_asay 1 (literal "Yay! More mail!")
          ++ (announced (drop 1 (old_mail ∷ new_mail ∷ [])) ++ lcc_asay 0 (literal "\n")),
      some true,
    )
lcc_mboxchange_lem_example =
    lcc_mboxchange_lem 1 10 20 (old_mail ∷ new_mail ∷ []) both-AreMails (omega arith)

-- "b", left, "a", enter.
abbrev fixed : Fixed
fixed = record { version = literal "0.9"; cmdline_histlen = 25; mailchecktime = 60 }

abbrev pause : Round
pause = record {
  machine = machine;
  selection = selected;
  now = 100;
  mail_size = none;
  mail_lines = none;
  key = none;
  received = none;
  opens = true;
}

abbrev chatting : Chatting
chatting = record {
  typed = typed;
  history = new_line (empty_ibuf, empty_ibuf) ((empty_ibuf, empty_ibuf) ∷ []) true;
  rbuf = [];
  mailbox = record { firstrun = false; last_size = 10; mailcount = some 1 };
  checked = 90;
}

abbrev three : List Key
three = character 98 refl ∷ key_left ∷ character 97 refl ∷ []

chat_loop-run_line_example :
    let ks = map (meant none) three in
    let d = pressed_all (blank true) ks in
    let t : Text = d.before ++ d.after in
    (first : Slot) × (q : List Slot) × (chat_loop fixed
        (keys_of pause three ++ (pressing pause key_enter ∷ []))
        (record chatting {
          history = new_line (empty_ibuf, empty_ibuf) ((empty_ibuf, empty_ibuf) ∷ []) true;
        })
      ≡ (run_line machine
            (literal "0.9")
            true
            (c_string (t ++ (0 ∷ [])))
            (with_shown (said_all ks) chatting).typed
          >>= λ y.
              turned
                (chat_loop fixed [])
                (looping (record chatting { typed = y; history = new_line first q d.inserting }))))
    × (is_null first.0.ibuf ≡ true)
    × Shows q (take 1 (t ∷ []))
chat_loop-run_line_example =
    chat_loop-run_line fixed pause [] three chatting (empty_ibuf, empty_ibuf)
      ((empty_ibuf, empty_ibuf) ∷ []) [] true memory-IsPlentiful refl refl (refl, refl, tt) refl
      refl

-- Two lines fit; the older was visited, and "c" is entered.
abbrev visited : List Slot
visited = (written (literal "a"), written (literal "a")) ∷ []

abbrev entered_c : History
entered_c = record {
  iqueue =
      (record (written (literal "c")) { ibuf = null }, empty_ibuf)
      ∷ (written (literal "c"), record (written (literal "a")) { ibuf = dangling })
      ∷ [];
  ibqi = 0;
  ibuf_pos = 0;
  insertmode = true;
}

c_entered : next_line (history (written (literal "c"), empty_ibuf) visited 0 1 true) ≡ ok entered_c
unfolding next_line recalled free_last shift
c_entered = refl

next_line-fault_example :
    next_line (record {
      iqueue = set entered_c.iqueue 0 (written (literal "d"), empty_ibuf);
      ibqi = 0;
      ibuf_pos = 1;
      insertmode = true;
    })
    ≡ fault
next_line-fault_example =
    next_line-fault 0 1 true (written (literal "c"), empty_ibuf)
      (written (literal "a"), written (literal "a")) visited (literal "a" ++ replicate 90 170)
      entered_c refl refl (omega arith) c_entered (written (literal "d"), empty_ibuf) 1 true
