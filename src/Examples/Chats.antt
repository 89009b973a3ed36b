-- ===== src/Examples/Chats.antt =====
-- The replies that a client gets, and the chat client, on concrete input.
use smsg.Base.{map, ℕ, ◌≡◌, refl, List, [], ◌∷◌, ◌++◌, true, false, none, some, arith}
use smsg.Base.Outcome.{ok, fault, ◌>>=◌}
use smsg.Base.Text.{literal}
use smsg.Ncmd.Opcode.{code, list, c_say, c_kick}
use smsg.Ncmd.Frame.{Command, encode, encode_args, IsSized}
use smsg.Calls.Encode.{command}
use smsg.Host.{UserlistEnt, local_address}
use smsg.Server.{Client, normal}
use smsg.Server.Message.{answer_queued, answer_list, list_entries}
use smsg.Server.Settings.{with_sent}
use smsg.Client.Send.{local_host}
use smsg.Client.Query.{getmessage, getlist_session}
use smsg.Client.Misread.{queued, printed, IsPlain, queue_request, getmessage-answer_queued}
use smsg.Client.Overread.{getlist_overread}
use smsg.Clchat.Input.{key_left, key_backspace, key_ic, character, edit_all}
use smsg.Clchat.Draft.{line_of}
use smsg.Clchat.Editing.Keys.{fresh_line, empty_draft, pressed_all, edit_all-pressed_all}
use smsg.Ncmd.Names.{name, to_lower}
use smsg.Clchat.Token.{is_in}
use smsg.Clchat.Words.{IsWord, word_char, word_end, HasWords, next_word, last_word, gap_end}
use smsg.Clchat.Commands.{Typed, run_line}
use smsg.Clchat.Typing.{kick_words, words_request, run_line_lem}
use smsg.Clchat.Receive.{Chat}
use smsg.Clchat.Receive.Loop.{receive_loop}
use smsg.Clchat.Receive.Stream.{
  encode_all, handle_all, AllSized, no_more, and_sized, receive_loop-handle_all,
}
use smsg.Clchat.Receive.Total.{Runs}
use smsg.Clchat.Receive.Ends.{receive_loop-Runs}
use smsg.Examples.{memory, memory-IsPlentiful, host, server}
use smsg.Examples.Programs.{machine, machine-Reaches}
use smsg.Ncmd.{ncmd_iscomplete}

abbrev reply : Command
reply = queued 1 (literal "hi") (literal "noon") (literal "bo") (literal "10.0.0.1")

reply-IsSized : IsSized reply
unfolding encode encode_args code
reply-IsSized = record { op_word = omega arith; args_word = omega arith; size_int = omega arith }

reply-IsPlain : IsPlain (literal "hi") (literal "noon") (literal "bo") (literal "10.0.0.1")
reply-IsPlain = record {
  msg_plain = refl;
  sendtime_plain = refl;
  sender_plain = refl;
  source_ip_plain = refl;
}

abbrev slot : Client
slot = record { fd = some 5; address = local_address; buf = [] }

getmessage-answer_queued_example :
    (answer_queued host server slot
        (record {
          message = some (record {
            msg = literal "hi";
            sendtime = literal "noon";
            sender = literal "bo";
            source_ip = literal "10.0.0.1";
          });
          numleft = 1;
        })
        true
      ≡ ok (with_sent server 5 reply, normal))
    × (getmessage machine 3331 (some (encode reply ++ []))
        ≡ ok (
          record {
            sent = encode (queue_request (literal "al")) ∷ [];
            said = printed (literal "hi") (literal "noon") (literal "bo") (literal "10.0.0.1");
            errors = [];
          },
          true,
        ))
getmessage-answer_queued_example =
    getmessage-answer_queued machine host server slot 5 3331 local_address 1 [] (literal "al")
      (literal "hi") (literal "noon") (literal "bo") (literal "10.0.0.1") memory-IsPlentiful
      memory-IsPlentiful machine-Reaches refl (omega arith) reply-IsSized reply-IsPlain refl

abbrev al_there : UserlistEnt
al_there = record { name = literal "al"; tty = literal "/dev/tty1"; count = 1; login = 0 }

abbrev lists : Command
lists =
    command (code list)
      (some (literal "0.9") ∷ some (literal "unix") ∷ list_entries host (al_there ∷ []))

lists-IsSized : IsSized lists
unfolding encode encode_args code list_entries
lists-IsSized = record { op_word = omega arith; args_word = omega arith; size_int = omega arith }

getlist_overread_example :
    (answer_list host (literal "0.9") (literal "unix") server slot (ok (al_there ∷ []))
      ≡ ok (with_sent server 5 lists, normal))
    × (getlist_session machine local_host 3331 (some (encode lists ++ [])) ≡ fault)
getlist_overread_example =
    getlist_overread machine host server slot al_there [] local_host (literal "al") 5 3331
      local_address [] (literal "0.9") (literal "unix") memory-IsPlentiful memory-IsPlentiful
      machine-Reaches refl refl lists-IsSized refl refl refl

-- "ab", left, "x" inserted, then overwriting.
edit_all-pressed_all_example :
    (spare : List ℕ) × (edit_all memory fresh_line (
        character 97 refl
        ∷ character 98 refl
        ∷ key_left
        ∷ character 120 refl
        ∷ key_ic
        ∷ character 121 refl
        ∷ key_backspace
        ∷ [])
      ≡ ok (
          line_of
            (pressed_all empty_draft (
              character 97 refl
              ∷ character 98 refl
              ∷ key_left
              ∷ character 120 refl
              ∷ key_ic
              ∷ character 121 refl
              ∷ key_backspace
              ∷ []))
            spare))
edit_all-pressed_all_example =
    edit_all-pressed_all memory (character 97 refl)
      (character 98 refl
        ∷ key_left
        ∷ character 120 refl
        ∷ key_ic
        ∷ character 121 refl
        ∷ key_backspace
        ∷ [])
      memory-IsPlentiful

-- The user "al" in the chat; "bo" speaks, and "al" is kicked.
abbrev pub chat : Chat
chat = record {
  nick = some (literal "al");
  away = false;
  operator = false;
  kicked = 0;
  culist = [];
  req_who = false;
  shown = [];
  sent = [];
  targ0 = none;
  targ1 = none;
}

abbrev says : Command
says = record { op = code c_say; args = literal "bo" ∷ literal "hello" ∷ [] }

abbrev kicks : Command
kicks = record { op = code c_kick; args = literal "al" ∷ literal "bo" ∷ [] }

both-AllSized : AllSized (says ∷ kicks ∷ [])
unfolding encode encode_args code
both-AllSized =
    and_sized (record { op_word = omega arith; args_word = omega arith; size_int = omega arith })
      (and_sized (record { op_word = omega arith; args_word = omega arith; size_int = omega arith })
        no_more)

too_short : ncmd_iscomplete (0 ∷ []) ≡ ok 0
unfolding ncmd_iscomplete
too_short = refl

receive_loop-handle_all_example :
    receive_loop 5 machine (encode_all (says ∷ kicks ∷ []) ++ (0 ∷ [])) [] chat
    ≡ (handle_all machine (says ∷ kicks ∷ []) (0 ∷ []) [] chat >>= λ r. ok (0 ∷ [], r))
receive_loop-handle_all_example =
    receive_loop-handle_all machine (says ∷ kicks ∷ []) (0 ∷ []) [] chat 2 memory-IsPlentiful
      both-AllSized too_short

receive_loop-Runs_example : Runs (receive_loop 5 machine (0 ∷ 29 ∷ 0 ∷ 0 ∷ []) [] chat)
receive_loop-Runs_example =
    receive_loop-Runs 5 machine (0 ∷ 29 ∷ 0 ∷ 0 ∷ []) [] chat memory-IsPlentiful (omega arith)

-- "/Kick bo flooding"
abbrev pub typed : Typed
typed = record {
  chat = chat;
  sbuf = [];
  sendit = false;
  reason = none;
  exitloop = false;
  backspace_char = none;
  log_open = false;
}

kick-IsWord : IsWord (75 ∷ literal "ick")
unfolding is_in
kick-IsWord = word_char refl (word_char refl (word_char refl (word_char refl word_end)))

kick_name : map to_lower (75 ∷ literal "ick") ≡ map to_lower (name c_kick)
unfolding name to_lower
kick_name = refl

bo_flooding : HasWords (literal "bo flooding") (literal "bo" ∷ literal "flooding" ∷ [])
unfolding is_in
bo_flooding = next_word 32 gap_end (word_char refl (word_char refl word_end)) refl (
    last_word gap_end (
      word_char refl (
        word_char refl (
          word_char refl (
            word_char refl
              (word_char refl (word_char refl (word_char refl (word_char refl word_end)))))))))

run_line_lem_example :
    run_line machine
      (literal "0.9")
      true
      (47 ∷ ((75 ∷ literal "ick") ++ (32 ∷ literal "bo flooding")))
      typed
    ≡ ok (record typed {
      sbuf = words_request c_kick (literal "bo" ∷ literal "flooding" ∷ []);
      sendit = true;
      chat = record chat {
        sent = chat.sent ++ (words_request c_kick (literal "bo" ∷ literal "flooding" ∷ []) ∷ []);
      };
    })
run_line_lem_example =
    run_line_lem machine (literal "0.9") true c_kick 75 (literal "ick") (literal "bo flooding")
      (literal "bo" ∷ literal "flooding" ∷ []) typed memory-IsPlentiful (λ sbuf. refl) kick_words
      bo_flooding kick-IsWord kick_name
