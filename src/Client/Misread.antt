-- ===== src/Client/Misread.antt =====
-- What the client makes of the server's replies to GETQMSG and GETLIST.
use smsg.Base.{
  ℕ, ◌/◌, ◌%◌, ◌<◌, ◌≡◌, refl, ap, ◌∙◌, List, [], ◌∷◌, ◌++◌, true, false, Option, none, some, arith,
}
use smsg.Base.Outcome.{ok, ◌>>=◌}
use smsg.Base.Memory.{IsPlentiful}
use smsg.Base.Text.{Text, literal, has_nul, c_string}
use smsg.Ncmd.Words.{store_ns}
use smsg.Ncmd.Opcode.{code, qmsg, getqmsg}
use smsg.Ncmd.Frame.{Command, encode, IsSized}
use smsg.Ncmd.Argument.{ncmd_getnumargs-encode}
use smsg.Calls.Encode.{fetch-encode, compose-encode, command}
use smsg.Host.{Host}
use smsg.Server.{Server, Client, normal}
use smsg.Server.Message.{answer_queued}
use smsg.Server.Settings.{answer_lem, with_sent}
use smsg.Client.{Machine, Session, silent, say, string_of}
use smsg.Client.Send.{local_host}
use smsg.Client.Query.{getmessage, getmessage_as, queued_reply, say_queued, say_message}
use smsg.Client.Exchange.{
  Reaches, connect_lem, transmit_lem, reply_taken, string_of-sent, logged_in_as,
}

-- The reply to GETQMSG, with a message.
abbrev pub queued : ℕ → Text → Text → Text → Text → Command
queued left msg sendtime sender source_ip =
    command (code qmsg)
      (some (store_ns left) ∷ some msg ∷ some sendtime ∷ some sender ∷ some source_ip ∷ [])

-- What the client prints of it.
abbrev pub printed : Text → Text → Text → Text → Text
printed msg sendtime sender source_ip =
    literal "There are no messages left on the queue.\n"
    ++ (literal "Queued message from "
        ++ (sendtime
            ++ (literal "@"
                ++ (sender
                    ++ (literal " sent on"
                        ++ (literal " "
                            ++ (msg ++ (literal ":\n" ++ (source_ip ++ literal "\n")))))))))

say_message_lem :
    (m : Machine) (s : Session) (rest : List ℕ) (targ : Option (List ℕ)) (left : ℕ)
    (msg sendtime sender source_ip : Text)
    → IsPlentiful m.memory
    → IsSized (queued left msg sendtime sender source_ip)
    → has_nul msg ≡ false
    → has_nul sendtime ≡ false
    → has_nul sender ≡ false
    → has_nul source_ip ≡ false
    → say_message m s (encode (queued left msg sendtime sender source_ip) ++ rest) targ
      ≡ ok (
          say s (
            literal "Queued message from "
            ++ (sendtime
                ++ (literal "@"
                    ++ (sender
                        ++ (literal " sent on"
                            ++ (literal " "
                                ++ (msg ++ (literal ":\n" ++ (source_ip ++ literal "\n"))))))))))
unfolding say_message
say_message_lem m s rest targ left msg sendtime sender source_ip p h n1 n2 n3 n4 =
    let c = queued left msg sendtime sender source_ip in
    rw
      (
        fetch-encode m.memory c rest 2 true targ sendtime p h refl,
        string_of-sent sendtime n2,
        fetch-encode m.memory c rest 3 true (some (sendtime ++ (0 ∷ []))) sender p h refl,
        string_of-sent sender n3,
        fetch-encode m.memory c rest 1 true (some (sender ++ (0 ∷ []))) msg p h refl,
        string_of-sent msg n1,
        fetch-encode m.memory c rest 4 true (some (msg ++ (0 ∷ []))) source_ip p h refl,
        string_of-sent source_ip n4,
      )
      refl

-- A small number is sent as a word whose first byte is 0: as a string it is empty.
word_as_string : (left : ℕ) → left < 256 → string_of (some (store_ns left ++ (0 ∷ []))) ≡ ok []
unfolding string_of c_string
word_as_string left small = let high : left / 256 % 256 ≡ 0 = omega arith in rw high refl

-- The strings of a message have no NUL in them.
pub record IsPlain (msg sendtime sender source_ip : Text) : Type 0 where
  pub msg_plain : has_nul msg ≡ false
  pub sendtime_plain : has_nul sendtime ≡ false
  pub sender_plain : has_nul sender ≡ false
  pub source_ip_plain : has_nul source_ip ≡ false

say_queued_lem :
    (m : Machine) (sent : List (List ℕ)) (rest : List ℕ) (left : ℕ)
    (msg sendtime sender source_ip : Text)
    → IsPlentiful m.memory
    → m.atoi [] ≡ 0
    → left < 256
    → IsSized (queued left msg sendtime sender source_ip)
    → IsPlain msg sendtime sender source_ip
    → say_queued m
        (record silent { sent = sent })
        (encode (queued left msg sendtime sender source_ip) ++ rest)
      ≡ ok (record silent { sent = sent; said = printed msg sendtime sender source_ip })
unfolding say_queued
say_queued_lem m sent rest left msg sendtime sender source_ip p az small h q =
    let c = queued left msg sendtime sender source_ip in
    let s : Session = record silent { sent = sent } in
    rw
      (
        fetch-encode m.memory c rest 0 true none (store_ns left) p h refl,
        word_as_string left small,
        az,
        ncmd_getnumargs-encode c rest h,
        say_message_lem m (say s (literal "There are no messages left on the queue.\n")) rest
            (some (store_ns left ++ (0 ∷ []))) left msg sendtime sender source_ip p h q.msg_plain
            q.sendtime_plain q.sender_plain q.source_ip_plain,
      )
      refl

-- The request for a message.
abbrev pub queue_request : Text → Command
queue_request user = command (code getqmsg) (some user ∷ [])

-- If a message comes from a user's queue, the server sends text, time, sender and address in that
-- order, behind the number of messages left; with the server reached, fewer than 256 messages left,
-- an empty text read as zero, and texts without NUL in a reply that fits the format, getmessage()
-- says that none are left, and prints the time as the sender, the sender as the host, the text as
-- the time and the address as the text.
pub getmessage-answer_queued :
    (m : Machine) (h : Host) (s : Server) (c : Client) (fd port address left : ℕ) (rest : List ℕ)
    (user msg sendtime sender source_ip : Text)
    → IsPlentiful m.memory
    → IsPlentiful h.memory
    → Reaches m local_host port address user
    → m.atoi [] ≡ 0
    → left < 256
    → IsSized (queued left msg sendtime sender source_ip)
    → IsPlain msg sendtime sender source_ip
    → c.fd ≡ some fd
    → (answer_queued h s c
          (record {
            message =
                some (record {
                  msg = msg;
                  sendtime = sendtime;
                  sender = sender;
                  source_ip = source_ip;
                });
            numleft = left;
          })
          true
        ≡ ok (with_sent s fd (queued left msg sendtime sender source_ip), normal))
      × (getmessage m port (some (encode (queued left msg sendtime sender source_ip) ++ rest))
          ≡ ok (
            record {
              sent = encode (queue_request user) ∷ [];
              said = printed msg sendtime sender source_ip;
              errors = [];
            },
            true,
          ))
unfolding answer_queued queued_reply code getmessage
getmessage-answer_queued m h s c fd port address left rest user msg sendtime sender source_ip p p' r
      az small sized q open_fd =
    let reply = queued left msg sendtime sender source_ip in
    let s' : Session = record silent { sent = encode (queue_request user) ∷ [] } in
    (
      answer_lem h s c fd (code qmsg)
          (some (store_ns left) ∷ some msg ∷ some sendtime ∷ some sender ∷ some source_ip ∷ []) p'
          open_fd,
      logged_in_as _ (λ pw_name. getmessage_as m pw_name port (some (encode reply ++ rest))) r.named
          ∙ (unfold getmessage_as in
              rw
                (
                  connect_lem m silent local_host user port address r,
                  compose-encode m.memory [] (code getqmsg) (some user ∷ []) p,
                  transmit_lem m silent local_host user (literal "message") port address
                      (encode (queue_request user)) r,
                )
                (ap (λ o. o >>= λ t. ok (t, true))
                  (reply_taken m s' (λ rbuf. s') reply rest (queued_reply m s') p sized
                    ∙ say_queued_lem m (encode (queue_request user) ∷ []) rest left msg sendtime
                        sender source_ip p az small sized q))),
    )
