-- ===== src/Examples/Talk.antt =====
-- "al" says "hi", and is shown it with the others.
use smsg.Base.{
  ℕ, ◌≡◌, refl, List, [], ◌∷◌, ◌++◌, map, get_elem?, replicate, true, false, some, arith,
}
use smsg.Base.Outcome.{ok}
use smsg.Base.Text.{literal}
use smsg.Ncmd.Opcode.{code, c_say}
use smsg.Ncmd.Frame.{encode, encode_args, IsSized}
use smsg.Calls.Encode.{command}
use smsg.Host.{local_address}
use smsg.Udata.{udata_get_by_fd, first}
use smsg.Server.{Server, Client, normal, is_chatting}
use smsg.Server.Userinfo.{lcs_compose_name, display_name}
use smsg.Server.Loop.{unused_client}
use smsg.Server.Dispatch.{ls_handle_netcmd}
use smsg.Clchat.Token.{is_in, lcc_token_delim}
use smsg.Clchat.Commands.{run_line}
use smsg.Clchat.Receive.Loop.{on_command}
use smsg.Clchat.Relay.{said, relayed, heard}
use smsg.Clchat.Relay.Heard.{run_line-on_command}
use smsg.Examples.{memory-IsPlentiful, host, server}
use smsg.Examples.Programs.{machine}
use smsg.Examples.Chats.{chat, typed}

abbrev hearing : Server
hearing = record server {
  clients =
      record { fd = some 5; address = local_address; buf = said (literal "hi") ++ [] }
      ∷ replicate 110 unused_client;
}

said-IsSized : IsSized (command (code c_say) (some (literal "hi") ∷ []))
unfolding encode encode_args code
said-IsSized = record { op_word = omega arith; args_word = omega arith; size_int = omega arith }

relayed-IsSized :
    IsSized (command (code c_say) (some (literal "@al") ∷ some (literal "hi" ++ (0 ∷ [])) ∷ []))
unfolding encode encode_args code
relayed-IsSized = record { op_word = omega arith; args_word = omega arith; size_int = omega arith }

hi_word : is_in lcc_token_delim 104 ≡ false
unfolding is_in
hi_word = refl

al_there : is_chatting hearing (some 5) ≡ true
unfolding udata_get_by_fd first
al_there = refl

al_named : lcs_compose_name host hearing 0 ≡ ok (literal "@al")
unfolding lcs_compose_name display_name udata_get_by_fd first
al_named = refl

run_line-on_command_example :
    (run_line machine (literal "0.9") true (literal "hi") typed
      ≡ ok (record typed {
        sbuf = said (literal "hi");
        sendit = true;
        chat = record chat { sent = said (literal "hi") ∷ [] };
      }))
    × ((s' : Server) × (fds : List ℕ) × (ls_handle_netcmd host
            (literal "0.9")
            (literal "unix")
            hearing
            0
          ≡ ok (s', normal))
        × (s'.sent ≡ map (λ fd. (fd, relayed (literal "@al") (literal "hi"))) fds)
        × ((i fd : ℕ) (x : Client)
            → get_elem? hearing.clients i ≡ some x
            → x.fd ≡ some fd
            → is_chatting hearing (some fd) ≡ true
            → (k : ℕ) × (get_elem? fds k ≡ some fd)))
    × (on_command machine (relayed (literal "@al") (literal "hi") ++ []) [] chat
        ≡ ok ([], heard (literal "@al") (literal "hi") chat))
run_line-on_command_example =
    run_line-on_command machine machine host (literal "0.9") (literal "unix") true 104 (literal "i")
      (literal "@al") typed hearing 0 5 local_address [] [] [] chat memory-IsPlentiful
      memory-IsPlentiful memory-IsPlentiful (λ sbuf. refl) refl hi_word refl refl said-IsSized
      relayed-IsSized refl al_there al_named refl refl
