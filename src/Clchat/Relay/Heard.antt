-- ===== src/Clchat/Relay/Heard.antt =====
-- From one user to all the others.
use smsg.Base.{
  ℕ, ◌≡◌, refl, List, ◌∷◌, ◌++◌, map, get_elem?, Bool, true, false, ◌==◌, if◌then◌else◌, none, some,
  [],
}
use smsg.Base.Outcome.{Outcome, ok}
use smsg.Base.Memory.{IsPlentiful}
use smsg.Base.Text.{Text, has_nul}
use smsg.Ncmd.Opcode.{code, of_code-code, c_say}
use smsg.Ncmd.Frame.{IsSized}
use smsg.Ncmd.Argument.{ncmd_get-encode}
use smsg.Calls.Encode.{command}
use smsg.Host.{Host}
use smsg.Server.{Server, Client, normal, is_chatting}
use smsg.Server.Userinfo.{lcs_compose_name}
use smsg.Server.Dispatch.{ls_handle_netcmd}
use smsg.Server.Spread.{lcs_dist_ncmd_lem}
use smsg.Client.{Machine}
use smsg.Clchat.Token.{is_in, lcc_token_delim}
use smsg.Clchat.Commands.{Typed, run_line}
use smsg.Clchat.Receive.{Chat}
use smsg.Clchat.Receive.Loop.{on_command, on_op_code, request_who}
use smsg.Clchat.Relay.{said, relayed, run_line-said, ls_handle_netcmd-said, heard, on_say-heard}

not_asked : (b : Bool) (x y : Outcome (List ℕ × Chat)) → b ≡ false → (if b then x else y) ≡ y
not_asked true x y h = cc
not_asked false x y h = refl

request_who_lem :
    (m : Machine) (sbuf : List ℕ) (s : Chat)
    → s.req_who ≡ false
    → request_who m sbuf s ≡ ok (sbuf, s)
unfolding request_who
request_who_lem m sbuf s h = not_asked s.req_who _ (ok (sbuf, s)) h

on_command-heard :
    (m : Machine) (ts t : Text) (rest sbuf : List ℕ) (s : Chat)
    → IsPlentiful m.memory
    → IsSized (command (code c_say) (some ts ∷ some (t ++ (0 ∷ [])) ∷ []))
    → has_nul ts ≡ false
    → has_nul t ≡ false
    → s.req_who ≡ false
    → on_command m (relayed ts t ++ rest) sbuf s ≡ ok (sbuf, heard ts t s)
unfolding on_command on_op_code
on_command-heard m ts t rest sbuf s p sized plain plain' idle =
    let c = command (code c_say) (some ts ∷ some (t ++ (0 ∷ [])) ∷ []) in
    rw
      (
        ncmd_get-encode c rest sized,
        of_code-code c_say,
        on_say-heard m ts t rest s p sized plain plain',
      )
      (request_who_lem m sbuf (heard ts t s) idle)

-- With memory plentiful and a connection that takes all that is sent, a line without a NUL that
-- begins with neither '/' nor a delimiter makes the speaker's client send just one C_SAY with that
-- line. With this command, if it fits the format, at the head of the buffer of a connection whose
-- user is present and is called by a name without a NUL, and while texts are not translated, the
-- server sends one command to a list of descriptors on which each connection of a present user is.
-- On that command, if it fits the format, a chat client that is not about to ask for the users
-- shows "[name] line" and changes nothing else but the pointers to the arguments.
pub run_line-on_command :
    (m m' : Machine) (h : Host) (version os : Text) (opens : Bool) (c : ℕ) (t ts : Text)
    (typed : Typed) (s : Server) (cl fd address : ℕ) (rest rest' sbuf : List ℕ) (chat : Chat)
    → IsPlentiful m.memory
    → IsPlentiful h.memory
    → IsPlentiful m'.memory
    → ((sbuf : List ℕ) → m.sends sbuf ≡ true)
    → (c == 47) ≡ false
    → is_in lcc_token_delim c ≡ false
    → has_nul (c ∷ t) ≡ false
    → has_nul ts ≡ false
    → IsSized (command (code c_say) (some (c ∷ t) ∷ []))
    → IsSized (command (code c_say) (some ts ∷ some ((c ∷ t) ++ (0 ∷ [])) ∷ []))
    → s.beleet ≡ false
    → is_chatting s (some fd) ≡ true
    → lcs_compose_name h s cl ≡ ok ts
    → get_elem? s.clients cl
      ≡ some (record { fd = some fd; address = address; buf = said (c ∷ t) ++ rest })
    → chat.req_who ≡ false
    → (run_line m version opens (c ∷ t) typed
        ≡ ok (record typed {
          sbuf = said (c ∷ t);
          sendit = true;
          chat = record typed.chat { sent = typed.chat.sent ++ (said (c ∷ t) ∷ []) };
        }))
      × ((s' : Server) × (fds : List ℕ) × (ls_handle_netcmd h version os s cl ≡ ok (s', normal))
          × (s'.sent ≡ s.sent ++ map (λ fd. (fd, relayed ts (c ∷ t))) fds)
          × ((i fd : ℕ) (x : Client)
              → get_elem? s.clients i ≡ some x
              → x.fd ≡ some fd
              → is_chatting s (some fd) ≡ true
              → (k : ℕ) × (get_elem? fds k ≡ some fd)))
      × (on_command m' (relayed ts (c ∷ t) ++ rest') sbuf chat ≡ ok (sbuf, heard ts (c ∷ t) chat))
run_line-on_command m m' h version os opens c t ts typed s cl fd address rest rest' sbuf chat p p'
      p'' all_sent slash word plain plain' sized sized' leet there name at_cl idle =
    let (fds, sent, all, only) = lcs_dist_ncmd_lem h s (relayed ts (c ∷ t)) none in
    (
      run_line-said m version opens c t typed p all_sent slash word,
      (
        _,
        fds,
        ls_handle_netcmd-said h version os s cl fd address (c ∷ t) ts rest p' sized leet there name
            at_cl,
        sent,
        all,
      ),
      on_command-heard m' ts (c ∷ t) rest' sbuf chat p'' sized' plain' plain idle,
    )
