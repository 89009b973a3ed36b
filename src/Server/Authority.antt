-- ===== src/Server/Authority.antt =====
-- servchat.c: who may moderate whom, from the bytes that arrive to the bytes that are sent.
use smsg.Base.{
  ℕ, suc, ◌≡◌, refl, List, [], ◌∷◌, ◌++◌, append-nil, length, get_elem?, Bool, true, false, ltb,
  ◌&&◌, if◌then◌else◌, Option, none, some, arith, Option-cases, inl, inr, Bool-cases, ap, ◌∙◌,
}
use smsg.Base.Outcome.{Outcome, ok, ◌>>=◌}
use smsg.Base.Memory.{IsPlentiful}
use smsg.Base.Text.{Text, c_string}
use smsg.Ncmd.Opcode.{NcmdOp, code, of_code-code, c_ban, c_deop, c_kick, c_op, c_unban}
use smsg.Ncmd.{ncmd_getnumargs}
use smsg.Ncmd.Frame.{Command, encode, IsSized}
use smsg.Ncmd.Argument.{ncmd_get-encode, ncmd_getnumargs-encode}
use smsg.Calls.Encode.{command, compose-encode, fetch-encode}
use smsg.Udata.{UdataEnt, is_some, udata_get_by_nick, udata_get_by_fd}
use smsg.Host.{Host}
use smsg.Server.{Server, Client, Reply, normal, is_chatting, compose, sendbuf, lcs_send_ncmd}
use smsg.Server.Moderation.{chat_moderate, by_operator}
use smsg.Server.Dispatch.{ls_handle_netcmd, handle_op, if_present, handle_chatcmd}

-- The commands that only operators may give.
pub data Moderates : NcmdOp → Type 0 where
  bans : Moderates c_ban
  deops : Moderates c_deop
  kicks : Moderates c_kick
  ops : Moderates c_op
  unbans : Moderates c_unban

abbrev pub is_operator : Option UdataEnt → Bool
is_operator none = false
is_operator (some e) = e.flags.operator

-- The nick that an argument gives: it ends at the first NUL.
abbrev pub nick_of : List ℕ → Text
nick_of arg = c_string (arg ++ (0 ∷ []))

-- Is the sender an operator, and does the first argument name a present user?
abbrev pub may_moderate : Server → Option UdataEnt → List (List ℕ) → Bool
may_moderate s sender [] = false
may_moderate s sender (arg ∷ args) =
    is_operator sender && is_some (udata_get_by_nick s.udata (some (nick_of arg)))

-- What the answer repeats: to an operator the nick, to everyone else nothing.
abbrev pub denial_args : Option UdataEnt → List (List ℕ) → List (Option (List ℕ))
denial_args sender [] = []
denial_args sender (arg ∷ args) = if is_operator sender then some (nick_of arg) ∷ [] else []

-- The answer goes to the sender alone, and only to one who is in the chat.
abbrev pub denial : Server → ℕ → NcmdOp → List (List ℕ) → List (ℕ × List ℕ)
denial s fd op args =
    if is_chatting s (some fd)
    then (fd, encode (command (code op) (denial_args (udata_get_by_fd s.udata (some fd)) args)))
      ∷ []
    else []

-- The server as it was, but for what has been sent, and nobody to be thrown out.
abbrev pub answered : Server → List (ℕ × List ℕ) → Outcome (Server × Reply)
answered s messages = ok (record s { sent = s.sent ++ messages }, normal)

abbrev send_composed :
    Host → Server → NcmdOp → ℕ → List (Option (List ℕ)) → Outcome (Server × Reply)
send_composed h s op fd args =
    compose h.memory [] (code op) args >>= λ sbuf. ok ((lcs_send_ncmd h s sbuf (some fd)).0, normal)

send_composed_lem :
    (h : Host) (s : Server) (op : NcmdOp) (fd : ℕ) (args : List (Option (List ℕ)))
    → IsPlentiful h.memory
    → send_composed h s op fd args ≡ answered s ((fd, encode (command (code op) args)) ∷ [])
unfolding lcs_send_ncmd sendbuf
send_composed_lem h s op fd args p = rw (compose-encode h.memory [] (code op) args p) refl

by_operator_absent :
    (h : Host) (s : Server) (op : NcmdOp) (fd : ℕ) (c : Command) (rest : List ℕ) (sender : UdataEnt)
    (nick : Text) (arg : List ℕ)
    → IsPlentiful h.memory
    → IsSized c
    → get_elem? c.args 0 ≡ some arg
    → sender.nick ≡ some nick
    → udata_get_by_nick s.udata (some (nick_of arg)) ≡ none
    → by_operator h s op (encode c ++ rest) (some fd) sender
      ≡ answered s ((fd, encode (command (code op) (some (nick_of arg) ∷ []))) ∷ [])
unfolding by_operator
by_operator_absent h s op fd c rest sender nick arg p sized found named absent =
    rw (named, fetch-encode h.memory c rest 0 true none arg p sized found, absent)
      (send_composed_lem h s op fd (some (nick_of arg) ∷ []) p)

handle_op-if_present :
    (h : Host) (version os : Text) (s : Server) (cl : ℕ) (op : NcmdOp) (c : Client)
    → Moderates op
    → get_elem? s.clients cl ≡ some c
    → handle_op h version os s cl op
      ≡ (if is_chatting s c.fd then chat_moderate h s cl op else ok (s, normal))
unfolding handle_op if_present handle_chatcmd
handle_op-if_present h version os s cl op c bans at_cl = rw at_cl refl
handle_op-if_present h version os s cl op c deops at_cl = rw at_cl refl
handle_op-if_present h version os s cl op c kicks at_cl = rw at_cl refl
handle_op-if_present h version os s cl op c ops at_cl = rw at_cl refl
handle_op-if_present h version os s cl op c unbans at_cl = rw at_cl refl

absent→none : (o : Option UdataEnt) → is_some o ≡ false → o ≡ none
absent→none none h = refl
absent→none (some e) h = cc

chat_moderate_denied :
    (h : Host) (s : Server) (cl : ℕ) (op : NcmdOp) (fd address : ℕ) (sender : UdataEnt)
    (nick : Text) (c : Command) (args : List (List ℕ)) (rest : List ℕ)
    → IsPlentiful h.memory
    → IsSized c
    → c.args ≡ args
    → get_elem? s.clients cl
      ≡ some (record { fd = some fd; address = address; buf = encode c ++ rest })
    → udata_get_by_fd s.udata (some fd) ≡ some sender
    → sender.nick ≡ some nick
    → may_moderate s (some sender) args ≡ false
    → chat_moderate h s cl op
      ≡ answered s ((fd, encode (command (code op) (denial_args (some sender) args))) ∷ [])
unfolding chat_moderate
chat_moderate_denied h s cl op fd address sender nick c [] rest p sized has at_cl found named
      denied =
    rw (at_cl, ncmd_getnumargs-encode c rest sized, has) (send_composed_lem h s op fd [] p)
chat_moderate_denied h s cl op fd address sender nick c (arg ∷ args) rest p sized has at_cl found
      named denied =
    let counted : ncmd_getnumargs (encode c ++ rest) ≡ ok (suc (length args)) =
      ncmd_getnumargs-encode c rest sized ∙ ap (λ (l : List (List ℕ)). ok (length l)) has in
    let some_args : ltb 0 (suc (length args)) ≡ true = ground arith in
    let first_arg : get_elem? c.args 0 ≡ some arg = rw has refl in
    elim (Bool-cases sender.flags.operator) [
      | inl granted ↦
          let absent = absent→none _ (rw granted at denied) in
          rw (at_cl, counted, some_args, found, granted)
            (by_operator_absent h s op fd c rest sender nick arg p sized first_arg named absent)
      | inr withheld ↦
          rw (at_cl, counted, some_args, found, withheld) (send_composed_lem h s op fd [] p)
    ]

by_present :
    (h : Host) (version os : Text) (s : Server) (cl : ℕ) (op : NcmdOp) (fd address : ℕ)
    (c : Command) (rest : List ℕ)
    → Moderates op
    → IsSized c
    → c.op ≡ code op
    → get_elem? s.clients cl
      ≡ some (record { fd = some fd; address = address; buf = encode c ++ rest })
    → ls_handle_netcmd h version os s cl
      ≡ (if is_chatting s (some fd) then chat_moderate h s cl op else ok (s, normal))
unfolding ls_handle_netcmd
by_present h version os s cl op fd address c rest m sized is_op at_cl =
    rw (at_cl, ncmd_get-encode c rest sized, is_op, of_code-code op)
      (handle_op-if_present h version os s cl op _ m at_cl)

-- With memory plentiful, let a command to ban, deop, kick, op or unban that fits the format stand
-- at the head of a connection's buffer, where a user who is present on the connection has a nick.
-- If it has no argument, or the sender is not a present operator, or its first argument up to a NUL
-- is not the nick of a present user, then ls_handle_netcmd() changes nothing but what has been
-- sent: a sender in the chat, and no one else, is sent one command with the same code, which
-- repeats that argument, if there is one, to an operator and has none for others; a sender who is
-- not in the chat is sent nothing. Nobody is to be thrown out.
pub ls_handle_netcmd_denied :
    (h : Host) (version os : Text) (s : Server) (cl : ℕ) (op : NcmdOp) (fd address : ℕ)
    (c : Command) (rest : List ℕ)
    → IsPlentiful h.memory
    → Moderates op
    → IsSized c
    → c.op ≡ code op
    → get_elem? s.clients cl
      ≡ some (record { fd = some fd; address = address; buf = encode c ++ rest })
    → ((e : UdataEnt)
        → udata_get_by_fd s.udata (some fd) ≡ some e
        → (nick : Text) × (e.nick ≡ some nick))
    → may_moderate s (udata_get_by_fd s.udata (some fd)) c.args ≡ false
    → ls_handle_netcmd h version os s cl ≡ answered s (denial s fd op c.args)
ls_handle_netcmd_denied h version os s cl op fd address c rest p m sized is_op at_cl nicks denied =
    by_present h version os s cl op fd address c rest m sized is_op at_cl
    ∙ elim (Option-cases (udata_get_by_fd s.udata (some fd))) [
      | inl nobody ↦ rw (nobody, append-nil s.sent) refl
      | inr (sender, found) ↦
          let (nick, named) = nicks sender found in
          rw found (
            chat_moderate_denied h s cl op fd address sender nick c c.args rest p sized refl at_cl
              found named (rw found at denied))
    ]
