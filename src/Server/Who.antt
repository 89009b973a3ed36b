-- ===== src/Server/Who.antt =====
-- servchat.c, handle_chatcmd(), `case C_WHO`: who is in the chat, and who is logged in.
use smsg.Base.{
  ℕ, List, [], ◌∷◌, ◌++◌, false, ◌||◌, ◌==◌, ltb, leb, if◌then◌else◌, Option, none, some,
}
use smsg.Base.Outcome.{Outcome, ok, failed, fault, ◌>>=◌}
use smsg.Base.Text.{Text, literal}
use smsg.Ncmd.{ncmd_getnumargs}
use smsg.Ncmd.Opcode.{code, c_who}
use smsg.Udata.{UdataEnt, udata_get_by_fd}
use smsg.Host.{Host, UserlistEnt, get_userlist}
use smsg.Server.Userinfo.{display_name}
use smsg.Server.{
  Server, Client, Reply, normal, client_at, lcs_send_ncmd, compose, add_args, fetch, deref,
}

-- The kind of listing that the first argument asks for: `*targ0 < 3` holds of negative bytes too.
abbrev pub info_of : ℕ → ℕ
info_of b = if ltb b 3 || leb 128 b then b else 0

unfoldable pub infotype : List ℕ → Outcome ℕ
infotype [] = fault
infotype (b ∷ bs) = ok (info_of b)

abbrev pub asked_type : Option (List ℕ) → Outcome ℕ
asked_type none = ok 0
asked_type (some b) = infotype b

-- `ncmd_add(&sbuf, &sbuf_len, targ0, 1)`
abbrev pub first_byte : Option (List ℕ) → Option (List ℕ)
first_byte none = none
first_byte (some []) = some []
first_byte (some (b ∷ bs)) = some (b ∷ [])

-- The two arguments for one chatting user.
unfoldable pub chat_entry : Host → ℕ → ℕ → UdataEnt → Outcome (List (Option (List ℕ)))
chat_entry h kind address tud = do
  nick ← deref tud.nick
  user ← deref tud.user
  let name = display_name tud nick
  ok (
      some (if kind == 2 then literal "[c]" ++ name else name)
      ∷ some (user ++ (literal "@" ++ h.ntoa address))
      ∷ [])

-- The loop over clients[]; descriptor 0 is passed over.
unfoldable pub chat_entries : Host → Server → ℕ → List Client → Outcome (List (Option (List ℕ)))
unfolding chat_entry
chat_entries h s kind [] = ok []
chat_entries h s kind (c ∷ cs) =
    let rest = chat_entries h s kind cs in
    elim c.fd [
      | none ↦ rest
      | some fd ↦
          if ltb 0 fd
          then (elim (udata_get_by_fd s.udata (some fd)) [
            | none ↦ rest
            | some tud ↦ chat_entry h kind c.address tud >>= λ e. rest >>= λ r. ok (e ++ r)
          ])
          else rest
    ]

-- "*n" behind the name of a user with several logins.
abbrev pub login_count : Host → ℕ → Text
login_count h n =
    if ltb 1 n then (if ltb n 1000 then literal "*" ++ h.decimal n else literal "*wow") else []

-- The loop over the list of logged in users, up to the entry with count 0.
unfoldable pub sys_entries : Host → ℕ → List UserlistEnt → List (Option (List ℕ))
sys_entries h kind [] = []
sys_entries h kind (e ∷ l) =
    let rest = sys_entries h kind l in
    if e.count == 0
    then []
    else some ((if kind == 2 then literal "[s]" else []) ++ (e.name ++ login_count h e.count))
      ∷ some (e.tty ++ h.time_text e.login)
      ∷ rest

-- A list that could not be had is left out.
abbrev pub sys_part : Host → ℕ → Outcome (List UserlistEnt) → List (Option (List ℕ))
sys_part h kind (ok l) = sys_entries h kind l
sys_part h kind failed = []
sys_part h kind fault = []

unfoldable pub chat_who : Host → Server → ℕ → Outcome (Server × Reply)
unfolding infotype chat_entries sys_entries
chat_who h s cl = do
  c ← client_at s cl
  sbuf ← compose h.memory [] (code c_who) []
  numargs ← ncmd_getnumargs c.buf
  let asks = ltb 0 numargs
  targ0 ← if asks then fetch h.memory c.buf none 0 false else ok none
  kind ← asked_type targ0
  sbuf ← if asks then add_args h.memory sbuf (first_byte targ0 ∷ []) else ok sbuf
  chatting ← if kind == 0 || kind == 2 then chat_entries h s kind s.clients else ok []
  sbuf ← add_args h.memory sbuf chatting
  sbuf ←
      add_args h.memory sbuf
        (if kind == 1 || kind == 2 then sys_part h kind (get_userlist h none) else [])
  ok ((lcs_send_ncmd h s sbuf c.fd).0, normal)
