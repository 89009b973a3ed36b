-- ===== src/Server/Door.antt =====
-- server.c, ls_handle_netcmd(): joining and leaving the chat, `case CHATDOOR`.
use smsg.Base.{
  on_option, ℕ, List, [], ◌∷◌, length, Bool, true, not, ◌&&◌, ◌||◌, ◌==◌, ltb, if◌then◌else◌,
  Option, none, some,
}
use smsg.Base.Outcome.{Outcome, ok, ◌>>=◌}
use smsg.Base.Text.{Text, literal}
use smsg.Ncmd.{ncmd_getnumargs}
use smsg.Ncmd.Opcode.{code, ack, c_door}
use smsg.Udata.{
  UdataEnt, Flags, no_flags, udata_get, udata_get_by_nick, udata_add, udata_update, udata_flagset,
  udata_flagunset, udata_def_entry, is_some,
}
use smsg.Host.{Host}
use smsg.Server.Message.{refuse}
use smsg.Server.Moderation.{throw_out}
use smsg.Server.{
  Server, Client, Reply, normal, client_at, with_udata, sendbuf, recipients, send_all, compose,
  fetch, deref, text_of,
}

abbrev pub error_internal : Text
error_internal = literal "internal error"

abbrev pub error_chat_banned : Text
error_chat_banned = literal "you're banned, get lost"

abbrev pub error_chat_notpresent : Text
error_chat_notpresent =
    literal "you're not present in chat so you can't leave either...(now that's logic :)"

abbrev pub error_chat_ispresent : Text
error_chat_ispresent = literal "you're already present in chat"

abbrev pub error_chat_nickinuse : Text
error_chat_nickinuse = literal "nickname is already in use"

abbrev pub all_flags : Flags
all_flags = record { operator = true; away = true; present = true; banned = true; superuser = true }

abbrev pub flag_present : Flags
flag_present = record no_flags { present = true }

-- The loop that tells the other chatters; descriptor 0 is passed over.
unfoldable pub tell_others : Host → Server → List ℕ → ℕ → Server
unfolding recipients send_all
tell_others h s sbuf cl =
    (send_all h s sbuf (recipients (λ i fd. ltb 0 fd && not (i == cl)) s 0 s.clients)).0

-- What a user who leaves announces: the reason if there is one.
abbrev pub goodbye : UdataEnt → Option (List ℕ) → List (Option (List ℕ))
goodbye tuent none = some (0 ∷ []) ∷ tuent.nick ∷ []
goodbye tuent (some reason) = some (0 ∷ []) ∷ tuent.nick ∷ some reason ∷ []

-- The branch for a user who wants to leave.
unfoldable pub leave :
    Host → Server → ℕ → Client → Text → UdataEnt → ℕ → Option (List ℕ) → Outcome (Server × Reply)
unfolding tell_others throw_out sendbuf refuse
leave h s cl c user tuent numargs targ1 =
    if not tuent.flags.present then refuse h s c error_chat_notpresent else (do
      reason ← if numargs == 3 then fetch h.memory c.buf targ1 2 true else ok targ1
      sbuf ← compose h.memory [] (code c_door) (goodbye tuent reason)
      let s' = tell_others h s sbuf cl
      sbuf ← compose h.memory sbuf (code ack) []
      ok ((sendbuf h (with_udata s' (throw_out h s'.udata user)) c.fd sbuf).0, normal))

-- The table once the user is in.
unfoldable pub entered : Host → List UdataEnt → Text → Option Text → Option ℕ → List UdataEnt
entered h l user nick fd =
    let nue = record udata_def_entry { user = some user; nick = nick; fd = fd } in
    (udata_flagset (udata_flagunset (udata_update h.memory l nue).0 user all_flags).0 user
      flag_present).0

-- The branch for a user who wants to join under the nick `targ1`.
unfoldable pub join :
    Host → Server → ℕ → Client → Text → UdataEnt → Option Text → Outcome (Server × Reply)
unfolding tell_others entered sendbuf refuse
join h s cl c user tuent nick =
    if tuent.flags.banned
    then refuse h s c error_chat_banned
    else if tuent.flags.present
    then refuse h s c error_chat_ispresent
    else if is_some (udata_get_by_nick s.udata nick)
    then refuse h s c error_chat_nickinuse
    else (do
      let s' = with_udata s (entered h s.udata user nick c.fd)
      now ← deref (udata_get s'.udata (some user))
      sbuf ← compose h.memory [] (code c_door) (some (1 ∷ []) ∷ now.nick ∷ [])
      let s'' = tell_others h s' sbuf cl
      sbuf ← compose h.memory sbuf (code ack) []
      ok ((sendbuf h s'' c.fd sbuf).0, normal))

-- Leaving is asked for by an alias that is left out or empty: `targ1_len == 1` counts the NUL.
abbrev pub is_leaving : ℕ → Option (List ℕ) → Bool
is_leaving numargs none = numargs == 1
is_leaving numargs (some alias) = numargs == 1 || (ltb 1 numargs && length alias == 1)

-- The table with an entry for the user, made if there was none.
unfoldable pub with_entry : Host → List UdataEnt → Option Text → List UdataEnt
unfolding udata_get udata_add
with_entry h l user =
    if is_some (udata_get l user)
    then l
    else (udata_add h.memory l (record udata_def_entry { user = user })).0

-- `case CHATDOOR`
unfoldable pub handle_chatdoor : Host → Server → ℕ → Outcome (Server × Reply)
unfolding leave join with_entry
handle_chatdoor h s cl = do
  c ← client_at s cl
  targ0 ← fetch h.memory c.buf none 0 true
  let s' = with_udata s (with_entry h s.udata (text_of targ0))
  numargs ← ncmd_getnumargs c.buf
  targ1 ← if ltb 1 numargs then fetch h.memory c.buf none 1 true else ok none
  on_option (udata_get s'.udata (text_of targ0)) (refuse h s' c error_internal) λ tuent.
      deref (text_of targ0) >>= λ user.
      if is_leaving numargs targ1
      then leave h s' cl c user tuent numargs targ1
      else join h s' cl c user tuent (text_of targ1)
