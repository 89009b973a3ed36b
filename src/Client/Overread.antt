-- ===== src/Client/Overread.antt =====
-- client.c, getlist(): what becomes of a server's list of users.
use smsg.Base.{
  ℕ, ◌+◌, ◌-◌, ◌/◌, ◌≡◌, refl, ap, ◌∙◌, List, [], ◌∷◌, ◌++◌, true, false, Option, none, some,
  length, suc, arith, map, ◌==◌, append-nil, subst, if◌then◌else◌,
}
use smsg.Base.Outcome.{ok, fault, ◌>>=◌}
use smsg.Base.Memory.{IsPlentiful}
use smsg.Base.Text.{Text, literal, has_nul}
use smsg.Ncmd.Opcode.{code, list, getlist}
use smsg.Ncmd.Frame.{Command, encode, IsSized}
use smsg.Ncmd.Argument.{ncmd_getnumargs-encode}
use smsg.Calls.Encode.{fetch-encode, compose-encode, command, data_of}
use smsg.Host.{Host, UserlistEnt, iswritabletty}
use smsg.Server.{Server, Client, normal}
use smsg.Server.Message.{answer_list, list_entries}
use smsg.Server.Prefs.{byte_of}
use smsg.Server.Settings.{answer_lem, with_sent}
use smsg.Client.{Machine, Session, silent, string_of}
use smsg.Client.Query.{getlist_session, list_reply, say_list, say_users, got_bytes}
use smsg.Client.Exchange.{Reaches, connect_lem, transmit_lem, reply_taken, string_of-sent}

-- The reply to GETLIST, in which a user is listed.
abbrev pub listing : Text → Text → Text → ℕ → List (Option (List ℕ)) → Command
listing version os user state more =
    command (code list) (some version ∷ some os ∷ some user ∷ some (state ∷ []) ∷ more)

-- A block without a NUL is no string.
unterminated : (a : List ℕ) → has_nul a ≡ false → string_of (some (a ++ [])) ≡ fault
unfolding string_of
unterminated a h = rw (append-nil a, h) refl

say_users_lem :
    (m : Machine) (s : Session) (rest : List ℕ) (targ0 targ1 : Option (List ℕ))
    (version os user : Text) (state rounds : ℕ) (more : List (Option (List ℕ)))
    → IsPlentiful m.memory
    → IsSized (listing version os user state more)
    → has_nul user ≡ false
    → say_users m s (encode (listing version os user state more) ++ rest) targ0 targ1 (suc rounds) 2
      ≡ fault
unfolding say_users byte_of
say_users_lem m s rest targ0 targ1 version os user state rounds more p h n =
    let c = listing version os user state more in
    rw
      (
        fetch-encode m.memory c rest 2 false targ0 user p h refl,
        fetch-encode m.memory c rest 3 false targ1 (state ∷ []) p h refl,
        unterminated user n,
      )
      refl

say_list_lem :
    (m : Machine) (s : Session) (address : ℕ) (rest : List ℕ) (version os user : Text) (state : ℕ)
    (more : List (Option (List ℕ)))
    → IsPlentiful m.memory
    → IsSized (listing version os user state more)
    → has_nul version ≡ false
    → has_nul os ≡ false
    → has_nul user ≡ false
    → say_list m s address (encode (listing version os user state more) ++ rest) ≡ fault
unfolding say_list
say_list_lem m s address rest version os user state more p h nv no_nul n =
    let c = listing version os user state more in
    let count = suc (suc (suc (suc (length (map data_of more))))) in
    let several : (count == 2) ≡ false = ground arith in
    let round : (count - 1) / 2 ≡ suc ((length (map data_of more) + 1) / 2) = omega arith in
    rw
      (
        fetch-encode m.memory c rest 0 true none version p h refl,
        fetch-encode m.memory c rest 1 true none os p h refl,
        string_of-sent version nv,
        string_of-sent os no_nul,
        ncmd_getnumargs-encode c rest h,
        several,
        round,
      )
      (say_users_lem m _ rest (some (version ++ (0 ∷ []))) (some (os ++ (0 ∷ []))) version os user
        state ((length (map data_of more) + 1) / 2) more p h n)

list_entries_lem :
    (h : Host) (e : UserlistEnt) (l : List UserlistEnt)
    → (e.count == 0) ≡ false
    → list_entries h (e ∷ l)
      ≡ some e.name ∷ some ((if iswritabletty h e.tty then 1 else 0) ∷ []) ∷ list_entries h l
unfolding list_entries
list_entries_lem h e l there = rw there refl

getlist_session_lem :
    (m : Machine) (targethost login : Text) (port address : ℕ) (rest : List ℕ)
    (version os user : Text) (state : ℕ) (more : List (Option (List ℕ)))
    → IsPlentiful m.memory
    → Reaches m targethost port address login
    → IsSized (listing version os user state more)
    → has_nul version ≡ false
    → has_nul os ≡ false
    → has_nul user ≡ false
    → getlist_session m targethost port (some (encode (listing version os user state more) ++ rest))
      ≡ fault
unfolding getlist_session list_reply code
getlist_session_lem m targethost login port address rest version os user state more p r h nv no_nul
      n =
    let c = listing version os user state more in
    let s' : Session = record silent { sent = encode (command (code getlist) []) ∷ [] } in
    rw
      (
        connect_lem m silent targethost login port address r,
        compose-encode m.memory [] (code getlist) [] p,
        transmit_lem m silent targethost login (literal "list request") port address
            (encode (command (code getlist) [])) r,
      )
      (ap (λ o. o >>= λ t. ok (t, true))
        (reply_taken m s' (got_bytes m s') c rest (list_reply m s' address) p h
          ∙ say_list_lem m s' address rest version os user state more p h nv no_nul n))

-- On the server's answer to GETLIST that lists at least one user with a login, if it fits the
-- format and version, system and the first name have no NUL, getlist() reads outside of the memory
-- it has.
pub getlist_overread :
    (m : Machine) (h : Host) (s : Server) (c : Client) (e : UserlistEnt) (l : List UserlistEnt)
    (targethost login : Text) (fd port address : ℕ) (rest : List ℕ) (version os : Text)
    → IsPlentiful m.memory
    → IsPlentiful h.memory
    → Reaches m targethost port address login
    → c.fd ≡ some fd
    → (e.count == 0) ≡ false
    → IsSized (command (code list) (some version ∷ some os ∷ list_entries h (e ∷ l)))
    → has_nul version ≡ false
    → has_nul os ≡ false
    → has_nul e.name ≡ false
    → (answer_list h version os s c (ok (e ∷ l))
        ≡ ok (
          with_sent s fd (command (code list) (some version ∷ some os ∷ list_entries h (e ∷ l))),
          normal,
        ))
      × (getlist_session m targethost port (
            some (
              encode (command (code list) (some version ∷ some os ∷ list_entries h (e ∷ l)))
              ++ rest))
          ≡ fault)
unfolding answer_list
getlist_overread m h s c e l targethost login fd port address rest version os p p' r open_fd there
      sized nv no_nul n =
    (
      answer_lem h s c fd (code list) (some version ∷ some os ∷ list_entries h (e ∷ l)) p' open_fd,
      (let entries = list_entries_lem h e l there in
          rw entries (
            getlist_session_lem m targethost login port address rest version os e.name
              (if iswritabletty h e.tty then 1 else 0) (list_entries h l) p r
              (subst (λ t. IsSized (command (code list) (some version ∷ some os ∷ t))) entries
                sized)
              nv no_nul n)),
    )
