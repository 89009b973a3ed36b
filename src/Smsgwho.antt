-- ===== src/Smsgwho.antt =====
-- smsgwho.c: the program that asks a server who is in the chat.
pub mod Pieces
use smsg.Base.{
  ℕ, zero, suc, ◌+◌, ◌-◌, ◌/◌, ◌%◌, List, [], ◌∷◌, ◌++◌, length, drop, Bool, true, false, ◌==◌, leb,
  ltb, if◌then◌else◌, Option, none, some, on_option,
}
use smsg.Base.Outcome.{Outcome, ok, failed, fault, ◌>>=◌}
use smsg.Base.Text.{Text, literal}
use smsg.Ncmd.{ncmd_iscomplete, ncmd_getnumargs}
use smsg.Ncmd.Opcode.{code, c_who}
use smsg.Calls.{compose, fetch}
use smsg.Server.Dispatch.{magic_who_arg}
use smsg.Client.{Machine, string_of, Got, recv_failed, peer_gone, got, receive}

-- What the arguments settle; the host is `none` if it could not be copied.
pub record Options : Type 0 where
  pub host : Option Text
  pub port : ℕ
  pub ofs : ℕ
  pub ors : ℕ
  pub count_only : Bool

abbrev pub copied_text : Machine → Text → Option Text
copied_text m s = if m.memory.copies s then some s else none

-- `host = strdup(DFL_HOST)`, `ofs = DFL_OFS`, `ors = DFL_ORS`
abbrev pub default_options : Machine → ℕ → Options
default_options m port_default = record {
  host = copied_text m (literal "localhost");
  port = port_default;
  ofs = 32;
  ors = 10;
  count_only = false;
}

-- `strstr(s, "-f") == s`, for the letter after the dash.
abbrev pub begins_with : ℕ → Text → Bool
begins_with letter [] = false
begins_with letter (a ∷ []) = false
begins_with letter (a ∷ b ∷ s) = if a == 45 then b == letter else false

-- `if(strlen(s) >= 3)`, the third character.
abbrev pub third_or : ℕ → Text → ℕ
third_or old s = elim (drop 2 s) [ [] ↦ old | c ∷ t ↦ c ]

-- rindex(): the parts before and behind the last colon.
unfoldable pub split_colon : Text → Option (Text × Text)
split_colon [] = none
split_colon (c ∷ t) =
    on_option (split_colon t) (if c == 58 then some ([], t) else none)
      λ parts. some (c ∷ parts.0, parts.1)

unfoldable pub set_host : Machine → Text → Options → Options
set_host m [] o = o
set_host m (c ∷ t) o = record o { host = copied_text m (c ∷ t) }

-- An argument that is no option: host and port.
unfoldable pub host_and_port : Machine → Text → Options → Options
host_and_port m arg o = on_option (split_colon arg) (set_host m arg o) λ parts.
    let n = m.atoi parts.1 in set_host m parts.0 (if ltb 0 n then record o { port = n } else o)

unfoldable pub read_argument : Machine → Text → Options → Options
read_argument m arg o =
    if begins_with 102 arg
    then record o { ofs = third_or o.ofs arg }
    else if begins_with 114 arg
    then record o { ors = third_or o.ors arg }
    else if begins_with 99 arg
    then record o { count_only = true }
    else host_and_port m arg o

unfoldable pub read_arguments : Machine → List Text → Options → Options
read_arguments m [] o = o
read_arguments m (arg ∷ args) o = read_arguments m args (read_argument m arg o)

-- What the program leaves: what it sent, its output, its error messages, its exit status.
pub record Left : Type 0 where
  pub sent : List (List ℕ)
  pub output : Text
  pub errors : Text
  pub status : ℕ

abbrev pub stopped : List (List ℕ) → Text → ℕ → Left
stopped sent errors status = record { sent = sent; output = []; errors = errors; status = status }

-- connect_to_server(): an error message, or nothing; the port is a `short int`.
unfoldable pub connect_error : Machine → Text → ℕ → Option Text
connect_error m host port =
    on_option (m.resolves host)
      (some (
        literal "unable to resolve host `"
        ++ (host ++ (literal "' (" ++ (m.strerror ++ literal ")\n")))))
      λ address.
        if m.socket
        then (if m.connects address (port % 65536)
            then none
            else some (
                literal "error connecting to "
                ++ (m.ntoa address
                    ++ (literal ":"
                        ++ (m.decimal (port % 65536)
                            ++ (literal " (" ++ (m.strerror ++ literal ")\n")))))))
        else some (literal "error opening client socket (" ++ (m.strerror ++ literal ")\n"))

-- The `switch` on a result of recvbuf().
abbrev pub on_got : {A : Type 0} → Got → A → A → (List ℕ → A) → A
on_got recv_failed x y f = x
on_got peer_gone x y f = y
on_got (got t) x y f = f t

-- `while(!ncmd_iscomplete(rbuf, rbuf_len))`, with the results of recv() that there are: the reply, or
-- the message of an exit. `failed` is a program that still waits.
unfoldable pub receive_reply :
    Machine → List ℕ → List (Option (List ℕ)) → Outcome (Option (List ℕ) × Text)
receive_reply m rbuf [] =
    ncmd_iscomplete rbuf >>= λ size. if size == 0 then failed else ok (some rbuf, [])
receive_reply m rbuf (r ∷ results) =
    let later = (λ (t : List ℕ). receive_reply m t results) in
    ncmd_iscomplete rbuf >>= λ size.
    if size == 0
    then on_got (receive m.memory rbuf r) (ok (none, literal "error receiving data\n"))
        (ok (none, literal "connection closed by peer\n")) later
    else ok (some rbuf, [])

-- `for(ti=1; ti<...; ti+=2)`, with so many rounds to go; a record begins with its separator.
unfoldable pub who_records :
    Machine → Options → List ℕ → Option (List ℕ) → Option (List ℕ) → ℕ → ℕ → Outcome Text
who_records m o rbuf tnick tinfo zero ti = ok []
who_records m o rbuf tnick tinfo (suc rounds) ti = do
  tnick ← fetch m.memory rbuf tnick ti true
  tinfo ← fetch m.memory rbuf tinfo (ti + 1) true
  nick ← string_of tnick
  info ← string_of tinfo
  rest ← who_records m o rbuf tnick tinfo rounds (ti + 2)
  ok (o.ors ∷ (nick ++ (o.ofs ∷ (info ++ rest))))

-- Part three. From 1 in steps of two to the number of arguments there are half as many rounds.
unfoldable pub dissect : Machine → Options → List ℕ → Outcome Text
dissect m o rbuf = ncmd_getnumargs rbuf >>= λ numargs.
    if o.count_only
    then ok (m.decimal (numargs / 2) ++ literal "\n")
    else who_records m o rbuf none none (numargs / 2) 1

-- Part two, with a host that could be copied.
unfoldable pub ask : Machine → Options → Text → List (Option (List ℕ)) → Outcome Left
ask m o host results =
    on_option (connect_error m host o.port)
      (compose m.memory [] (code c_who) (some magic_who_arg ∷ []) >>= λ sbuf.
        if m.sends sbuf
        then (receive_reply m [] results >>= λ r.
            on_option r.0 (ok (stopped (sbuf ∷ []) r.1 3)) λ rbuf. dissect m o rbuf >>= λ t.
            ok (record { sent = sbuf ∷ []; output = t; errors = []; status = 0 }))
        else ok (
            stopped (sbuf ∷ []) (literal "error sending message (" ++ (m.strerror ++ literal ")\n"))
              2))
      λ message. ok (stopped [] message 1)

-- gethostbyname() follows the host's pointer.
unfoldable pub smsgwho : Machine → ℕ → List Text → List (Option (List ℕ)) → Outcome Left
smsgwho m port_default args results =
    let o = read_arguments m args (default_options m port_default) in
    on_option o.host fault λ host. ask m o host results
