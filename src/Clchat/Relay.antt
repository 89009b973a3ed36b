-- ===== src/Clchat/Relay.antt =====
-- What a user says, from the line that is typed to the lines that the others are shown: clchat.c,
-- servchat.c, and clchat.c again.
pub mod Heard
use smsg.Base.{
  ℕ, zero, suc, ◌+◌, ◌≡◌, refl, sym, ap, ◌∙◌, List, [], ◌∷◌, ◌++◌, length, map, get_elem?,
  append_assoc, append-nil, Bool, true, false, ◌&&◌, ◌==◌, if◌then◌else◌, Option, none, some, arith,
  ltb,
}
use smsg.Base.Outcome.{Outcome, ok, ◌>>=◌}
use smsg.Base.Memory.{Memory, IsPlentiful}
use smsg.Base.Text.{Text, literal, c_string, has_nul, c_string-terminated, has_nul-terminated}
use smsg.Ncmd.Opcode.{code, of_code-code, c_say}
use smsg.Ncmd.Frame.{encode, IsSized}
use smsg.Ncmd.Argument.{ncmd_get-encode}
use smsg.Calls.{compose}
use smsg.Server.Leet.{lcs_msg_translate}
use smsg.Calls.Encode.{command, compose-encode, fetch-encode}
use smsg.Host.{Host}
use smsg.Udata.{udata_get_by_fd, is_some}
use smsg.Server.{Server, Client, Reply, normal, client_at, is_chatting, lcs_dist_ncmd, not_excluded}
use smsg.Server.Userinfo.{lcs_compose_name}
use smsg.Server.Speech.{chat_say}
use smsg.Server.Dispatch.{ls_handle_netcmd, handle_op, if_present, handle_chatcmd}
use smsg.Server.Spread.{lcs_dist_ncmd_lem}
use smsg.Client.{Machine, string_of}
use smsg.Clchat.Output.{lcc_asay, lines_with, is_line_end}
use smsg.Clchat.Token.{is_in, skip_delims, lcc_skip_to_token_start, lcc_token_delim}
use smsg.Clchat.Commands.{Typed, which_command, say_command, do_command, send_it, run_line}
use smsg.Clchat.Receive.{Chat, both_args, into_targ0, into_targ1, say_of, asay}
use smsg.Clchat.Receive.Cases.{on_say}
use smsg.Clchat.Receive.Loop.{on_command, on_op_code, request_who}

-- What the speaker's client sends, and what the server sends for it.
abbrev pub said : Text → List ℕ
said t = encode (command (code c_say) (some t ∷ []))

abbrev pub relayed : Text → Text → List ℕ
relayed ts t = encode (command (code c_say) (some ts ∷ some (t ++ (0 ∷ [])) ∷ []))

-- A line that does not begin with '/' or a blank is said as it is.
pub run_line-said :
    (m : Machine) (version : Text) (opens : Bool) (c : ℕ) (t : Text) (s : Typed)
    → IsPlentiful m.memory
    → ((sbuf : List ℕ) → m.sends sbuf ≡ true)
    → (c == 47) ≡ false
    → is_in lcc_token_delim c ≡ false
    → run_line m version opens (c ∷ t) s
      ≡ ok (record s {
        sbuf = said (c ∷ t);
        sendit = true;
        chat = record s.chat { sent = s.chat.sent ++ (said (c ∷ t) ∷ []) };
      })
unfolding run_line which_command do_command say_command lcc_skip_to_token_start skip_delims send_it
run_line-said m version opens c t s p all_sent plain word =
    rw
      (
        plain,
        of_code-code c_say,
        word,
        compose-encode m.memory s.sbuf (code c_say) (some (c ∷ t) ∷ []) p,
        all_sent (said (c ∷ t)),
      )
      refl

composed :
    (m : Memory) (beleet : Bool) (t ts : Text) (leet : List ℕ)
    → IsPlentiful m
    → beleet ≡ false
    → compose m [] (code c_say) (some ts ∷ some (if beleet then leet else t ++ (0 ∷ [])) ∷ [])
      ≡ ok (relayed ts t)
composed m true t ts leet p h = cc
composed m false t ts leet p h =
    compose-encode m [] (code c_say) (some ts ∷ some (t ++ (0 ∷ [])) ∷ []) p

-- The server sends it on.
pub ls_handle_netcmd-said :
    (h : Host) (version os : Text) (s : Server) (cl fd address : ℕ) (t ts : Text) (rest : List ℕ)
    → IsPlentiful h.memory
    → IsSized (command (code c_say) (some t ∷ []))
    → s.beleet ≡ false
    → is_chatting s (some fd) ≡ true
    → lcs_compose_name h s cl ≡ ok ts
    → get_elem? s.clients cl
      ≡ some (record { fd = some fd; address = address; buf = said t ++ rest })
    → ls_handle_netcmd h version os s cl ≡ ok ((lcs_dist_ncmd h s (relayed ts t) none).0, normal)
unfolding ls_handle_netcmd handle_op if_present handle_chatcmd chat_say
ls_handle_netcmd-said h version os s cl fd address t ts rest p sized plain there name at_cl =
    rw
      (
        at_cl,
        ncmd_get-encode (command (code c_say) (some t ∷ [])) rest sized,
        of_code-code c_say,
        at_cl,
        there,
        fetch-encode h.memory (command (code c_say) (some t ∷ [])) rest 0 true none t p sized refl,
        name,
      )
      (ap (λ o. o >>= λ sbuf. ok ((lcs_dist_ncmd h s sbuf none).0, normal))
        (composed h.memory s.beleet t ts (lcs_msg_translate (t ++ (0 ∷ [])) 1) p plain))

either_way : {A : Type 0} (b : Bool) (x : A) → (if b then x else x) ≡ x
either_way true x = refl
either_way false x = refl

lines_plain : (t : Text) → lines_with [] t ≡ t
unfolding lines_with
lines_plain [] = refl
lines_plain (c ∷ []) = refl
lines_plain (c ∷ d ∷ t) =
    either_way (is_line_end c) (c ∷ lines_with [] (d ∷ t)) ∙ ap (◌∷◌ c) (lines_plain (d ∷ t))

-- Without a prefix a text is shown as it is.
lcc_asay_lem : (t : Text) → lcc_asay 0 t ≡ t
unfolding lcc_asay
lcc_asay_lem t = lines_plain t

c_string-append : (t rest : Text) → has_nul t ≡ false → c_string (t ++ (0 ∷ rest)) ≡ t
unfolding c_string
c_string-append [] rest h = refl
c_string-append (a ∷ t) rest h = ground (arith, c_string-append t rest)

four_parts : (a x y z w : Text) → (((a ++ x) ++ y) ++ z) ++ w ≡ a ++ (x ++ (y ++ (z ++ w)))
four_parts a x y z w =
    append_assoc ((a ++ x) ++ y) z w
    ∙ append_assoc (a ++ x) y (z ++ w)
    ∙ append_assoc a x (y ++ (z ++ w))

string_read : (t : Text) → has_nul t ≡ false → string_of (some (t ++ (0 ∷ []))) ≡ ok t
unfolding string_of
string_read t h = rw (has_nul-terminated t, c_string-terminated t h) refl

string_read_twice :
    (t : Text) → has_nul t ≡ false → string_of (some ((t ++ (0 ∷ [])) ++ (0 ∷ []))) ≡ ok t
unfolding string_of
string_read_twice t h =
    rw
      (
        has_nul-terminated (t ++ (0 ∷ [])),
        append_assoc t (0 ∷ []) (0 ∷ []),
        c_string-append t (0 ∷ []) h,
      )
      refl

-- The line that is shown.
abbrev pub shown_line : Text → Text → Text
shown_line ts t = literal "[" ++ (ts ++ (literal "]" ++ (literal " " ++ (t ++ literal "\n"))))

abbrev pub heard : Text → Text → Chat → Chat
heard ts t s = record s {
  shown = s.shown ++ shown_line ts t;
  targ0 = some (ts ++ (0 ∷ []));
  targ1 = some ((t ++ (0 ∷ [])) ++ (0 ∷ []));
}

shown_in_parts :
    (a ts t : Text)
    → (((a ++ lcc_asay 0 (literal "[")) ++ lcc_asay 0 (ts ++ [])) ++ lcc_asay 0 (literal "]"))
        ++ lcc_asay 0 (literal " " ++ (t ++ literal "\n"))
      ≡ a ++ shown_line ts t
shown_in_parts a ts t =
    rw
      (
        lcc_asay_lem (literal "["),
        append-nil ts,
        lcc_asay_lem ts,
        lcc_asay_lem (literal "]"),
        lcc_asay_lem (literal " " ++ (t ++ literal "\n")),
      )
      (four_parts a (literal "[") ts (literal "]") (literal " " ++ (t ++ literal "\n")))

pub on_say-heard :
    (m : Machine) (ts t : Text) (rest : List ℕ) (s : Chat)
    → IsPlentiful m.memory
    → IsSized (command (code c_say) (some ts ∷ some (t ++ (0 ∷ [])) ∷ []))
    → has_nul ts ≡ false
    → has_nul t ≡ false
    → on_say m (relayed ts t ++ rest) s ≡ ok (heard ts t s)
unfolding on_say both_args into_targ0 into_targ1 say_of
on_say-heard m ts t rest s p sized plain plain' =
    let c = command (code c_say) (some ts ∷ some (t ++ (0 ∷ [])) ∷ []) in
    rw
      (
        fetch-encode m.memory c rest 0 true s.targ0 ts p sized refl,
        fetch-encode m.memory c rest 1 true s.targ1 (t ++ (0 ∷ [])) p sized refl,
        string_read ts plain,
        string_read_twice t plain',
      )
      (ap (λ x. ok (record (heard ts t s) { shown = x })) (shown_in_parts s.shown ts t))
