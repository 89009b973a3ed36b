-- ===== src/Smsgwho/Pieces.antt =====
-- A reply to smsgwho, in whatever pieces it comes.
use smsg.Base.{
  ℕ, zero, suc, ◌*◌, ◌+◌, ◌/◌, ◌≡◌, refl, sym, ap, ◌∙◌, List, [], ◌∷◌, ◌++◌, length, take,
  take-append, append_assoc, append-nil, length-append, true, false, ◌==◌, Option, none, some,
  arith, get_elem?,
}
use smsg.Base.Outcome.{ok}
use smsg.Base.Memory.{Memory, IsPlentiful}
use smsg.Base.Text.{Text, has_nul}
use smsg.Ncmd.{ncmd_iscomplete}
use smsg.Ncmd.Frame.{Command, encode, IsSized, length-encode}
use smsg.Ncmd.Complete.{ncmd_iscomplete-encode, ncmd_iscomplete-take}
use smsg.Ncmd.Argument.{ncmd_getnumargs-encode}
use smsg.Ncmd.Opcode.{code, c_who}
use smsg.Server.Loop.{recvbuf}
use smsg.Server.Dispatch.{magic_who_arg}
use smsg.Calls.Encode.{fetch-encode, compose-encode, command}
use smsg.Client.{Machine, receive, got}
use smsg.Client.Exchange.{string_of-sent}
use smsg.Smsgwho.{receive_reply, Options, dissect, who_records, ask, connect_error}

-- A piece has its first byte and those that follow.
abbrev pub Piece : Type 0
Piece = ℕ × List ℕ

abbrev pub bytes_of_piece : Piece → List ℕ
bytes_of_piece p = p.0 ∷ p.1

abbrev pub results : List Piece → List (Option (List ℕ))
results [] = []
results (p ∷ ps) = some (bytes_of_piece p) ∷ results ps

abbrev pub together : List Piece → List ℕ
together [] = []
together (p ∷ ps) = bytes_of_piece p ++ together ps

receive_piece :
    (m : Memory) (buf : List ℕ) (b : ℕ) (bs : List ℕ)
    → IsPlentiful m
    → receive m buf (some (b ∷ bs)) ≡ got (buf ++ (b ∷ bs))
unfolding receive recvbuf
receive_piece m buf b bs p = rw (p.all_granted (length buf + suc (length bs))) refl

-- What has come before a piece is not the whole reply.
waits :
    (c : Command) (buf : List ℕ) (p : Piece) (ps : List Piece)
    → IsSized c
    → buf ++ (bytes_of_piece p ++ together ps) ≡ encode c
    → ncmd_iscomplete buf ≡ ok 0
waits c buf p ps h e =
    let n : ℕ = length buf in
    let rest = bytes_of_piece p ++ together ps in
    let part : take n (encode c) ≡ buf = ap (take n) (sym e) ∙ take-append n buf rest refl in
    ap ncmd_iscomplete (sym part)
    ∙ ncmd_iscomplete-take c n h (omega (arith, ap length e, length-append buf rest))

whole : (c : Command) → IsSized c → ncmd_iscomplete (encode c) ≡ ok (length (encode c))
whole c h = ap ncmd_iscomplete (sym (append-nil (encode c))) ∙ ncmd_iscomplete-encode c [] h

from_buffer :
    (m : Machine) (c : Command) (buf : List ℕ) (ps : List Piece)
    → IsPlentiful m.memory
    → IsSized c
    → buf ++ together ps ≡ encode c
    → receive_reply m buf (results ps) ≡ ok (some (encode c), [])
unfolding receive_reply
from_buffer m c buf [] p h e =
    let same : buf ≡ encode c = sym (append-nil buf) ∙ e in
    let nonempty : (length (encode c) == 0) ≡ false = ground (arith, length-encode c) in
    rw (same, whole c h, nonempty) refl
from_buffer m c buf (piece ∷ ps) p h e =
    rw (waits c buf piece ps h e, receive_piece m.memory buf piece.0 piece.1 p)
      (from_buffer m c (buf ++ bytes_of_piece piece) ps p h
        (append_assoc buf (bytes_of_piece piece) (together ps) ∙ e))

-- The members of the chat in the reply, and what is printed of them.
abbrev pub Member : Type 0
Member = Text × Text

abbrev pub member_args : List Member → List Text
member_args [] = []
member_args (x ∷ xs) = x.0 ∷ x.1 ∷ member_args xs

abbrev pub printed : Options → List Member → Text
printed o [] = []
printed o (x ∷ xs) = o.ors ∷ (x.0 ++ (o.ofs ∷ (x.1 ++ printed o xs)))

pub data ArePlain : List Member → Type 0 where
  nobody : ArePlain []
  plain_and :
      {x : Member} {xs : List Member}
      → has_nul x.0 ≡ false
      → has_nul x.1 ≡ false
      → ArePlain xs
      → ArePlain (x ∷ xs)

abbrev pub who_reply : Text → List Member → Command
who_reply info members = record { op = code c_who; args = info ∷ member_args members }

get_elem?-append :
    (xs ys : List Text) (k i : ℕ) → i ≡ length xs + k → get_elem? (xs ++ ys) i ≡ get_elem? ys k
get_elem?-append [] ys k i h = let same : i ≡ k = omega (arith, h) in ap (get_elem? ys) same
get_elem?-append (x ∷ xs) ys k zero h = absurd (omega (arith, h))
get_elem?-append (x ∷ xs) ys k (suc i) h = get_elem?-append xs ys k i (omega (arith, h))

who_records_lem :
    (m : Machine) (o : Options) (c : Command) (before : List Text) (members : List Member)
    (tnick tinfo : Option (List ℕ))
    → IsPlentiful m.memory
    → IsSized c
    → ArePlain members
    → c.args ≡ before ++ member_args members
    → who_records m o (encode c ++ []) tnick tinfo (length members) (length before)
      ≡ ok (printed o members)
unfolding who_records
who_records_lem m o c before [] tnick tinfo p h q e = refl
who_records_lem m o c before (x ∷ xs) tnick tinfo p h (plain_and n1 n2 q) e =
    let n : ℕ = length before in
    let args = member_args (x ∷ xs) in
    let nick : get_elem? c.args n ≡ some x.0 =
      ap (λ l. get_elem? l n) e ∙ get_elem?-append before args 0 n (omega arith) in
    let info : get_elem? c.args (n + 1) ≡ some x.1 =
      ap (λ l. get_elem? l (n + 1)) e ∙ get_elem?-append before args 1 (n + 1) refl in
    let done = before ++ (x.0 ∷ x.1 ∷ []) in
    let two : n + 2 ≡ length done = omega (arith, length-append before (x.0 ∷ x.1 ∷ [])) in
    let tnick' : Option (List ℕ) = some (x.0 ++ (0 ∷ [])) in
    let tinfo' : Option (List ℕ) = some (x.1 ++ (0 ∷ [])) in
    let rest : who_records m o (encode c ++ []) tnick' tinfo' (length xs) (n + 2)
        ≡ ok (printed o xs) =
      ap (who_records m o (encode c ++ []) tnick' tinfo' (length xs)) two
      ∙ who_records_lem m o c done xs tnick' tinfo' p h q
          (e ∙ sym (append_assoc before (x.0 ∷ x.1 ∷ []) (member_args xs))) in
    rw
      (
        fetch-encode m.memory c [] n true tnick x.0 p h nick,
        fetch-encode m.memory c [] (n + 1) true tinfo x.1 p h info,
        string_of-sent x.0 n1,
        string_of-sent x.1 n2,
        rest,
      )
      refl

length-member_args : (xs : List Member) → length (member_args xs) ≡ 2 * length xs
length-member_args [] = refl
length-member_args (x ∷ xs) = omega (arith, length-member_args xs)

dissect_lem :
    (m : Machine) (o : Options) (info : Text) (members : List Member)
    → IsPlentiful m.memory
    → IsSized (who_reply info members)
    → ArePlain members
    → o.count_only ≡ false
    → dissect m o (encode (who_reply info members)) ≡ ok (printed o members)
unfolding dissect who_records
dissect_lem m o info members p h q full =
    let c = who_reply info members in
    let half : suc (length (member_args members)) / 2 ≡ length members =
      omega (arith, length-member_args members) in
    ap (λ t. dissect m o t) (sym (append-nil (encode c)))
    ∙ rw (ncmd_getnumargs-encode c [] h, full, half)
        (who_records_lem m o c (info ∷ []) members none none p h q refl)

-- The request of smsgwho.
abbrev pub who_request : Command
who_request = command (code c_who) (some magic_who_arg ∷ [])

-- With memory plentiful, a server that can be reached and a request that can be sent, if the reply
-- to smsgwho's request arrives whole, in whatever pieces of at least one byte, then smsgwho ends
-- with status 0, having sent one request and having printed every member in order, each with the
-- separators asked for. The reply fits the format, its texts have no NUL, and the members are asked
-- for and not only their number.
pub ask_lem :
    (m : Machine) (o : Options) (host info : Text) (members : List Member) (pieces : List Piece)
    → IsPlentiful m.memory
    → connect_error m host o.port ≡ none
    → ((sbuf : List ℕ) → m.sends sbuf ≡ true)
    → IsSized (who_reply info members)
    → ArePlain members
    → o.count_only ≡ false
    → together pieces ≡ encode (who_reply info members)
    → ask m o host (results pieces)
      ≡ ok (record {
        sent = encode who_request ∷ [];
        output = printed o members;
        errors = [];
        status = 0;
      })
unfolding ask
ask_lem m o host info members pieces p reached all_sent h q full e =
    rw
      (
        reached,
        compose-encode m.memory [] (code c_who) (some magic_who_arg ∷ []) p,
        all_sent (encode who_request),
        from_buffer m (who_reply info members) [] pieces p h e,
        dissect_lem m o info members p h q full,
      )
      refl
