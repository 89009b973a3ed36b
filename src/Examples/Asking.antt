-- ===== src/Examples/Asking.antt =====
-- smsgwho and the chat client's tokens on concrete input.
use smsg.Base.{◌≡◌, refl, List, [], ◌∷◌, none, some, arith, drop, false}
use smsg.Base.Outcome.{ok}
use smsg.Base.Text.{literal}
use smsg.Ncmd.Frame.{encode, encode_args, IsSized}
use smsg.Ncmd.Opcode.{code}
use smsg.Clchat.Token.{tokens}
use smsg.Clchat.Words.{HasWords, tokens_lem}
use smsg.Smsgwho.{Options, ask, connect_error}
use smsg.Smsgwho.Pieces.{
  Piece, Member, who_reply, who_request, results, printed, ArePlain, nobody, plain_and, ask_lem,
  together,
}
use smsg.Examples.{memory-IsPlentiful}
use smsg.Examples.Programs.{machine}

tokens_lem_example : HasWords (literal "bo al") (tokens 10 (some (literal "bo al")))
tokens_lem_example = tokens_lem 10 (literal "bo al") (omega arith)

abbrev options : Options
options = record {
  host = some (literal "localhost");
  port = 3331;
  ofs = 32;
  ors = 10;
  count_only = false;
}

abbrev members : List Member
members = (literal "al", literal "al@home") ∷ (literal "bo", literal "bo@work") ∷ []

-- The first byte alone, then the rest.
abbrev pieces : List Piece
pieces = (0, []) ∷ (31, drop 2 (encode (who_reply (literal "2") members))) ∷ []

reply-IsSized : IsSized (who_reply (literal "2") members)
unfolding encode encode_args code
reply-IsSized = record { op_word = omega arith; args_word = omega arith; size_int = omega arith }

members-ArePlain : ArePlain members
members-ArePlain = plain_and refl refl (plain_and refl refl nobody)

found : connect_error machine (literal "localhost") 3331 ≡ none
unfolding connect_error
found = refl

whole : together pieces ≡ encode (who_reply (literal "2") members)
unfolding encode encode_args code
whole = refl

ask_lem_example :
    ask machine options (literal "localhost") (results pieces)
    ≡ ok (record {
      sent = encode who_request ∷ [];
      output = printed options members;
      errors = [];
      status = 0;
    })
ask_lem_example =
    ask_lem machine options (literal "localhost") (literal "2") members pieces memory-IsPlentiful
      found (λ sbuf. refl) reply-IsSized members-ArePlain refl whole
