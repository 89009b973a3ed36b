-- ===== src/Clchat/Typing.antt =====
-- A typed command, from the line to what is sent.
use smsg.Base.{arith, ℕ, suc, ◌≡◌, refl, List, [], ◌∷◌, ◌++◌, length, Bool, true, false, some, map}
use smsg.Base.Outcome.{ok}
use smsg.Base.Memory.{IsPlentiful}
use smsg.Base.Text.{Text}
use smsg.Ncmd.Opcode.{NcmdOp, code, of_code-code, c_deop, c_kick, c_nick, c_op, c_oper}
use smsg.Ncmd.Names.{name, to_lower, ncmd_getnum, ncmd_getnum-ncmd_getname}
use smsg.Ncmd.Frame.{encode}
use smsg.Calls.Encode.{command, compose-encode}
use smsg.Client.{Machine}
use smsg.Clchat.Token.{
  is_in, skip_delims, lcc_strsepx, lcc_my_strsep, lcc_skip_to_token_start, lcc_token_delim,
}
use smsg.Clchat.Words.{IsWord, word_char, HasWords, tokens-HasWords, cut_word}
use smsg.Clchat.Commands.{
  Typed, which_command, words_command, send_it, do_command, run_line, to_args,
}

-- The commands whose words are sent as they are.
pub data TakesWords : NcmdOp → Type 0 where
  deop_words : TakesWords c_deop
  kick_words : TakesWords c_kick
  nick_words : TakesWords c_nick
  op_words : TakesWords c_op
  oper_words : TakesWords c_oper

blank_delim : is_in lcc_token_delim 32 ≡ true
unfolding is_in
blank_delim = refl

which_command_lem :
    (c : ℕ) (word rest : Text)
    → IsWord (c ∷ word)
    → which_command (47 ∷ ((c ∷ word) ++ (32 ∷ rest)))
      ≡ (ncmd_getnum (c ∷ word) (length (c ∷ word)), some rest)
unfolding which_command lcc_strsepx lcc_my_strsep lcc_skip_to_token_start skip_delims
which_command_lem c word rest (word_char h w) =
    rw (h, cut_word (c ∷ word) rest 32 (word_char h w) blank_delim) refl

-- The command whose arguments are these words.
abbrev pub words_request : NcmdOp → List Text → List ℕ
words_request op ws = encode (command (code op) (to_args ws))

words_command_lem :
    (m : Machine) (op : NcmdOp) (rest : Text) (ws : List Text) (s : Typed)
    → IsPlentiful m.memory
    → HasWords rest ws
    → words_command m op (some rest) s ≡ ok (record s { sbuf = words_request op ws; sendit = true })
unfolding words_command
words_command_lem m op rest ws s p has =
    let found = tokens-HasWords (suc (suc (length rest))) rest ws (omega arith) has in
    rw (found, compose-encode m.memory s.sbuf (code op) (to_args ws) p) refl

do_words :
    (m : Machine) (version : Text) (opens : Bool) (n : ℕ) (op : NcmdOp) (rest : Text)
    (ws : List Text) (s : Typed)
    → IsPlentiful m.memory
    → HasWords rest ws
    → TakesWords op
    → do_command m version opens n (some op) (some rest) s
      ≡ ok (record s { sbuf = words_request op ws; sendit = true })
unfolding do_command
do_words m version opens n op rest ws s p has deop_words =
    words_command_lem m c_deop rest ws s p has
do_words m version opens n op rest ws s p has kick_words =
    words_command_lem m c_kick rest ws s p has
do_words m version opens n op rest ws s p has nick_words =
    words_command_lem m c_nick rest ws s p has
do_words m version opens n op rest ws s p has op_words = words_command_lem m c_op rest ws s p has
do_words m version opens n op rest ws s p has oper_words =
    words_command_lem m c_oper rest ws s p has

-- With memory plentiful and a connection that takes all that is sent, a line of '/', the name of
-- deop, kick, nick, op or oper in upper or lower case, a blank and any rest sends one command with
-- that code, and does nothing else to the chat. Its arguments are the words of the rest, that is
-- its longest runs of characters that are no delimiters, in order, and then one more, an empty one,
-- if the rest has no such run or ends with a delimiter.
pub run_line_lem :
    (m : Machine) (version : Text) (opens : Bool) (op : NcmdOp) (c : ℕ) (word rest : Text)
    (ws : List Text) (s : Typed)
    → IsPlentiful m.memory
    → ((sbuf : List ℕ) → m.sends sbuf ≡ true)
    → TakesWords op
    → HasWords rest ws
    → IsWord (c ∷ word)
    → map to_lower (c ∷ word) ≡ map to_lower (name op)
    → run_line m version opens (47 ∷ ((c ∷ word) ++ (32 ∷ rest))) s
      ≡ ok (record s {
        sbuf = words_request op ws;
        sendit = true;
        chat = record s.chat { sent = s.chat.sent ++ (words_request op ws ∷ []) };
      })
unfolding run_line send_it
run_line_lem m version opens op c word rest ws s p all_sent t has w e =
    let number : ncmd_getnum (c ∷ word) (length (c ∷ word)) ≡ code op =
      ((ncmd_getnum-ncmd_getname m.memory m.decimal op p).1 (c ∷ word)).1 e in
    let s' = record s { sendit = false } in
    rw
      (
        which_command_lem c word rest w,
        number,
        of_code-code op,
        do_words m version opens (code op) op rest ws s' p has t,
        all_sent (words_request op ws),
      )
      refl
