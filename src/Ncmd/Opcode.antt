-- ===== src/Ncmd/Opcode.antt =====
-- ncmd.h: the command codes.
use smsg.Base.{ℕ, ◌≡◌, refl, Option, some, List, [], ◌∷◌, get_elem?}

-- `NCMDOp`, in the order of the enumeration.
pub data NcmdOp : Type 0 where
  unknown msg getqmsg qmsg getlist list setpref getpref pref chatdoor ack nak : NcmdOp
  c_door c_away c_ban c_beep c_bs c_clear c_deop c_help c_kick c_log c_me c_nick : NcmdOp
  c_op c_oper c_priv c_psay c_quit c_say c_unban c_who : NcmdOp

-- The enumerators by their values.
abbrev pub all_ops : List NcmdOp
all_ops =
    unknown ∷ msg ∷ getqmsg ∷ qmsg ∷ getlist ∷ list ∷ setpref ∷ getpref ∷ pref ∷ chatdoor ∷ ack
    ∷ nak ∷ c_door ∷ c_away ∷ c_ban ∷ c_beep ∷ c_bs ∷ c_clear ∷ c_deop ∷ c_help ∷ c_kick ∷ c_log
    ∷ c_me ∷ c_nick ∷ c_op ∷ c_oper ∷ c_priv ∷ c_psay ∷ c_quit ∷ c_say ∷ c_unban ∷ c_who ∷ []

unfoldable pub code : NcmdOp → ℕ
code unknown = 0
code msg = 1
code getqmsg = 2
code qmsg = 3
code getlist = 4
code list = 5
code setpref = 6
code getpref = 7
code pref = 8
code chatdoor = 9
code ack = 10
code nak = 11
code c_door = 12
code c_away = 13
code c_ban = 14
code c_beep = 15
code c_bs = 16
code c_clear = 17
code c_deop = 18
code c_help = 19
code c_kick = 20
code c_log = 21
code c_me = 22
code c_nick = 23
code c_op = 24
code c_oper = 25
code c_priv = 26
code c_psay = 27
code c_quit = 28
code c_say = 29
code c_unban = 30
code c_who = 31

-- The enumerator that a `switch` on a received code finds, if any.
unfoldable pub of_code : ℕ → Option NcmdOp
of_code n = get_elem? all_ops n

pub of_code-code : (op : NcmdOp) → of_code (code op) ≡ some op
unfolding of_code code
of_code-code unknown = refl
of_code-code _ = refl
