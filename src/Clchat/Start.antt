-- ===== src/Clchat/Start.antt =====
-- clchat.c, chatter_func(): what is before its loop, and the whole of it as client.c calls it.
use smsg.Base.{ℕ, List, [], ◌∷◌, ◌++◌, replicate, Bool, true, false, if◌then◌else◌, Option, none}
use smsg.Base.Outcome.{Outcome, ok, failed, ◌>>=◌}
use smsg.Base.Text.{Text, literal}
use smsg.Ncmd.Opcode.{code, c_who}
use smsg.Calls.{set_cmd}
use smsg.Client.{Machine, Session}
use smsg.Client.Chatter.{Left}
use smsg.Clchat.Output.{lcc_asay}
use smsg.Clchat.History.{empty_ibuf}
use smsg.Clchat.Receive.{asay, duplicate}
use smsg.Clchat.Session.{Chatting, Round, Fixed, Ending, goes_on_still, quits, gone, chat_loop}

-- The first lines that are shown.
unfoldable pub banner : Text → Text
banner version =
    lcc_asay 1 (literal " ,s$SSSSSSS$s.  .sS. sSSs.`SSSSS&s, .sSSSSSS'\n")
    ++ (lcc_asay 1 (literal " 7SS'     _oSP .SS SYY `SS `SS.     SS'   \"'")
        ++ (lcc_asay 0 (literal "   C H A T T E R\n")
            ++ (lcc_asay 1 (literal "  `%S$s. SS^\" .S'  `Y' dS'. ^7SSs. dS .oSs.")
                ++ (lcc_asay 0 (literal "      v" ++ (version ++ literal "\n"))
                    ++ (lcc_asay 1 (literal " So  `3S    .sY` .   .dS'     `%S' SS.  `SS.\n")
                        ++ (lcc_asay 1 (literal " `SSSS&' .,$P+'   .s&SP'.sSSSSS$'  `sSSSSSSP")
                            ++ (lcc_asay 0 (literal "  by Ed de Wonderkat and Matt Logsdon\n")
                                ++ lcc_asay 0 (literal "\n"))))))))

unfoldable pub notes : Text
notes =
    lcc_asay 3 (literal "***** Please send any complaints, bug reports or comments to:\n")
    ++ (lcc_asay 3 (literal "***** elanor@cypher-sec.org\n")
        ++ (lcc_asay 3 (literal "\n")
            ++ (lcc_asay 3 (literal "Notes:\n")
                ++ (lcc_asay 3 (
                      literal
                        "If your backspace key does not work correctly use the /bs command to set a\n")
                    ++ (lcc_asay 3 (
                          literal
                            "custom backspace key. A commandline argument for that is being worked on, be\n")
                        ++ (lcc_asay 3 (literal "patient.\n")
                            ++ (lcc_asay 3 (
                                  literal
                                    "This remedy (read: ugly hack) will only work in some particular cases; it\n")
                                ++ (lcc_asay 3 (
                                      literal
                                        "appears some terminals use a two-char sequence which ncurses can't handle afaik.\n")
                                    ++ (lcc_asay 3 (
                                          literal "If you know how to solve this please tell me!\n")
                                        ++ (lcc_asay 3 (literal "\n")
                                            ++ (lcc_asay 3
                                                  (literal "Yay! Smsg now has tab completion!\n")
                                                ++ (lcc_asay 3 (
                                                      literal
                                                        "And there is now command history, use cursor up and down.\n")
                                                    ++ lcc_asay 0 (literal "\n")))))))))))))

-- The variables before anything is sent; the mailbox is looked at for the first time, and the send
-- buffer has the request for the list of users.
unfoldable pub first_state : Machine → Fixed → Text → Option ℕ → List ℕ → Chatting
unfolding banner notes
first_state m f initial_nick erase_key sbuf = record {
  typed = record {
    chat = record {
      nick = duplicate m initial_nick;
      away = false;
      operator = false;
      kicked = 0;
      culist = [];
      req_who = false;
      shown = banner f.version ++ notes;
      sent = sbuf ∷ [];
      targ0 = none;
      targ1 = none;
    };
    sbuf = sbuf;
    sendit = false;
    reason = none;
    exitloop = false;
    backspace_char = erase_key;
    log_open = false;
  };
  history = record {
    iqueue = replicate f.cmdline_histlen (empty_ibuf, empty_ibuf);
    ibqi = 0;
    ibuf_pos = 0;
    insertmode = true;
  };
  rbuf = [];
  mailbox = record { firstrun = true; last_size = 0; mailcount = none };
  checked = 0;
}

abbrev pub on_send : Machine → List ℕ → Chatting → Chatting
on_send m sbuf s = if m.sends sbuf then s else record s {
  typed = record s.typed {
    chat = asay 3 (literal "error sending command (" ++ (m.strerror ++ literal ")\n")) s.typed.chat;
  };
}

-- The list of users is asked for.
unfoldable pub begin_chat : Machine → Fixed → Text → Option ℕ → Outcome Chatting
unfolding first_state
begin_chat m f initial_nick erase_key = set_cmd m.memory [] (code c_who) >>= λ sbuf.
    ok (on_send m sbuf (first_state m f initial_nick erase_key sbuf))

-- What client.c gets: what was sent is added to the session.
abbrev pub left_of : Session → Bool → Chatting → Left
left_of s takes_leave c = record {
  session = record s { sent = s.sent ++ c.typed.chat.sent };
  takes_leave = takes_leave;
  reason = c.typed.reason;
}

-- Rounds that run out before the end give `failed`.
abbrev pub ended : Session → Ending → Outcome Left
ended s (goes_on_still c) = failed
ended s (quits c) = ok (left_of s true c)
ended s (gone c) = ok (left_of s false c)

unfoldable pub chatter_func :
    Machine → Fixed → Option ℕ → List Round → Session → Text → Text → Outcome Left
unfolding begin_chat
chatter_func m f erase_key rounds s initial_nick server_string =
    begin_chat m f initial_nick erase_key >>= λ c. chat_loop f rounds c >>= ended s
