-- ===== src/Clchat/Help.antt =====
-- clchat.c: the texts of /help. The build gives the version.
use smsg.Base.{◌++◌}
use smsg.Base.Text.{Text, literal}

abbrev pub lcc_help_general : Text → Text
lcc_help_general version =
    literal "***** smsg v"
    ++ (version
        ++ (literal " chatter help *****\n"
            ++ (literal "  TOPIC: general help\n"
                ++ (literal "\n"
                    ++ (literal "...some general info about the chatter and stuff comes here...\n"
                        ++ (literal "\n"
                            ++ (literal
                                  "To get help on a specific topic type '/help <topic>' where\n"
                                ++ (literal "<topic> is the topic of your choice (duh).\n"
                                    ++ (literal
                                          "Available topics (abbreviations separated by comma's):\n"
                                        ++ (literal
                                              " -- i,iface,interface     help about the interface keys and meanings\n"
                                            ++ (literal
                                                " -- c,cmd,cmds,commands   help about available commands\n")))))))))))

abbrev pub lcc_help_interface : Text → Text
lcc_help_interface version =
    literal "??? ***** smsg v"
    ++ (version
        ++ (literal " chatter help *****\n"
            ++ (literal "  TOPIC: interface help\n"
                ++ (literal "\n"
                    ++ (literal "This help is just temporary until at least layout is improved...\n"
                        ++ (literal "\n"
                            ++ (literal
                                  "- The upper part of the screen shows what happens in the chatroom.\n"
                                ++ (literal
                                      "- The middle part (blue background if you have colors) contains some information:\n"
                                    ++ (literal
                                          "  On the left is your nickname and right of that your flags, 'A' means away\n"
                                        ++ (literal
                                              "  and 'O' means operator. On the right the character insert/overwrite\n"
                                            ++ (literal
                                                  "  state and left of that is the serverhost you're connected to.\n"
                                                ++ (literal
                                                      "  Between insert mode and serverhost, there will be an 'L' if logging is on.\n"
                                                    ++ (literal
                                                          "  Any garbage in the middle probably is debugging info...\n"
                                                        ++ (literal
                                                            "- The lower part is where your fabulous typing work appears.\n"
                                                            ++ (literal
                                                            "- The left (or...uhh) part contains the nicknames of everyone currently in chat.\n"
                                                            ++ (literal "\n"
                                                            ++ (literal
                                                            "Use the enter key to send your command or message.\n"
                                                            ++ (literal
                                                            "To edit your typing you can use home, end, cursor-left and cursor-right to move\n"
                                                            ++ (literal
                                                            "through it and backspace and delete to remove characters.\n"
                                                            ++ (literal
                                                            "You can use the tab key to autocomplete nicknames (and commands in the future).\n"
                                                            ++ (literal
                                                            "The insert key works as well by the way.\n"
                                                            ++ (literal
                                                            "Cursor-up and cursor-down can be used to scroll through a list of previously typed commands.\n"
                                                            ++ (literal
                                                            "Page-up and page-down will be used for the scrollback buffer.\n"
                                                            ++ (literal "\n"
                                                            ++ (literal
                                                            "Well I think it's all quite obvious...and this help won't be of much help if it's not :)\n")))))))))))))))))))))))))

abbrev pub lcc_help_commands : Text → Text
lcc_help_commands version =
    literal "??? ***** smsg v"
    ++ (version
        ++ (literal " chatter help *****\n"
            ++ (literal "  TOPIC: command help\n"
                ++ (literal "\n"
                    ++ (literal
                          "Issueing a command is done by preceding the command of your choice by\n"
                        ++ (literal
                              "a '/', everything which doesn't start with a slash is considered a message\n"
                            ++ (literal
                                  "and, depending on the PRIV state, sent as a SAY or as a PSAY command.\n"
                                ++ (literal
                                      "Available commands are ('*' means not implemented yet):\n"
                                    ++ (literal "\n"
                                        ++ (literal
                                              "AWAY [reason]\tswitch your away status on or off, if you like\n"
                                            ++ (literal "\t\t\tyou can give a reason\n"
                                                ++ (literal
                                                      "*BAN <nick>\t\tban <nick> so he/she is kicked and can't get\n"
                                                    ++ (literal "\t\t\tin again\n"
                                                        ++ (literal
                                                            "BEEP [nick]\t\tbeep terminal of nick or everyone if no nick given\n"
                                                            ++ (literal
                                                            "\t\t\tof course this doesn't guarantee anything\n"
                                                            ++ (literal
                                                            "BS <key>\t\tchange backspace key to a custom character\n"
                                                            ++ (literal
                                                            "CLEAR\t\tclear the chatscreen (if possible)\n"
                                                            ++ (literal
                                                            "DEOP <nick>\t\tsame as /op but takes away operator right instead\n"
                                                            ++ (literal "HELP\t\tdump this help\n"
                                                            ++ (literal
                                                            "KICK <nick>\t\tkick <nick> out of chat\n"
                                                            ++ (literal
                                                            "LOG\t\t\tswitch session log on or off\n"
                                                            ++ (literal
                                                            "ME <text>\t\tdumps a remark of yours in a fashion like:\n"
                                                            ++ (literal
                                                            "\t\t\t<nick text> ...give it a try to see\n"
                                                            ++ (literal
                                                            "NICK [nick]\t\tchange your nick to <nick> if specified,\n"
                                                            ++ (literal
                                                            "\t\t\totherwise get your current nick\n"
                                                            ++ (literal
                                                            "*PRIV [nick]\tengage a private conversation with <nick> or\n"
                                                            ++ (literal
                                                            "OP <nick>\t\tgive <nick> operator rights (you need to be\n"
                                                            ++ (literal
                                                            "\t\t\toperator yourself!)\n"
                                                            ++ (literal
                                                            "OPER <password>\tgive yourself operator rights by supplying the\n"
                                                            ++ (literal "\t\t\tcorrect <password>\n"
                                                            ++ (literal
                                                            "PSAY <nick> <text>\tsend the message <text> to <nick> only\n"
                                                            ++ (literal
                                                            "QUIT [reason]\tquit chat, give a reason if you like\n"
                                                            ++ (literal
                                                            "SAY <text>\t\tsend the message <text> to everyone in chat\n"
                                                            ++ (literal
                                                            "\t\t\tend one (in which case <nick> is not needed)\n"
                                                            ++ (literal
                                                            "*UNBAN <nick>\tunban <nick> so he/she can enter again\n"
                                                            ++ (literal
                                                            "WHO\t\t\tget a list of clients currently in chat and/or\n"
                                                            ++ (literal
                                                            "\t\t\tlogged on (use arg: a/all, s/sys or c/chat)\n"
                                                            ++ (literal
                                                            "\t\t\tnote: a and s give a list, c ot nothing updates the sidebar\n"
                                                            ++ (literal "\n"
                                                            ++ (literal
                                                            "(more commands to come: ping, finger/whois, etc...)\n"))))))))))))))))))))))))))))))))))))))))
