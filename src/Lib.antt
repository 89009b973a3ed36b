-- ===== src/Lib.antt =====
-- smsg: a server that passes messages between the users of a machine and runs a chat, and its
-- clients.
--
-- The parts. ncmd.c packs and unpacks commands: a word with the code, a word with the number of
-- arguments, then each argument as a doubleword with its length and its data (doc/NETCMD.protocol).
-- src/server.c accepts connections, collects bytes until a command is complete, and handles it; the
-- chat's commands it gives to src/servchat.c. Both keep what they know of users (terminal,
-- preferences, chat state, bans) in the table of src/udata.c, and ask the machine through
-- src/servmisc.c, which also holds the queues of unread messages. src/smsg.c reads the options and
-- runs the server or one of the requests of src/client.c, of which chatter() runs the chat client
-- of src/clchat.c; src/smsgwho.c is a program of its own that lists the chat.
--
-- The files. Base: helpers, outcomes of C functions (`ok`, `failed` for -1 or a null result, and
-- `fault` where the program would touch memory it may not), memory, and strings. Ncmd: ncmd.c, a
-- buffer with its length as the list of its bytes; Ncmd/Frame says independently of the code what a
-- command's bytes are; Ncmd/Names has the names. Calls: how server and clients call ncmd.c. Udata:
-- udata.c, the linked list as a list; Udata/Lookup, Fields and Distinct are about what lookups find.
-- Host and Queue: servmisc.c. Server: the state (the table, clients[], num_clients, beleet, and
-- what was sent and written); its children Chat, Speech, Moderation, Who, Userinfo and Leet are
-- handle_chatcmd() of servchat.c by cases, Message, Prefs, Door and Dispatch are ls_handle_netcmd()
-- of server.c, and Loop is runserver(), with Service for its opening and its rounds. Evolution,
-- Bans and Keeps account for what every handler does to the table, Permanence for whole histories;
-- Authority says who may moderate;
-- Preferences and Settings are about the preferences. Client: client.c, with Send, Query and
-- Chatter for its requests, and Exchange, Misread and Overread for what they come to with the
-- server's answers. Clchat: clchat.c; Input is the line that is typed, with Draft and Editing on
-- it, Token and Commands what is done with a line (Typing says what is sent), Output and Help what
-- is shown, Receive what comes from the server, History the lines that can be recalled, Complete
-- the tab key, and Mailbox the check of the mailbox; Session is the loop that has all of these in
-- its rounds, and Start is chatter_func() as client.c calls it. Relay follows what is said through
-- both clients and the server. Smsgwho and Smsg: smsgwho.c and smsg.c; Smsg/Port and Smsg/Defects
-- are about the options and the input. Examples has concrete runs.
--
-- Choices. Memory may be refused at any request: what malloc(), realloc() and strdup() grant is a
-- parameter (`Memory`), and so are the machine of a server (`Host`: users, utmp, terminals, send(),
-- the texts of inet_ntoa() and of times), that of a client (`Machine`: its user, the resolver, the
-- socket calls, atoi() and the numbers' texts) and that of smsg.c (`Shell`: strtol(), ttyname()). A
-- history gives each event its own host. `unsigned long` has 64 bits, `int` 32 and `char` is a
-- byte; reading a doubleword keeps the sign extension that the code has. realloc() to no bytes, which
-- ncmd_getarg() does for an empty argument that is fetched without a NUL, is a request like any
-- other here, while some C libraries free the block then. An entry's pointer is looked up anew by
-- its user, since an entry stays where it is until it is removed. Every entry that the table can
-- hold has a user; where the model faults on an entry without one, it is a case that does not come
-- up. Messages that are printed are texts; those of the chat client are lines with the kind of
-- their prefix.
--
-- Fuel. Loops run over lists or over the number of arguments, but for three. The words of a line
-- (`tokens`) are given fuel by the length of the line, which gets shorter with each word. The loop
-- over received commands (`receive_loop`) is given the length of the buffer and one more, since
-- each command takes at least a byte; Session gives it one more than the bytes there are. The
-- filter of nicks (`filter_from`) moves one byte on in each round, and is given the number of
-- bytes.
--
-- Not modelled: what is written to the server's log; of src/clchat.c the windows, colours and
-- scrolling, the drawing of the sidebar and the status line and the writing of the session log,
-- which is work on the terminal and on files; the options as getopt() cuts them up; the Java
-- client; the build scripts. One recv() may bring any number of bytes in the model, of which the
-- program's at most 1023 are a case.
pub mod Base
pub mod Calls
pub mod Ncmd
pub mod Udata
pub mod Host
pub mod Queue
pub mod Server
pub mod Client
pub mod Clchat
pub mod Smsgwho
pub mod Smsg
pub mod Examples
