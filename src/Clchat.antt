-- ===== src/Clchat.antt =====
-- clchat.c: the chat client. Windows, colours and their refreshment are left out.
pub mod Input
pub mod Draft
pub mod Editing
pub mod History
pub mod Complete
pub mod Mailbox
pub mod Session
pub mod Relay
pub mod Start
pub mod Output
pub mod Receive
pub mod Token
pub mod Words
pub mod Typing
pub mod Help
pub mod Commands
