-- ===== src/Lib.antt =====
-- A chat daemon that users reach by Telnet, written in Go.
--
-- The program is a set of goroutines that share nothing but the database and exchange messages over
-- Go channels. For every connection a telnet goroutine reads bytes and hands them to a doppelganger,
-- the goroutine that stands for the user: it edits the line, runs the login and the commands, and
-- writes to the connection. One channel master knows which chat channels are running; joins, exits
-- and requests for the members go through it. Every running chat channel is a goroutine with its
-- members, to whom it distributes what they say.
--
-- Common                 lists, texts, Go's int64 as bit patterns, errors, maps (Common/Dict)
-- Message                daemon/datastructures.go: operation codes and message formats
-- Helper                 daemon/helper.go: trim, deslash, intToStr, int64ToStr
-- Database               daemon/doppelganger.go, daemon/channelmaster.go: userExists, createUser,
--                        login, createChatchannel, getChatchannelList, getChatchannelID;
--                        Database/Accounts: createUser and then login; Database/Channels:
--                        createChatchannel and then getChatchannelID
-- Master                 daemon/channelmaster.go: the state of channelMasterGoroutine
--   Joining, Leaving     joinChatChannel, whoIsOnChatChannel, and its cases for joins and exits
--   Loop                 its `select` loop
--   Sends                its replies on Go channels that a doppelganger has closed
--   Ownership            the Go channels of the running chat channels
-- ChatChannel            daemon/chatchannel.go: chatChannelInfo
--   Joining, Handlers    processMessageFromChannelMaster, tellWhoIsOnChannel,
--                        distributeMessageToEveryoneInChatChannel
--   Loop                 chatChannelGoRoutine
--   Sends                its sends on Go channels that a doppelganger has closed
--   LogFile              logConversationMessage; the path of the file
-- Doppelganger           daemon/doppelganger.go: userInfo, backspaceOut
--   Keys                 a byte of the user, in the stages of the main loop; Keys/Screen: its echo on
--                        a terminal
--   Exit                 handleChannelExitProcedure; Exit/Waiting, Exit/Gone
--   Commands             doCommand
--   Lines                a line, by the login mode
--   Mailbox              genericTextOutput, and the messages of the other goroutines
--   Loop                 doppelgangerGoroutine: start, prompt and main loop
--   Session              what is true between two turns of the loop
--   Terminal             what the user's terminal shows: its lines, a message (Messages, Redraw), a byte
--                        (Typing), a line that is said (Saying, Returns), and all of them over the turns
--                        of the loop (Turns), against Talk, which says what the user sees
--   Requests             the messages to the channel master, over the turns of the loop
-- Telnet                 daemon/servetelnet.go: ServeTELNET
-- Crossings              a user, a chat channel and the channel master together; Crossings/Served: what the
--                        channel master does with the messages of Doppelganger/Requests;
--                        Crossings/Conversation: from the keys of one user over the chat channel to the
--                        terminal of another; Crossings/Twice, Bounce, Late: joins and exits that meet
-- System                 the channel master and one chat channel, with the messages on their way:
--                        steps of the two, and what holds in every state that they lead to
--   Quiet, Rooms         what a message does to the members of the chat channel
--   Settling, Routes     a queue handled to its end; what the channel master sends to it
--   Invariant            the count and the members; Steps, Requests and Preservation keep it, Launch
--                        begins it
--   Handling, Consequences, Safety
--                        what follows for the two goroutines
-- Server                 daemon/wtelnet.go: createDatabase, openDatabase, fileExists and main;
--                        daemon/heartbeat.go: heartbeatGoroutine
-- Tests                  runs on small inputs
--
-- How code is read. A goroutine is a function from its state and an event, what its `select` receives,
-- to the state after it and what it does to the others, in order: a list of effects, or for the
-- doppelganger a trace in its state, the newest first. A run of the loop takes a list of events, so
-- that a theorem about all lists is one about all schedules. A loop is structural recursion on its
-- events, or on the answers of the outside world: `serve_telnet` on the answers to `Read`,
-- `log_conversation_message` on those to `Write`. No definition runs on fuel but `repeat_exit`, whose
-- number is how often the procedure runs; 1001 runs end it.
--
-- Go channels are numbers, and sends do not block. In Go a send on a closed Go channel panics, and the
-- panic ends the program; in the model a send is an effect, in the order of the code, and a turn goes
-- on after it. What a doppelganger closes when it ends is the matter of ChatChannel/Sends and
-- Master/Sends: `sends`, for the Go channels that are closed, cuts a turn of a chat channel or of the
-- channel master at its first send on one of them, where it panics. A theorem that does not name `sends`
-- is about turns in which no such send comes. Sends on the Go channels that a chat channel closes have
-- no such panic in the model either; System says when the channel master sends there.
--
-- A map is an association list; the order in which Go visits it is the parameter `visit`, of which
-- theorems ask that it visits each entry once. An int64 is a number below 2 ^ 64, with -1 as 2 ^ 64
-- - 1; the counts of the channel master are exact for fewer than 2 ^ 64 events. The parameter
-- `fails` says which writes to a connection have an error; the record `Sql` is what the code calls
-- of the database and of bcrypt: its calls give a value, an error or a panic, and a transaction
-- that is not committed is rolled back; the record `Database.Accounts.IsStore` is what a theorem
-- about accounts asks of it, and `Database.Channels.IsChannelStore` one about channels. A line of
-- the conversation log is given without the time in front of it.
--
-- In System each of the two goroutines has its state, and a step of one moves messages: there is a
-- queue in either direction. Other chat channels are not in it, but their messages to the channel
-- master are. Requests of users come in any order and number. `IsProper` says which are proper: a join
-- of the channel by a user who is not on it nor on the way to it, an exit by a member, a request for the
-- members while there are some, and anything about other channels; the code does not check this. The record `Disk` is what the code calls of the file system and of the
-- database driver at the start, and `Server.Files.IsDisk` what a theorem asks of it.
--
-- A terminal is lines of bytes without a right margin (Doppelganger/Keys/Screen, Doppelganger/Terminal): it
-- knows the backspace, the return and the line feed, and every byte from 32 on takes one column.
--
-- Not modelled: timeNow of daemon/helper.go, which reads the clock; and go-telnet-mod, a modified copy of
-- a Telnet library. Buffers of Go channels that are full, and so deadlocks, are not modelled, nor is
-- the time that passes.
pub mod Common
pub mod Message
pub mod Helper
pub mod Database
pub mod Master
pub mod ChatChannel
pub mod Doppelganger
pub mod Telnet
pub mod Crossings
pub mod Server
pub mod System
mod Tests
