-- ===== src/ChatChannel/LogFile.antt =====
-- daemon/chatchannel.go: `logConversationMessage`, which writes a line to the log of a conversation.
-- The file is not in the repository: its answers to the calls of `Write` are given as a list, the
-- number of bytes that it took and an error.
pub mod Complete
pub mod Path
use wtelnet.Common.{
  ℕ, ◌+◌, Option, none, some, List, [], ◌∷◌, ◌++◌, ◌==◌, ltb, if◌then◌else◌, Bytes, codes, length,
  take, drop, Error,
}
use wtelnet.Helper.{deslash}

-- The path that is given to `os.OpenFile`.
unfoldable pub log_path : Bytes → Bytes
unfolding deslash
log_path chat_channel_name = deslash chat_channel_name ++ codes ".channel.log"

pub record Answer : Type 0 where
  pub num_bytes : ℕ
  pub error : Option Error

-- How a call of `logConversationMessage` ended. It is `waiting` where the list has no more answers.
pub data Logging : Type 0 where
  complete : Logging
  failed : Error → Logging
  waiting : Logging

-- The bytes that reached the file, and how the call ended.
abbrev pub Log : Type 0
Log = Bytes × Logging

-- `for numWritten < len(msgAsBytes) { … }`: a call of `Write` on what is left, for each answer.
unfoldable pub write_rest : Bytes → ℕ → List Answer → Log
write_rest message num_written [] =
    if ltb num_written (length message) then ([], waiting) else ([], complete)
write_rest message num_written (a ∷ answers) =
    let chunk = take a.num_bytes (drop num_written message) in
    let rest = write_rest message (num_written + a.num_bytes) answers in
    if ltb num_written (length message)
    then elim a.error [ some e ↦ (chunk, failed e) | none ↦ (chunk ++ rest.0, rest.1) ]
    else ([], complete)

unfoldable pub log_conversation_message : Bytes → List Answer → Log
unfolding write_rest
log_conversation_message message [] = ([], waiting)
log_conversation_message message (a ∷ answers) =
    let chunk = take a.num_bytes message in
    let rest = write_rest message a.num_bytes answers in
    elim a.error [
      | some e ↦ (chunk, failed e)
      | none ↦
          if a.num_bytes == length message then (chunk, complete) else (chunk ++ rest.0, rest.1)
    ]
