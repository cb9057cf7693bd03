-- ===== src/Doppelganger/Commands/Words.antt =====
-- daemon/doppelganger.go: how a command is read.
use wtelnet.Common.{
  ℕ, suc, Option, none, some, [], ◌∷◌, ◌++◌, ◌==◌, ltb, ◌&&◌, if◌then◌else◌, Bytes, codes,
  same_text, length, take, drop,
}
use wtelnet.Helper.{trim}

-- `strings.Index(command, " ")`.
unfoldable pub index_space : Bytes → Option ℕ
index_space [] = none
index_space (c ∷ cs) =
    let rest = index_space cs in
    if c == 32 then some 0 else elim rest [ none ↦ none | some i ↦ some (suc i) ]

-- The command and its operand.
unfoldable pub split_command : Bytes → Bytes × Bytes
unfolding index_space
split_command command = elim (index_space command) [
  | none ↦ (command, [])
  | some i ↦ if ltb 0 i then (take i command, trim (drop i command)) else (command, [])
]

-- The first `switch`: what is said, and the command that says it.
unfoldable pub emote_of : Bytes → Bytes → Bytes → Bytes × Bytes
emote_of user_name command operand =
    if same_text command (codes "/say")
    then (codes "/emote", user_name ++ codes " says, \"" ++ operand ++ codes "\"")
    else if same_text command (codes "/think")
    then (codes "/emote", user_name ++ codes " thinks . o O ( " ++ operand ++ codes " )")
    else if same_text command (codes "/sing")
    then (codes "/emote", user_name ++ codes " sings ~ ~ " ++ operand ++ codes " ~ ~")
    else if same_text command (codes "/emote")
    then (command, user_name ++ codes " " ++ operand)
    else (command, [])

-- The optional `#` of `/create`.
unfoldable pub strip_hash : Bytes → Bytes
strip_hash [] = []
strip_hash (c ∷ cs) = if ltb 1 (length (c ∷ cs)) && c == b'#' then trim cs else c ∷ cs

abbrev pub help_text : Bytes
help_text =
    codes
      "\r\n\r\n/list                 -- list channels\r\n/create <channelname> -- create a channel\r\n/join <channelname>   -- join a channel\r\n/who                  -- show who is on the current channel\r\n/exit                 -- exit the current channel\r\n\r\nOnce on a channel:\r\n/say   -- say something on the current channel\r\n/emote -- emote on current channel\r\n/think -- think something on current channel\r\n/sing  -- sing something on current channel\r\n\r\n/help  -- this command\r\n\r\nAbbreviations:\r\n' -- say\r\n; -- emote\r\n\r\n^D log off\r\n\r\n"
