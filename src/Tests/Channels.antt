-- ===== src/Tests/Channels.antt =====
-- The channel master and the chat channels, on small inputs.
use mathlib.Core.List.{Perm}
use wtelnet.Common.{
  ◌≡◌, refl, ◌≤◌, ◌↔◌, none, some, List, [], ◌∷◌, ◌++◌, map, Bytes, codes, arith, length,
}
use wtelnet.Common.Dict.{lookup, delete}
use wtelnet.Message.{MasterToChannelOp, UserToMasterOp}
use wtelnet.Master.{Master, running, to_user, denied, join_message}
use wtelnet.Master.Loop.{from_user, heartbeat, Event, start}
use wtelnet.Master.Routing.{on_join-lookup, on_exit-lookup}
use wtelnet.Master.Counts.{IsTable, run-start-IsTable}
use wtelnet.ChatChannel.{UserEntry, carry_on, panicked, max_members, notice, conversation, Turn}
use wtelnet.ChatChannel.Handlers.{on_who}
use wtelnet.ChatChannel.Loop.{chat_channel_goroutine, from_master, from_user}
use wtelnet.ChatChannel.Members.{chat_channel-size}
use wtelnet.ChatChannel.Notices.{exit_effect, exit_line, on_exit-tells, on_who-panics}
use wtelnet.ChatChannel.LogFile.{Answer, log_conversation_message, complete}
use wtelnet.ChatChannel.LogFile.Complete.{
  log_conversation_message-complete, log_conversation_message-prefix,
}
use wtelnet.Telnet.{serve_telnet}
use wtelnet.Telnet.Forwarding.{sent_bytes, serve_telnet-forwards}
use wtelnet.Tests.{
  in_order, in_order-IsRound, finds_tea, tea, from_master_about_cat, hello, from_cat, one_running,
}

abbrev a_join_and_an_exit : List Event
a_join_and_an_exit =
    from_user finds_tea (some (from_cat UserToMasterOp.join))
    ∷ heartbeat (some tt)
    ∷ from_user finds_tea (some (from_cat UserToMasterOp.exit))
    ∷ []

run-start-IsTable_example : IsTable 3 (wtelnet.Master.Loop.run start a_join_and_an_exit).0
run-start-IsTable_example = run-start-IsTable a_join_and_an_exit (omega arith)

on_join-lookup_example :
    let t = wtelnet.Master.Joining.on_join finds_tea start (from_cat UserToMasterOp.join) in
    (t.status ≡ running)
    × (lookup 5 t.master.running_map
        ≡ some (record { member_count = 1; chat_channel_callback = 0 }))
    × (t.effects
        ≡ wtelnet.Master.launch 5
            (codes "tea")
            (join_message (from_cat UserToMasterOp.join) MasterToChannelOp.join)
            0
          ∷ [])
unfolding start lookup
on_join-lookup_example =
    on_join-lookup start (from_cat UserToMasterOp.join) finds_tea 5 5 13 (unfold codes in λ e. cc)
      refl (omega arith) refl

on_exit-lookup_example :
    let t = wtelnet.Master.Leaving.on_exit one_running (from_cat UserToMasterOp.exit) in
    (t.status ≡ running)
    × (lookup 5 t.master.running_map ≡ none)
    × (t.effects
        ≡ wtelnet.Master.to_channel 0
            (join_message (from_cat UserToMasterOp.exit) MasterToChannelOp.exit)
          ∷ wtelnet.Master.to_channel 0
              (join_message (from_cat UserToMasterOp.exit) MasterToChannelOp.shutdown)
          ∷ [])
on_exit-lookup_example =
    on_exit-lookup one_running (from_cat UserToMasterOp.exit)
      (record { member_count = 1; chat_channel_callback = 0 }) 5 (omega arith)
      (unfold lookup in refl)

chat_channel-size_example :
    let first = from_master_about_cat MasterToChannelOp.join in
    length
      (chat_channel_goroutine in_order 0 5
        (codes "tea")
        20
        (some 1)
        (λ path. none)
        none
        first
        (from_master (some first) ∷ from_user (some hello) ∷ [])).channel.member_list
    ≤ max_members
chat_channel-size_example =
    let first = from_master_about_cat MasterToChannelOp.join in
    chat_channel-size in_order 0 20 5 (codes "tea") (some 1) (λ path. none) none first
      (from_master (some first) ∷ from_user (some hello) ∷ [])

on_exit-tells_example :
    let msg = from_master_about_cat MasterToChannelOp.exit in
    Perm
      (wtelnet.ChatChannel.Handlers.on_exit in_order tea msg).effects
      (map (exit_effect tea msg) tea.member_list ++ conversation (exit_line tea msg) ∷ [])
    × ((wtelnet.ChatChannel.Handlers.on_exit in_order tea msg).outcome ≡ carry_on)
    × ((wtelnet.ChatChannel.Handlers.on_exit in_order tea msg).channel
        ≡ record tea { member_list = delete 3 tea.member_list })
on_exit-tells_example =
    on_exit-tells in_order in_order-IsRound tea (from_master_about_cat MasterToChannelOp.exit) 20
      (omega arith) refl

on_who-panics_example :
    ((on_who in_order tea (from_master_about_cat MasterToChannelOp.who)).outcome ≡ panicked)
    ↔ (tea.member_list ≡ [])
on_who-panics_example =
    on_who-panics in_order in_order-IsRound tea (from_master_about_cat MasterToChannelOp.who)
      (omega arith)

-- A file that takes a byte, and then two.
abbrev slow_file : List Answer
slow_file =
    record { num_bytes = 1; error = none }
    ∷ record { num_bytes = 2; error = none }
    ∷ record { num_bytes = 1; error = none }
    ∷ []

log_conversation_message-complete_example :
    log_conversation_message (1 ∷ 2 ∷ 3 ∷ []) slow_file ≡ (1 ∷ 2 ∷ 3 ∷ [], complete)
log_conversation_message-complete_example =
    log_conversation_message-complete (1 ∷ 2 ∷ 3 ∷ []) (record { num_bytes = 1; error = none })
      (record { num_bytes = 2; error = none } ∷ record { num_bytes = 1; error = none } ∷ [])
      (refl, omega arith, (refl, omega arith, (refl, omega arith, tt))) (omega arith)

log_conversation_message-prefix_example :
    (rest : Bytes) × ((log_conversation_message (1 ∷ 2 ∷ 3 ∷ 4 ∷ []) slow_file).0 ++ rest
      ≡ 1 ∷ 2 ∷ 3 ∷ 4 ∷ [])
log_conversation_message-prefix_example =
    log_conversation_message-prefix (1 ∷ 2 ∷ 3 ∷ 4 ∷ []) slow_file

abbrev typed_bytes : List wtelnet.Telnet.Answer
typed_bytes =
    record { num_bytes = 1; error = none; byte = 97 }
    ∷ record { num_bytes = 0; error = none; byte = 0 }
    ∷ record { num_bytes = 1; error = none; byte = 4 }
    ∷ record { num_bytes = 1; error = none; byte = 98 }
    ∷ []

serve_telnet-forwards_example : sent_bytes (serve_telnet typed_bytes).0 ≡ 97 ∷ 4 ∷ []
serve_telnet-forwards_example = serve_telnet-forwards typed_bytes
