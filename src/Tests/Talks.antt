-- ===== src/Tests/Talks.antt =====
-- A conversation, on small inputs.
use mathlib.Core.List.Memᴰ.{}
use wtelnet.Common.{
  Bool, leb, ◌&&◌, ◌≡◌, true, Bytes, none, [], ◌∷◌, false, length, refl, some, List, codes, arith,
  map, same_text,
}
use wtelnet.Message.{ChannelToUser, ChannelToUserOp}
use wtelnet.Doppelganger.{UserInfo, wrote, blanks}
use wtelnet.Helper.{trim, trim_left}
use wtelnet.Doppelganger.Keys.{receive, control_sequence, control_code, echo, edit, key}
use wtelnet.Doppelganger.Commands.{execute, do_command}
use wtelnet.Doppelganger.Commands.Words.{split_command, index_space, emote_of}
use wtelnet.Doppelganger.Lines.{command_of, on_command, by_mode, handle_line}
use wtelnet.Doppelganger.Loop.{
  Event, from_telnet, from_channel, prompt_of, prompt, finish_turn, on_key, on_event, turn, run,
}
use wtelnet.Doppelganger.Terminal.Saying.{IsTalking}
use wtelnet.Doppelganger.Terminal.Talk.{AreCalm}
use wtelnet.Doppelganger.Keys.Typing.{view}
use wtelnet.Doppelganger.Commands.Speech.{text_message}
use wtelnet.Doppelganger.Commands.{on_emote, send_emote}
use wtelnet.Doppelganger.Mailbox.{
  on_channel_message, by_channel_op, on_text_exit, generic_text_output,
}
use wtelnet.Doppelganger.{backspace_out, grow_backspace_buffer}
use wtelnet.Doppelganger.Terminal.{said, IsPrintable}
use wtelnet.Doppelganger.Terminal.Messages.{IsAtPrompt}
use wtelnet.Doppelganger.Terminal.Turns.{IsShown, run-IsShown}
use wtelnet.Crossings.Conversation.{mail, talked, loop-mail}
use wtelnet.Crossings.Conversation.Heard.{delivered, received, Reads, ArePrintable, said-heard}
use wtelnet.ChatChannel.Handlers.{text_copy}
use wtelnet.Doppelganger.Commands.Speech.{says}
use wtelnet.Doppelganger.Terminal.{page}
use wtelnet.Doppelganger.Terminal.Talk.{speeches}
use wtelnet.Message.{UserToChannel}
use wtelnet.Tests.{tea, in_order, in_order-IsRound, amy_on_tea, one_user, quiet}

abbrev is_printable : Bytes → Bool
is_printable [] = true
is_printable (c ∷ cs) = leb 32 c && is_printable cs

printable : (text : Bytes) → is_printable text ≡ true → IsPrintable text
printable [] h = tt
printable (c ∷ cs) h = (ground (arith, h), printable cs (ground (arith, h)))

-- Amy on a channel, with three bytes typed at her prompt.
abbrev amys_prompt : Bytes
amys_prompt = codes "amy #tea> "

abbrev amy_typing : UserInfo (Unit {0})
amy_typing = record amy_on_tea {
  chat_channel_name = codes "tea";
  prompt_len = length amys_prompt;
  trace = wrote (codes "abc") false ∷ wrote amys_prompt false ∷ [];
}

amy_typing-IsAtPrompt : IsAtPrompt amys_prompt (prompt quiet amy_typing)
unfolding prompt codes blanks
amy_typing-IsAtPrompt = record {
  in_command_mode = refl;
  still_there = refl;
  echoed = refl;
  reading = record {
    in_range = record {
      cursor_in_line = omega arith;
      position_in_sequence = omega arith;
      sequence_of_three = refl;
    };
    began = λ h. absurd (h refl);
    no_return_before = refl;
  };
  blank = refl;
  prompt_is = refl;
  prompt_len_is = refl;
  printable = (refl, (refl, (refl, tt)));
  shows = record { line = refl; blank = tt };
}

amys_prompt-printable : is_printable amys_prompt ≡ true
unfolding codes
amys_prompt-printable = refl

bob-IsPrintable : IsPrintable (codes "bob!")
unfolding codes
bob-IsPrintable = printable (codes "bob!") refl

abbrev bob_says : ChannelToUserOp → ChannelToUser
bob_says op = record {
  operation = op;
  originator = 8;
  chat_channel_id = 5;
  leaving_doppelganger_id = 2;
  parameter = codes "bob!";
  chat_channel_callback = none;
}

-- A byte, a message, a backspace, a return, and the exit of another member.
abbrev bob_interrupts : List Event
bob_interrupts =
    from_telnet (some 100)
    ∷ from_channel (some (bob_says ChannelToUserOp.text_message))
    ∷ from_telnet (some 127)
    ∷ from_telnet (some 13)
    ∷ from_channel (some (bob_says ChannelToUserOp.text_exit))
    ∷ []

amy_typing-IsTalking : IsTalking 7 (codes "amy") 20 (prompt quiet amy_typing)
unfolding prompt
amy_typing-IsTalking = record {
  is_user = refl;
  known = omega arith;
  is_named = refl;
  on_channel = omega arith;
  reached = refl;
}

bob_interrupts-AreCalm : AreCalm 1 (view (prompt quiet amy_typing)) bob_interrupts
unfolding prompt codes trim trim_left same_text
bob_interrupts-AreCalm = (
  (refl, λ h. refl),
  ((tt, bob-IsPrintable), ((refl, λ h. refl), ((refl, λ h. refl), ((refl, bob-IsPrintable), tt)))),
)

run-IsShown_example :
    IsShown one_user quiet amys_prompt 7
      (codes "amy")
      20
      bob_interrupts
      amy_typing
      (run one_user quiet amy_typing bob_interrupts)
run-IsShown_example =
    run-IsShown one_user quiet (λ trace text. refl) amys_prompt 7 (codes "amy") 20 bob_interrupts
      amy_typing (printable amys_prompt amys_prompt-printable) bob_interrupts-AreCalm
      amy_typing-IsAtPrompt amy_typing-IsTalking

-- What Amy typed was sent.
amy-said :
    said (run one_user quiet amy_typing bob_interrupts).state.trace
    ≡ (20, text_message 7 (codes "amy says, \"abc\"")) ∷ []
unfolding run turn on_event on_key key receive control_sequence control_code echo edit prompt
    prompt_of finish_turn handle_line by_mode on_command command_of do_command execute split_command
    index_space emote_of trim trim_left codes same_text on_emote send_emote on_channel_message
    by_channel_op on_text_exit generic_text_output backspace_out grow_backspace_buffer blanks
amy-said = refl

-- Bob, on the same channel, with the same three bytes typed.
abbrev bobs_prompt : Bytes
bobs_prompt = codes "bob #tea> "

abbrev bob_typing : UserInfo (Unit {0})
bob_typing = record amy_typing {
  user_id = 8;
  user_name = codes "bob";
  doppelganger_id = 2;
  incoming_from_channel_master = 13;
  incoming_from_chat_channel = 12;
  prompt_len = length bobs_prompt;
  trace = wrote (codes "abc") false ∷ wrote bobs_prompt false ∷ [];
}

bob_typing-IsAtPrompt : IsAtPrompt bobs_prompt (prompt quiet bob_typing)
unfolding prompt codes blanks
bob_typing-IsAtPrompt = record {
  in_command_mode = refl;
  still_there = refl;
  echoed = refl;
  reading = record {
    in_range = record {
      cursor_in_line = omega arith;
      position_in_sequence = omega arith;
      sequence_of_three = refl;
    };
    began = λ h. absurd (h refl);
    no_return_before = refl;
  };
  blank = refl;
  prompt_is = refl;
  prompt_len_is = refl;
  printable = printable (codes "abc") refl;
  shows = record { line = refl; blank = tt };
}

bob_typing-IsTalking : IsTalking 8 (codes "bob") 20 (prompt quiet bob_typing)
unfolding prompt
bob_typing-IsTalking = record {
  is_user = refl;
  known = omega arith;
  is_named = refl;
  on_channel = omega arith;
  reached = refl;
}

nothing_sent : said (prompt quiet amy_typing).trace ≡ []
unfolding prompt
nothing_sent = refl

bobs_prompt-printable : is_printable bobs_prompt ≡ true
unfolding codes
bobs_prompt-printable = refl

amys_lines : speeches (view (prompt quiet amy_typing)) bob_interrupts ≡ codes "abc" ∷ []
unfolding prompt codes trim trim_left same_text
amys_lines = refl

amys_lines-ArePrintable :
    ArePrintable (codes "amy") (speeches (view (prompt quiet amy_typing)) bob_interrupts)
unfolding prompt codes trim trim_left same_text
amys_lines-ArePrintable = (printable (says (codes "amy") (codes "abc")) refl, tt)

said-heard_example :
    let sent =
      delivered 20
        (said (prompt quiet (run one_user quiet amy_typing bob_interrupts).state).trace) in
    let letters = mail 12 (wtelnet.ChatChannel.Loop.loop in_order 30 tea (talked sent)).effects in
    let t = (run one_user quiet bob_typing (received letters)).state in
    IsAtPrompt bobs_prompt (prompt quiet t)
    × (view (prompt quiet t) ≡ view (prompt quiet bob_typing))
    × Reads
        (codes "amy")
        (speeches (view (prompt quiet amy_typing)) bob_interrupts)
        (page (prompt quiet bob_typing).trace).0
        (page (prompt quiet t).trace).0
said-heard_example =
    said-heard one_user quiet (λ trace text. refl) amys_prompt bobs_prompt (codes "amy")
      (codes "bob") 7 8 20 20 30 bob_interrupts amy_typing bob_typing tea in_order
      (printable amys_prompt amys_prompt-printable) bob_interrupts-AreCalm amy_typing-IsAtPrompt
      amy_typing-IsTalking nothing_sent (printable bobs_prompt bobs_prompt-printable)
      bob_typing-IsAtPrompt bob_typing-IsTalking in_order-IsRound refl amys_lines-ArePrintable

abbrev two_texts : List UserToChannel
two_texts = text_message 7 (codes "hi") ∷ text_message 8 (codes "ho") ∷ []

loop-mail_example :
    mail 12 (wtelnet.ChatChannel.Loop.loop in_order 30 tea (talked two_texts)).effects
    ≡ map (text_copy tea) two_texts
loop-mail_example = loop-mail in_order in_order-IsRound 30 12 tea two_texts refl (refl, (refl, tt))
