-- ===== src/Doppelganger/Session/Keys.antt =====
-- daemon/doppelganger.go: the prompt and the stages for a byte keep a session sound.
use wtelnet.Common.{ℕ, ◌≡◌, Option, Bool, List, Bytes, arith, false, not, ◌&&◌, ◌∙◌, refl, if_split}
use wtelnet.Doppelganger.{UserInfo, Effect, Mode, username}
use wtelnet.Doppelganger.Frame.{Keeps}
use wtelnet.Doppelganger.Keys.{receive, control_sequence, control_code, echo, edit, key}
use wtelnet.Doppelganger.Keys.Refinement.{key-IsReading}
use wtelnet.Doppelganger.Loop.{prompt_of, prompt}
use wtelnet.Doppelganger.Session.{
  asks_password, IsSteady, IsSound, IsPrompted, Keeps-IsPrompted, IsSteady-echo,
}

module _ {Db : Type 0} where
  -- What the stages for a byte leave alone.
  abbrev Same : UserInfo Db → UserInfo Db → Type 0
  Same s t =
      (t.mode ≡ s.mode)
      × (t.user_id ≡ s.user_id)
      × (t.echo_on ≡ s.echo_on)
      × (t.backspace_buffer ≡ s.backspace_buffer)

  receive-Same : (input : Option ℕ) (s : UserInfo Db) → Same s (receive input s).1
  unfolding receive
  receive-Same input s = ground arith

  control_sequence-Same : (c : ℕ) (s : UserInfo Db) → Same s (control_sequence c s).1
  unfolding control_sequence
  control_sequence-Same c s = ground arith

  control_code-Same : (c : ℕ) (s : UserInfo Db) → Same s (control_code c s).1
  unfolding control_code
  control_code-Same c s = ground arith

  echo-Same :
      (fails : List Effect → Bytes → Bool) (c : ℕ) (s : UserInfo Db) → Same s (echo fails c s)
  unfolding echo
  echo-Same fails c s = ground arith

  edit-Same : (c : ℕ) (s : UserInfo Db) → Same s (edit c s)
  unfolding edit
  edit-Same c s = ground arith

  receive-trace : (input : Option ℕ) (s : UserInfo Db) → (receive input s).1.trace ≡ s.trace
  unfolding receive
  receive-trace input s = ground arith

  control_sequence-trace : (c : ℕ) (s : UserInfo Db) → (control_sequence c s).1.trace ≡ s.trace
  unfolding control_sequence
  control_sequence-trace c s = ground arith

  control_code-trace : (c : ℕ) (s : UserInfo Db) → (control_code c s).1.trace ≡ s.trace
  unfolding control_code
  control_code-trace c s = ground arith

  edit-trace : (c : ℕ) (s : UserInfo Db) → (edit c s).trace ≡ s.trace
  unfolding edit
  edit-trace c s = ground arith

module _ {Db : Type 0} (fails : List Effect → Bytes → Bool) where
  key-Same : (input : Option ℕ) (s : UserInfo Db) → Same s (key fails input s).1
  unfolding key
  key-Same input s =
      let (c₁, s₁) = receive input s in
      let (c₂, s₂) = control_sequence c₁ s₁ in
      let (c₃, s₃) = control_code c₂ s₂ in
      ground (
        arith,
        receive-Same input s,
        control_sequence-Same c₁ s₁,
        control_code-Same c₂ s₂,
        echo-Same fails c₃ s₃,
        edit-Same c₃ (echo fails c₃ s₃),
      )

  pub key-IsPrompted :
      (input : Option ℕ) (s : UserInfo Db) → IsPrompted s → IsPrompted (key fails input s).1
  key-IsPrompted input s p =
      let k = key-Same input s in
      record {
        steady = record {
          reading = key-IsReading fails input s p.steady.reading;
          blank = rw k.3 p.steady.blank;
          login = rw (k.0, k.1) p.steady.login;
        };
        silent = rw (k.0, k.2) p.silent;
      }

  -- While the echo is off the stages for a byte write nothing.
  echo_off : (c : ℕ) (s : UserInfo Db) → s.echo_on ≡ false → (echo fails c s).trace ≡ s.trace
  unfolding echo
  echo_off c s h = ground arith

  -- At a prompt for a password no byte that the user types is written to the connection.
  pub key_off :
      (input : Option ℕ) (s : UserInfo Db)
      → s.echo_on ≡ false
      → (key fails input s).1.trace ≡ s.trace
  unfolding key
  key_off input s h =
      let (c₁, s₁) = receive input s in
      let (c₂, s₂) = control_sequence c₁ s₁ in
      let (c₃, s₃) = control_code c₂ s₂ in
      let off : s₃.echo_on ≡ false =
        (control_code-Same c₂ s₂).2
        ∙ (control_sequence-Same c₁ s₁).2
        ∙ (receive-Same input s).2
        ∙ h in
      edit-trace c₃ (echo fails c₃ s₃)
      ∙ echo_off c₃ s₃ off
      ∙ control_code-trace c₂ s₂
      ∙ control_sequence-trace c₁ s₁
      ∙ receive-trace input s

  -- The prompts of the modes that ask for a password turn the echo off.
  prompt_of-Keeps :
      (m : Mode) (s : UserInfo Db)
      → Keeps (record s { echo_on = s.echo_on && not (asks_password m) }) (prompt_of fails m s)
  unfolding prompt_of
  prompt_of-Keeps username s = ground arith
  prompt_of-Keeps _ s = ground arith

  prompt_of-IsPrompted :
      (m : Mode) (s : UserInfo Db) → s.mode ≡ m → IsSteady s → IsPrompted (prompt_of fails m s)
  prompt_of-IsPrompted m s e p = Keeps-IsPrompted (prompt_of-Keeps m s) (record {
    steady = IsSteady-echo (s.echo_on && not (asks_password m)) p;
    silent = rw e (ground arith);
  })

  pub prompt-IsPrompted : (s : UserInfo Db) → IsSound s → IsPrompted (prompt fails s)
  unfolding prompt
  prompt-IsPrompted s p =
      if_split IsPrompted s.prompt_needed (λ _. prompt_of-IsPrompted s.mode s refl p.steady)
        (λ not_due. record { steady = p.steady; silent = ground (arith, p.hidden) })
