-- ===== src/Permission/AdminCommand.antt =====
-- src/permission_sm.rs: the commands that the server reads from its standard input, one a line.
-- `str::trim` is the standard library's, a parameter.
use sardp.Base.{
  ℕ, ◌≡◌, ◌≢◌, subst, inl, inr, List, [], ◌∷◌, Bool, true, false, Option, some, String, arith,
  Bool-cases,
}
use sardp.Base.Eq.{string_eq, ◌=?◌}
use sardp.Base.Map
use sardp.Permission.PermissionSet.{
  view, input_keyboard, input_mouse, clip_read, clip_write, audio_playback, audio_capture, file_up,
  file_down, admin,
}

pub data AdminCommand : Type 0 where
  toggle_permission : ℕ → Bool → AdminCommand
  send_clipboard : AdminCommand

-- The arms of the `match`, in their order.
abbrev pub commands : List (String × AdminCommand)
commands =
    ("grant-view", toggle_permission view true)
    ∷ ("revoke-view", toggle_permission view false)
    ∷ ("grant-keyboard", toggle_permission input_keyboard true)
    ∷ ("revoke-keyboard", toggle_permission input_keyboard false)
    ∷ ("grant-mouse", toggle_permission input_mouse true)
    ∷ ("revoke-mouse", toggle_permission input_mouse false)
    ∷ ("grant-clip-read", toggle_permission clip_read true)
    ∷ ("revoke-clip-read", toggle_permission clip_read false)
    ∷ ("grant-clip-write", toggle_permission clip_write true)
    ∷ ("revoke-clip-write", toggle_permission clip_write false)
    ∷ ("grant-audio-playback", toggle_permission audio_playback true)
    ∷ ("revoke-audio-playback", toggle_permission audio_playback false)
    ∷ ("grant-audio-capture", toggle_permission audio_capture true)
    ∷ ("revoke-audio-capture", toggle_permission audio_capture false)
    ∷ ("send-clipboard", send_clipboard)
    ∷ []

unfoldable parse_admin_command : (String → String) → String → Option AdminCommand
parse_admin_command trim line = Map.lookup (trim line) commands

-- A command toggles no bit but those of the screen, the input, the clipboard and the audio.
abbrev IsHarmless : AdminCommand → Type 0
IsHarmless (toggle_permission bit grant) = (bit ≢ file_up) × (bit ≢ file_down) × (bit ≢ admin)
IsHarmless send_clipboard = Unit {0}

abbrev AllHarmless : List (String × AdminCommand) → Type 0
AllHarmless [] = Unit {0}
AllHarmless ((name, command) ∷ rows) = IsHarmless command × AllHarmless rows

lookup-AllHarmless :
    (line : String) (rows : List (String × AdminCommand)) (command : AdminCommand)
    → AllHarmless rows
    → Map.lookup line rows ≡ some command
    → IsHarmless command
unfolding Map.lookup
lookup-AllHarmless line [] command h e = ground arith
lookup-AllHarmless line ((name, c) ∷ rows) command h e = elim (Bool-cases (name =? line)) [
  | inl same ↦ subst IsHarmless (ground arith) h.0
  | inr other ↦ lookup-AllHarmless line rows command h.1 (ground arith)
]

commands-AllHarmless : AllHarmless commands
commands-AllHarmless = ground arith

-- No line of the standard input grants or revokes a file transfer or the administrator's bit.
never_admin :
    (trim : String → String) (line : String) (command : AdminCommand)
    → parse_admin_command trim line ≡ some command
    → IsHarmless command
unfolding parse_admin_command
never_admin trim line command e =
    lookup-AllHarmless (trim line) commands command commands-AllHarmless e
