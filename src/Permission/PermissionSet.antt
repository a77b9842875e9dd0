-- ===== src/Permission/PermissionSet.antt =====
-- src/permission_set.rs: the bits of a `u32`.
use sardp.Base.{ℕ, ◌^◌}

abbrev pub view : ℕ
view = 2 ^ 0

abbrev pub input_keyboard : ℕ
input_keyboard = 2 ^ 1

abbrev pub input_mouse : ℕ
input_mouse = 2 ^ 2

abbrev pub clip_read : ℕ
clip_read = 2 ^ 3

abbrev pub clip_write : ℕ
clip_write = 2 ^ 4

abbrev pub file_up : ℕ
file_up = 2 ^ 5

abbrev pub file_down : ℕ
file_down = 2 ^ 6

abbrev pub audio_playback : ℕ
audio_playback = 2 ^ 7

abbrev pub audio_capture : ℕ
audio_capture = 2 ^ 8

abbrev pub admin : ℕ
admin = 2 ^ 9
