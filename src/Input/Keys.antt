-- ===== src/Input/Keys.antt =====
-- src/input_state.rs: which keys the server injects.
use sardp.Base.{ℕ, Bool, true, not, ◌&&◌, ◌||◌, ◌==◌, leb, bit_and, bit_or}
use sardp.Session.Messages.{ImeMode, client_side, remote_side}

abbrev shift : ℕ
shift = 1

abbrev pub ctrl : ℕ
ctrl = 2

abbrev pub alt : ℕ
alt = 4

abbrev pub meta : ℕ
meta = 8

-- A range of the `matches!`, both ends included.
abbrev between : ℕ → ℕ → ℕ → Bool
between low high n = leb low n && leb n high

unfoldable pub is_character_key : ℕ → Bool
is_character_key hid_usage =
    between 0x04 0x27 hid_usage
    || hid_usage == 0x2c
    || between 0x2d 0x38 hid_usage
    || between 0x54 0x57 hid_usage
    || between 0x59 0x63 hid_usage
    || hid_usage == 0x64
    || hid_usage == 0x67
    || hid_usage == 0x85
    || hid_usage == 0x87
    || hid_usage == 0x89

unfoldable pub should_inject_key : ImeMode → ℕ → ℕ → Bool
should_inject_key remote_side hid_usage modifiers = true
should_inject_key client_side hid_usage modifiers =
    let shortcut_modifier = not (bit_and modifiers (bit_or (bit_or ctrl alt) meta) == 0) in
    shortcut_modifier || not (is_character_key hid_usage)
