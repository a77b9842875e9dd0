-- ===== src/Wire/Prologue.antt =====
-- src/prologue.rs: the first bytes of every stream.
pub mod Parse
pub mod RoundTrip
use sardp.Base.{
  ℕ, ◌+◌, List, [], ◌∷◌, ◌++◌, Option, none, some, Result, ok, err, length, take, drop, get_or, ltb,
  if◌then◌else◌,
}
use sardp.Base.Eq.{◌=?◌, bytes_eq}
use sardp.Wire.Varint.{incomplete}
use sardp.Wire.Varint
use sardp.Wire.StreamKind.{StreamKind, from_byte, to_byte}

-- "SARD".
abbrev pub magic : List ℕ
magic = 0x53 ∷ 0x41 ∷ 0x52 ∷ 0x44 ∷ []

pub record StreamPrologue : Type 0 where
  pub kind : StreamKind
  pub version : ℕ
  pub context_id : ℕ

pub data PrologueError : Type 0 where
  magic_mismatch : PrologueError
  unknown_kind : ℕ → PrologueError

-- Appends to `out`. `none` is the panic of `varint::encode`.
unfoldable pub encode : StreamKind → ℕ → ℕ → List ℕ → Option (List ℕ)
encode kind version context_id out =
    Varint.encode context_id (out ++ magic ++ to_byte kind ∷ version ∷ [])

-- The context id, once the kind is known.
unfoldable pub parse_context :
    List ℕ → StreamKind → ℕ → Result PrologueError (Option (StreamPrologue × ℕ))
parse_context buf kind version = elim (Varint.decode (drop 6 buf)) [
  | err incomplete ↦ ok none
  | ok (context_id, context_id_len) ↦ ok (
      some (record { kind = kind; version = version; context_id = context_id }, 6 + context_id_len))
]

unfoldable pub parse : List ℕ → Result PrologueError (Option (StreamPrologue × ℕ))
unfolding parse_context
parse buf =
    if ltb (length buf) 4
    then ok none
    else if take 4 buf =? magic
    then (if ltb (length buf) 6
        then ok none
        else (let kind_byte = get_or buf 4 0 in
            let version = get_or buf 5 0 in
            elim (from_byte kind_byte) [
              | none ↦ err (unknown_kind kind_byte)
              | some kind ↦ parse_context buf kind version
            ]))
    else err magic_mismatch
