-- ===== src/Wire/Prologue/Parse.antt =====
-- What `parse` answers on a wrong magic, on an unknown kind, and on a known one.
use sardp.Base.{ℕ, ◌≡◌, ◌≢◌, refl, List, [], ◌∷◌, ◌++◌, none, arith, err}
use sardp.Base.Eq.{bytes_eq, bytes_beq_iff}
use sardp.Wire.StreamKind.{StreamKind, from_byte, to_byte, from_byte_iff}
use sardp.Wire.Prologue.{magic, magic_mismatch, unknown_kind, parse_context, parse}

-- A buffer of four bytes or more that does not begin with the magic is refused at once.
parse_bad_magic :
    (a b c d : ℕ) (rest : List ℕ)
    → a ∷ b ∷ c ∷ d ∷ [] ≢ magic
    → parse (a ∷ b ∷ c ∷ d ∷ rest) ≡ err magic_mismatch
unfolding parse
parse_bad_magic a b c d rest h = ground (arith, bytes_beq_iff (a ∷ b ∷ c ∷ d ∷ []) magic)

-- Behind the magic an unknown kind is refused as soon as the two bytes after it are there.
parse_bad_kind :
    (kind version : ℕ) (rest : List ℕ)
    → from_byte kind ≡ none
    → parse (magic ++ kind ∷ version ∷ rest) ≡ err (unknown_kind kind)
unfolding parse
parse_bad_kind kind version rest h = ground arith

parse_known :
    (k : StreamKind) (version : ℕ) (rest : List ℕ)
    → parse (magic ++ to_byte k ∷ version ∷ rest)
      ≡ parse_context (magic ++ to_byte k ∷ version ∷ rest) k version
unfolding parse
parse_known k version rest = ground (arith, (from_byte_iff (to_byte k) k).1 refl)
