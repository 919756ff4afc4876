-- ===== src/Domain/Identifiers.antt =====
-- packages/domain/attention_sink/domain/identifiers.py: a version token from any identifier. The patterns of the
-- annotated types are not modelled.
pub mod Tokens
use Prim.Native.Char.{Char, code}
use attention_sink.Prelude.{
  ℕ, zero, suc, String, Bool, true, false, ◌&&◌, ◌||◌, List, [], ◌∷◌, leb, nat_beq, ◌==◌, string_eq,
  if◌then◌else◌,
}
use attention_sink.Domain.Errors.{Result, ok, raise, value_error}

abbrev pub in_range : ℕ → ℕ → ℕ → Bool
in_range lo hi c = leb lo c && leb c hi

-- `_is_version_safe`: an ASCII letter or digit, or one of "._+-"
abbrev pub is_version_safe : ℕ → Bool
is_version_safe c =
    in_range b'a' b'z' c
    || in_range b'A' b'Z' c
    || in_range b'0' b'9' c
    || nat_beq c b'.'
    || nat_beq c b'_'
    || nat_beq c b'+'
    || nat_beq c b'-'

abbrev pub is_dash : ℕ → Bool
is_dash c = nat_beq c b'-'

abbrev pub dash : Char
dash = "-"

-- Every character that a version rejects becomes a dash.
abbrev pub render : String → String
render String.[] = ""
render (String.◌∷◌ c s) = String.◌∷◌ (if is_version_safe (code c) then c else dash) (render s)

-- `lstrip("-")`
abbrev pub strip_dashes : String → String
strip_dashes String.[] = ""
strip_dashes (String.◌∷◌ c s) = if is_dash (code c) then strip_dashes s else String.◌∷◌ c s

-- `[:n]`
abbrev pub first : ℕ → String → String
first zero s = ""
first (suc n) String.[] = ""
first (suc n) (String.◌∷◌ c s) = String.◌∷◌ c (first n s)

-- `if not trimmed`
abbrev pub unless_empty : String → Result String
unless_empty String.[] = raise value_error
unless_empty (String.◌∷◌ c s) = ok (String.◌∷◌ c s)

unfoldable pub version_token : String → Result String
version_token text = unless_empty (first 64 (strip_dashes (render text)))
