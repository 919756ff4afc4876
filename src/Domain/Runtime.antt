-- ===== src/Domain/Runtime.antt =====
-- What the code takes from its host: SHA-256 and the generator behind `random.Random(seed).randrange`,
-- and the arithmetic of its floats, which only citation scores and retention densities use.
use Prim.Native.Nat.{Ordering}
use attention_sink.Prelude.{ℕ, ◌<◌, String, ◌≡◌, Bool, true, ◌&&◌, is_le}
use attention_sink.Prelude.Text.{is_hex_digest}

-- `hashlib.sha256(text.encode("utf-8")).hexdigest()`, and `random.Random(int(digest, 16)).randrange(n)`,
-- which is below `n`. A digest is 64 lower-case hexadecimal digits.
pub record Host : Type 0 where
  pub sha256_hexdigest : String → String
  pub randrange : String → ℕ → ℕ
  pub sha256-hex : (text : String) → is_hex_digest (sha256_hexdigest text) ≡ true
  pub randrange-lt : (digest : String) (n : ℕ) → 0 < n → randrange digest n < n

-- The floats that are no NaN, ordered as Python's `<`, `==` and `>` order them, with the operations on
-- them and `repr`.
pub record Float (S : Type 0) : Type 0 where
  pub of_int : ℕ → S
  pub add : S → S → S
  pub mul : S → S → S
  pub div : S → S → S
  pub compare : S → S → Ordering
  pub repr : S → String

module _ {S : Type 0} ⦃float : Float S⦄ where
  -- `a <= b`
  abbrev pub float_leb : S → S → Bool
  float_leb a b = is_le (float.compare a b)

  -- `not a`: only zero is false.
  abbrev pub float_is_zero : S → Bool
  float_is_zero a = float_leb a (float.of_int 0) && float_leb (float.of_int 0) a
