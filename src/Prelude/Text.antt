-- ===== src/Prelude/Text.antt =====
-- Texts: `str`, `"".join`, `sep.join`, the decimal digits, and the order of texts by code points.
pub mod Nonempty
use Prim.Native.Nat.{ℕ, zero, suc, ◌-◌, ◌/◌, ◌%◌, compare, Ordering}
use Prim.Native.Char.{code}
use Prim.Native.String.{String, ◌++◌, count}
use mathlib.Core.Path.{◌≡◌, refl}
use mathlib.Core.Bool.{Bool, ◌&&◌, ◌||◌}
use mathlib.Core.List.{List, [], ◌∷◌}
use attention_sink.Prelude.Lists.{all}
use attention_sink.Prelude.Tests.{ltb, leb, nat_beq, is_le, if◌then◌else◌}
use attention_sink.Prelude.Int.{ℤ, pos, negsuc}

abbrev pub codes : String → List ℕ
codes String.[] = []
codes (String.◌∷◌ c s) = code c ∷ codes s

-- The parts of a formatted text, one behind the other.
unfoldable pub concat : List String → String
concat [] = ""
concat (s ∷ ss) = s ++ concat ss

-- `sep.join(parts)`
unfoldable pub join : String → List String → String
join sep [] = ""
join sep (s ∷ []) = s
join sep (s ∷ t ∷ ss) = s ++ (sep ++ join sep (t ∷ ss))

digit : ℕ → String
digit d =
    if nat_beq d 0
    then "0"
    else if nat_beq d 1
    then "1"
    else if nat_beq d 2
    then "2"
    else if nat_beq d 3
    then "3"
    else if nat_beq d 4
    then "4"
    else if nat_beq d 5
    then "5"
    else if nat_beq d 6
    then "6"
    else if nat_beq d 7
    then "7"
    else if nat_beq d 8
    then "8"
    else "9"

-- The decimal digits of `n`, in at most `fuel` places, in front of `tail`.
decimal : ℕ → ℕ → String → String
unfolding digit
decimal zero n tail = tail
decimal (suc fuel) n tail =
    let more = decimal fuel (n / 10) (digit (n % 10) ++ tail) in
    if ltb n 10 then digit n ++ tail else more

-- `str(n)`: a number has at most one more digit than its own value.
unfoldable pub str : ℕ → String
unfolding decimal
str n = decimal (suc n) n ""

unfoldable pub str_ℤ : ℤ → String
unfolding str
str_ℤ (pos n) = str n
str_ℤ (negsuc n) = "-" ++ str (suc n)

pad : ℕ → String → String
pad zero s = s
pad (suc k) s = "0" ++ pad k s

-- `f"{n:06d}"`
unfoldable pub zero_padded : ℕ → String
unfolding str pad
zero_padded n = let s = str n in pad (6 - count s) s

abbrev pub compare_codes : List ℕ → List ℕ → Ordering
compare_codes [] [] = Ordering.eq
compare_codes [] (y ∷ ys) = Ordering.lt
compare_codes (x ∷ xs) [] = Ordering.gt
compare_codes (x ∷ xs) (y ∷ ys) = elim (compare x y) [
  | Ordering.lt ↦ Ordering.lt
  | Ordering.gt ↦ Ordering.gt
  | Ordering.eq ↦ compare_codes xs ys
]

-- Python compares texts by their code points.
unfoldable pub compare_text : String → String → Ordering
compare_text s t = compare_codes (codes s) (codes t)

padded-seven : zero_padded 7 ≡ "000007"
unfolding zero_padded
padded-seven = refl

str-1203 : str 1203 ≡ "1203"
unfolding str
str-1203 = refl

-- `len(s)`
abbrev pub length : String → ℕ
length s = count s

-- `s <= t`, by which `sorted` orders texts.
unfoldable pub text_leb : String → String → Bool
unfolding compare_text
text_leb s t = is_le (compare_text s t)

abbrev in_range : ℕ → ℕ → ℕ → Bool
in_range lo hi c = leb lo c && leb c hi

-- The code points that `str.split()` and `str.strip()` take for white space.
unfoldable pub is_space : ℕ → Bool
is_space c =
    in_range 9 13 c
    || in_range 28 32 c
    || nat_beq c 133
    || nat_beq c 160
    || nat_beq c 5760
    || in_range 8192 8202 c
    || in_range 8232 8233 c
    || nat_beq c 8239
    || nat_beq c 8287
    || nat_beq c 12288

-- `not s.strip()`
unfoldable pub is_blank : String → Bool
unfolding is_space
is_blank s = all is_space (codes s)

-- `^[0-9a-f]{64}$`
unfoldable pub is_hex_digest : String → Bool
is_hex_digest s =
    nat_beq (count s) 64 && all (λ c. in_range b'0' b'9' c || in_range b'a' b'f' c) (codes s)
