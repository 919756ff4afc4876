-- ===== src/Domain/Identifiers/Tokens.antt =====
-- packages/domain/attention_sink/domain/identifiers.py: what a version token is made of, and which texts have one.
use Prim.Native.Char.{Char, code}
use mathlib.Core.Path.{subst}
use attention_sink.Prelude.{
  ℕ, zero, suc, ◌≤◌, ◌≡◌, refl, ap, ◌∙◌, String, Bool, true, false, not, ◌&&◌, ◌||◌, List, [], ◌∷◌,
  length, all, any, arith, Bool-cases, and-right, inl, inr,
}
use attention_sink.Prelude.Text.{codes}
use attention_sink.Domain.Errors.{ok}
use attention_sink.Domain.State.Sound.{ok-injective}
use attention_sink.Domain.Identifiers.{
  in_range, is_version_safe, is_dash, render, strip_dashes, first, unless_empty, version_token,
}

-- The characters of a token: safe, and the first one no dash.
unfoldable pub StartsWell : List ℕ → Type 0
StartsWell [] = Unit
StartsWell (c ∷ cs) = is_dash c ≡ false

render-safe : (s : String) → all is_version_safe (codes (render s)) ≡ true
render-safe String.[] = refl
render-safe (String.◌∷◌ c s) = elim (Bool-cases (is_version_safe (code c))) [
  | inl safe ↦ rw safe (rw safe (render-safe s))
  | inr unsafe ↦ rw unsafe (render-safe s)
]

strip-safe :
    (s : String)
    → all is_version_safe (codes s) ≡ true
    → all is_version_safe (codes (strip_dashes s)) ≡ true
strip-safe String.[] h = refl
strip-safe (String.◌∷◌ c s) h = elim (Bool-cases (is_dash (code c))) [
  | inl dashed ↦ rw dashed (strip-safe s (ground arith))
  | inr kept ↦ rw kept h
]

strip-StartsWell : (s : String) → StartsWell (codes (strip_dashes s))
unfolding StartsWell
strip-StartsWell String.[] = tt
strip-StartsWell (String.◌∷◌ c s) = elim (Bool-cases (is_dash (code c))) [
  | inl dashed ↦ rw dashed (strip-StartsWell s)
  | inr kept ↦ rw kept kept
]

first-safe :
    (n : ℕ) (s : String)
    → all is_version_safe (codes s) ≡ true
    → all is_version_safe (codes (first n s)) ≡ true
first-safe zero s h = refl
first-safe (suc n) String.[] h = refl
first-safe (suc n) (String.◌∷◌ c s) h = ground (arith, first-safe n s)

first-StartsWell : (n : ℕ) (s : String) → StartsWell (codes s) → StartsWell (codes (first n s))
unfolding StartsWell
first-StartsWell zero s h = tt
first-StartsWell (suc n) String.[] h = tt
first-StartsWell (suc n) (String.◌∷◌ c s) h = h

first-length : (n : ℕ) (s : String) → length (codes (first n s)) ≤ n
first-length zero s = omega arith
first-length (suc n) String.[] = omega arith
first-length (suc n) (String.◌∷◌ c s) = omega (arith, first-length n s)

-- What a version token promises.
pub record IsToken (v : String) : Type 0 where
  pub nonempty : 1 ≤ length (codes v)
  pub short : length (codes v) ≤ 64
  pub safe : all is_version_safe (codes v) ≡ true
  pub starts : StartsWell (codes v)

unless_empty-eq-ok : (s v : String) → unless_empty s ≡ ok v → (s ≡ v) × (1 ≤ length (codes s))
unless_empty-eq-ok String.[] v h = cc
unless_empty-eq-ok (String.◌∷◌ c s) v h = (ok-injective h, omega arith)

-- If a text has a version token, then it is not empty, has at most 64 characters, each a letter, a digit or one of
-- "._+-", and does not start with a dash.
pub version_token-IsToken : (text v : String) → version_token text ≡ ok v → IsToken v
unfolding version_token
version_token-IsToken text v h =
    let trimmed = first 64 (strip_dashes (render text)) in
    let same = unless_empty-eq-ok trimmed v h in
    let token : IsToken trimmed = record {
      nonempty = same.1;
      short = first-length 64 (strip_dashes (render text));
      safe =
          first-safe 64 (strip_dashes (render text)) (strip-safe (render text) (render-safe text));
      starts = first-StartsWell 64 (strip_dashes (render text)) (strip-StartsWell (render text));
    } in
    subst IsToken same.0 token

-- A character that is lost at the start of a token.
abbrev pub is_lost : ℕ → Bool
is_lost c = not (is_version_safe c) || is_dash c

later-kept : (a b rest : Bool) → b ≡ true → ((not a || b) && rest) ≡ false → rest ≡ false
later-kept a b rest h k = ground arith

unsafe-later : (a b rest : Bool) → a ≡ false → ((not a || b) && rest) ≡ false → rest ≡ false
unsafe-later a b rest h k = ground arith

-- Text that starts with a character.
Begun : String → Type 0
Begun s = (c : Char) × (t : String) × (s ≡ String.◌∷◌ c t)

some_kept : (s : String) → all is_lost (codes s) ≡ false → Begun (strip_dashes (render s))
unfolding Begun
some_kept String.[] h = cc
some_kept (String.◌∷◌ c s) h = elim (Bool-cases (is_version_safe (code c))) [
  | inl safe ↦ elim (Bool-cases (is_dash (code c))) [
    | inl dashed ↦ rw safe (rw dashed (some_kept s (later-kept _ (is_dash (code c)) _ dashed h)))
    | inr kept ↦ rw safe (rw kept (c, render s, refl))
  ]
  | inr unsafe ↦ rw unsafe (some_kept s (unsafe-later _ (is_dash (code c)) _ unsafe h))
]

-- What `VERSION_PATTERN` admits as a first character: an ASCII letter or digit.
abbrev pub may_start : ℕ → Bool
may_start c = in_range b'a' b'z' c || in_range b'A' b'Z' c || in_range b'0' b'9' c

may_start-kept : (c : ℕ) → may_start c ≡ true → is_lost c ≡ false
may_start-kept c h = ground arith

and-no : (a b : Bool) → b ≡ false → (a && b) ≡ false
and-no a b h = ground arith

may_start-all : (cs : List ℕ) → any may_start cs ≡ true → all is_lost cs ≡ false
may_start-all [] h = cc
may_start-all (c ∷ cs) h = elim (Bool-cases (may_start c)) [
  | inl starts ↦ rw (may_start-kept c starts) refl
  | inr other ↦ and-no (is_lost c) _ (may_start-all cs (rw other at h))
]

started : (s : String) → Begun s → (v : String) × (unless_empty (first 64 s) ≡ ok v)
unfolding Begun
started s (c, t, e) = (String.◌∷◌ c (first 63 t), ap (λ r. unless_empty (first 64 r)) e)

render-fixes : (s : String) → all is_version_safe (codes s) ≡ true → render s ≡ s
render-fixes String.[] h = refl
render-fixes (String.◌∷◌ c s) h = elim (Bool-cases (is_version_safe (code c))) [
  | inl safe ↦ rw safe (ap (String.◌∷◌ c) (render-fixes s (and-right _ _ h)))
  | inr unsafe ↦ absurd (ground (arith, unsafe, h))
]

strip-fixes : (s : String) → StartsWell (codes s) → strip_dashes s ≡ s
unfolding StartsWell
strip-fixes String.[] h = refl
strip-fixes (String.◌∷◌ c s) h = rw h refl

first-fixes : (n : ℕ) (s : String) → length (codes s) ≤ n → first n s ≡ s
first-fixes zero String.[] h = refl
first-fixes (suc n) String.[] h = refl
first-fixes zero (String.◌∷◌ c s) h = absurd (omega arith)
first-fixes (suc n) (String.◌∷◌ c s) h = ap (String.◌∷◌ c) (first-fixes n s (omega (arith, h)))

nonempty-ok : (s : String) → 1 ≤ length (codes s) → unless_empty s ≡ ok s
nonempty-ok String.[] h = absurd (omega arith)
nonempty-ok (String.◌∷◌ c s) h = refl

IsToken-fixed : (v : String) → IsToken v → version_token v ≡ ok v
unfolding version_token
IsToken-fixed v token =
    ap (λ s. unless_empty (first 64 (strip_dashes s))) (render-fixes v token.safe)
    ∙ ap (λ s. unless_empty (first 64 s)) (strip-fixes v token.starts)
    ∙ ap unless_empty (first-fixes 64 v token.short)
    ∙ nonempty-ok v token.nonempty

-- A text that has a character which a version may start with, an ASCII letter or digit, has a version token: it is not
-- empty, has at most 64 characters, each a letter, a digit or one of "._+-", does not start with a dash, and is its own
-- token.
pub version_token-eq-ok :
    (text : String)
    → any may_start (codes text) ≡ true
    → (v : String) × (version_token text ≡ ok v) × IsToken v × (version_token v ≡ ok v)
unfolding version_token
version_token-eq-ok text h =
    let (v, e) =
      started (strip_dashes (render text)) (some_kept text (may_start-all (codes text) h)) in
    let token = version_token-IsToken text v e in (v, e, token, IsToken-fixed v token)
