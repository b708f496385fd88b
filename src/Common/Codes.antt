-- ===== src/Common/Codes.antt =====
-- Texts as their code points, for the code that walks a text: `strip`, `split`, `upper`, `lower`.
-- The case maps are those of ASCII, with the two letters outside ASCII whose capital is in it.
use Prim.Native.Char.{code}
use call_audit_supervisor.Common.{
  ℕ, ◌+◌, ◌-◌, ◌≡◌, Bool, true, false, ◌&&◌, ◌||◌, List, [], ◌∷◌, map, String, leb, ◌==◌,
  if◌then◌else◌,
}

abbrev pub Text : Type 0
Text = List ℕ

abbrev pub codes : String → Text
codes String.[] = []
codes (String.◌∷◌ c s) = code c ∷ codes s

abbrev pub text_eq : Text → Text → Bool
text_eq [] [] = true
text_eq (a ∷ s) (b ∷ t) = a == b && text_eq s t
text_eq _ _ = false

unfoldable pub upper_char : ℕ → ℕ
upper_char c =
    if leb b'a' c && leb c b'z'
    then c - 32
    else if c == 305
    then b'I'
    else if c == 383
    then b'S'
    else c

unfoldable pub lower_char : ℕ → ℕ
lower_char c = if leb b'A' c && leb c b'Z' then c + 32 else if c == 8490 then b'k' else c

abbrev pub upper : Text → Text
upper = map upper_char

abbrev pub lower : Text → Text
lower = map lower_char

-- The white space that `str.strip` removes, in ASCII and Latin-1.
unfoldable pub is_space : ℕ → Bool
is_space c = (leb 9 c && leb c 13) || (leb 28 c && leb c 32) || c == 133 || c == 160

abbrev pub lstrip : Text → Text
lstrip [] = []
lstrip (c ∷ s) = let rest = lstrip s in if is_space c then rest else c ∷ s

abbrev pub is_empty {ℓ} : {A : Type ℓ} → List A → Bool
is_empty [] = true
is_empty (c ∷ s) = false

-- Puts a character before a text that is stripped on the right.
abbrev cons_rstrip : ℕ → Text → Text
cons_rstrip c s = if is_empty s && is_space c then [] else c ∷ s

abbrev pub rstrip : Text → Text
rstrip [] = []
rstrip (c ∷ s) = cons_rstrip c (rstrip s)

abbrev pub strip : Text → Text
strip s = rstrip (lstrip s)

-- `s.split(sep)` at one character.
abbrev cons_piece : ℕ → List Text → List Text
cons_piece c [] = (c ∷ []) ∷ []
cons_piece c (p ∷ ps) = (c ∷ p) ∷ ps

abbrev pub split : ℕ → Text → List Text
split sep [] = [] ∷ []
split sep (c ∷ s) = let rest = split sep s in if c == sep then [] ∷ rest else cons_piece c rest

abbrev pub starts_with : Text → Text → Bool
starts_with [] s = true
starts_with (c ∷ p) [] = false
starts_with (c ∷ p) (d ∷ s) = c == d && starts_with p s

-- `p in s`
abbrev pub has_part : Text → Text → Bool
has_part p [] = is_empty p
has_part p (c ∷ s) = starts_with p (c ∷ s) || has_part p s

-- A text without white space at its ends.
abbrev pub IsTrimmed : Text → Type 0
IsTrimmed s = (lstrip s ≡ s) × (rstrip s ≡ s)
