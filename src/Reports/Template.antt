-- ===== src/Reports/Template.antt =====
-- backend/app/reports/template.py: `render_template`, from the tokens of a template on. The stack of
-- contexts is innermost first, and the place in the tokens is what is left of them. A number's
-- written form is the one that `str` gives; what `str` gives of a list or an object is a parameter.
pub mod Blocks
pub mod Escaped
pub mod Fuel
use call_audit_supervisor.Common.{
  ℕ, zero, suc, Bool, true, false, not, ◌&&◌, ◌||◌, Option, none, some, List, [], ◌∷◌, ◌++◌, length,
  ◌==◌, if◌then◌else◌,
}
use call_audit_supervisor.Common.Codes.{Text, codes, text_eq, is_empty, split}
use call_audit_supervisor.Judge.Schema.{
  Json, null, bool, num, str, arr, obj, Jsons, no_items, item, Fields, no_fields, field, get,
}

-- `('text', s)`, `('var', name)`, `('raw', name)`, and the tags `#`, `^` and `/`.
pub data Token : Type 0 where
  text var raw section inverted close : Text → Token

-- The value of a key, where the value is a dict that has it.
abbrev pub member : Text → Json → Option Json
member name (obj fs) = get name fs
member name _ = none

abbrev pub nearest : Text → List Json → Option Json
nearest name [] = none
nearest name (c ∷ cs) = elim (member name c) [ some v ↦ some v | none ↦ nearest name cs ]

-- The rest of a dotted name, in its parts, is empty or a lone dot: it names the value itself.
abbrev pub ends_here : List Text → Bool
ends_here [] = true
ends_here (p ∷ []) = is_empty p
ends_here (p ∷ (q ∷ [])) = is_empty p && is_empty q
ends_here (p ∷ (q ∷ (r ∷ ps))) = false

abbrev pub value_at : List Text → Option Json → Option Json
value_at ps none = none
value_at [] (some v) = some v
value_at (p ∷ ps) (some v) =
    let further = value_at ps (member p v) in if ends_here (p ∷ ps) then some v else further

abbrev pub value_of_parts : List Text → List Json → Option Json
value_of_parts [] stack = none
value_of_parts (head ∷ rest) stack = value_at rest (nearest head stack)

abbrev pub top : List Json → Option Json
top [] = none
top (c ∷ cs) = some c

unfoldable pub lookup : Text → List Json → Option Json
lookup name stack =
    if text_eq name (codes ".") then top stack else value_of_parts (split 46 name) stack

abbrev pub is_zero : Text → Bool
is_zero n = text_eq n (codes "0") || text_eq n (codes "0.0") || text_eq n (codes "-0.0")

abbrev pub truthy : Option Json → Bool
truthy none = false
truthy (some null) = false
truthy (some (bool b)) = b
truthy (some (num n)) = not (is_zero n)
truthy (some (str s)) = not (is_empty s)
truthy (some (arr no_items)) = false
truthy (some (arr (item v vs))) = true
truthy (some (obj no_fields)) = false
truthy (some (obj (field name v fs))) = true

-- `html.escape`, at one character.
unfoldable pub escape_char : ℕ → Text
escape_char c =
    if c == 38
    then codes "&amp;"
    else if c == 60
    then codes "&lt;"
    else if c == 62
    then codes "&gt;"
    else if c == 34
    then codes "&quot;"
    else if c == 39
    then codes "&#x27;"
    else c ∷ []

abbrev pub html_escape : Text → Text
html_escape [] = []
html_escape (c ∷ s) = escape_char c ++ html_escape s

-- The depth of the sections of one name after a token.
abbrev pub depth_after : Text → Token → ℕ → ℕ
depth_after name (section n) d = if text_eq n name then suc d else d
depth_after name (inverted n) d = if text_eq n name then suc d else d
depth_after name (close n) (suc d) = if text_eq n name then d else suc d
depth_after name _ d = d

abbrev pub skip : Text → ℕ → List Token → List Token
skip name zero ts = ts
skip name (suc d) [] = []
skip name (suc d) (t ∷ ts) = skip name (depth_after name t (suc d)) ts

-- `_skip_block`: just after the tag that ends the section.
abbrev pub skip_block : Text → List Token → List Token
skip_block name ts = skip name 1 ts

-- What a block has printed, and the tokens that are left.
abbrev pub Printed : Type 0
Printed = Text × List Token

abbrev pub before : Text → Printed → Printed
before s (out, ts) = (s ++ out, ts)

abbrev pub followed_by : Printed → (List Token → Printed) → Printed
followed_by (out, ts) rest = before out (rest ts)

-- The section once for each item, each time from its start.
abbrev pub each : (Json → Printed) → List Token → Jsons → Printed
each block end no_items = ([], end)
each block end (item v vs) = let (out, rest) = block v in before out (each block rest vs)

-- `val if isinstance(val, dict) else {}`
abbrev pub own_context : Option Json → Json
own_context (some (obj fs)) = obj fs
own_context _ = obj no_fields

abbrev pub once : (Json → Printed) → Text → List Token → Option Json → Printed
once block name ts v = if truthy v then block (own_context v) else ([], skip_block name ts)

abbrev pub section_of : (Json → Printed) → Text → List Token → Option Json → Printed
section_of block name ts (some (arr no_items)) = ([], skip_block name ts)
section_of block name ts (some (arr (item v vs))) = each block ts (item v vs)
section_of block name ts v = once block name ts v

abbrev pub inverted_of : Printed → Text → List Token → Option Json → Printed
inverted_of block name ts v = if truthy v then ([], skip_block name ts) else block

abbrev pub is_stop : Option Text → Text → Bool
is_stop none name = false
is_stop (some stop) name = text_eq name stop

module _ (repr : Json → Text) where
  -- `str`
  abbrev pub shown : Json → Text
  shown null = codes "None"
  shown (bool true) = codes "True"
  shown (bool false) = codes "False"
  shown (num n) = n
  shown (str s) = s
  shown v = repr v

  abbrev pub raw_text : Option Json → Text
  raw_text none = []
  raw_text (some null) = []
  raw_text (some v) = shown v

  unfoldable pub escaped : Option Json → Text
  escaped v = html_escape (raw_text v)

  abbrev pub render_block : ℕ → List Json → Option Text → List Token → Printed
  render_block zero stack stop ts = ([], ts)
  render_block (suc n) stack stop [] = ([], [])
  render_block (suc n) stack stop (text s ∷ ts) = before s (render_block n stack stop ts)
  render_block (suc n) stack stop (var x ∷ ts) =
      before (escaped (lookup x stack)) (render_block n stack stop ts)
  render_block (suc n) stack stop (raw x ∷ ts) =
      before (raw_text (lookup x stack)) (render_block n stack stop ts)
  render_block (suc n) stack stop (section x ∷ ts) =
      followed_by (section_of (λ v. render_block n (v ∷ stack) (some x) ts) x ts (lookup x stack))
        (render_block n stack stop)
  render_block (suc n) stack stop (inverted x ∷ ts) =
      followed_by (inverted_of (render_block n stack (some x) ts) x ts (lookup x stack))
        (render_block n stack stop)
  render_block (suc n) stack stop (close x ∷ ts) =
      let rest = render_block n stack stop ts in if is_stop stop x then ([], ts) else rest

  unfoldable pub render_tokens : List Token → Json → Text
  render_tokens ts context = (render_block (length ts) (context ∷ []) none ts).0
