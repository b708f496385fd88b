-- ===== src/Checklists/Parse.antt =====
-- backend/app/checklists/parse.py: a checklist's plain text into the items of the builder. Lines end
-- where `str.splitlines` ends them.
pub mod Wellformed
use call_audit_supervisor.Common.{
  ℕ, Bool, true, false, not, ◌&&◌, ◌||◌, Option, none, some, List, [], ◌∷◌, ◌++◌, map, filter, leb,
  ◌==◌, if◌then◌else◌,
}
use call_audit_supervisor.Common.Codes.{
  Text, codes, text_eq, is_space, is_empty, lstrip, strip, lower, split, starts_with,
}

-- What is raised.
pub data ParseError : Type 0 where
  item_before_section no_question_text no_items : ParseError

pub data Result (A : Type 0) : Type 0 where
  parsed : A → Result A
  failed : ParseError → Result A

infixl 5 ◌>>=◌
abbrev ◌>>=◌ : {A B : Type 0} → Result A → (A → Result B) → Result B
(parsed a) >>= k = k a
(failed e) >>= k = failed e

pub data AnswerType : Type 0 where
  pass_fail pass_fail_na choice text : AnswerType

pub record ParsedItem : Type 0 where
  pub section : Text
  pub text : Text
  pub answer_type : AnswerType
  pub options : Option (List Text)
  pub is_subjective : Bool
  pub risk : Text
  pub guidance : Text

-- The line boundaries of `str.splitlines`; `\r\n` is one.
unfoldable pub is_break : ℕ → Bool
is_break c = (leb 10 c && leb c 13) || (leb 28 c && leb c 30) || c == 133 || c == 8232 || c == 8233

abbrev cons_line : ℕ → List Text → List Text
cons_line c [] = (c ∷ []) ∷ []
cons_line c (l ∷ ls) = (c ∷ l) ∷ ls

abbrev is_newline : Text → Bool
is_newline [] = false
is_newline (c ∷ s) = c == 10

-- The text ends without a line of its own after a last break.
abbrev pub splitlines : Text → List Text
splitlines [] = []
splitlines (c ∷ s) =
    let rest = splitlines s in
    if is_break c then (if c == 13 && is_newline s then rest else [] ∷ rest) else cons_line c rest

-- `_SECTION_RE`, with the strip of its group: a capital, a dot, white space and a title. The line is
-- stripped already.
abbrev title_of : Text → Option Text
title_of s = if is_empty s then none else some s

abbrev pub section_title : Text → Option Text
section_title (a ∷ b ∷ c ∷ s) =
    if leb b'A' a && leb a b'Z' && b == b'.' && is_space c then title_of (strip s) else none
section_title _ = none

abbrev pub has : Text → List Text → Bool
has t [] = false
has t (x ∷ xs) = text_eq t x || has t xs

abbrev all_known : List Text → Bool
all_known [] = true
all_known (x ∷ xs) =
    (text_eq x (codes "yes") || text_eq x (codes "no") || text_eq x (codes "na")) && all_known xs

-- `_classify`
unfoldable pub classify : List Text → AnswerType × Option (List Text) × Bool
classify options =
    let low = map lower options in
    let has_yes_no = has (codes "yes") low && has (codes "no") low in
    if has_yes_no && all_known low
    then (if has (codes "na") low then pass_fail_na else pass_fail, none, false)
    else (choice, some options, not has_yes_no)

-- `s.split(":", 1)[1]`, of a text with a colon.
abbrev pub after_colon : Text → Text
after_colon [] = []
after_colon (c ∷ s) = let rest = after_colon s in if c == b':' then s else rest

abbrev any_prefix : List Text → Text → Bool
any_prefix [] s = false
any_prefix (p ∷ ps) s = starts_with p s || any_prefix ps s

-- `_NOTE_PREFIXES`
abbrev note_prefixes : List Text
note_prefixes =
    codes "notes:"
    ∷ codes "audit notes/reference:"
    ∷ codes "examples:"
    ∷ codes "note:"
    ∷ codes "reference:"
    ∷ []

-- `" ".join(parts)`
abbrev pub joined : List Text → Text
joined [] = []
joined (t ∷ []) = t
joined (t ∷ u ∷ ts) = t ++ b' ' ∷ joined (u ∷ ts)

-- What the lines of an item say.
pub record Parts : Type 0 where
  pub question_parts : List Text
  pub guidance_parts : List Text
  pub options : Option (List Text)

abbrev pub is_response : Text → Bool
is_response s = starts_with (codes "response:") (lower s)

abbrev pub is_note : Text → Bool
is_note s = any_prefix note_prefixes (lower s)

abbrev pub is_comment : Text → Bool
is_comment s = starts_with (codes "comment:") (lower s)

abbrev non_blank : List Text → List Text
non_blank ts = filter (λ t. not (is_empty t)) ts

abbrev pub options_of : Text → List Text
options_of s = non_blank (map strip (split b'/' (after_colon s)))

abbrev pub add_line : Text → Parts → Parts
add_line s p =
    if is_empty s
    then p
    else if is_response s
    then record p { options = some (options_of s) }
    else if is_note s
    then record p { guidance_parts = p.guidance_parts ++ strip (after_colon s) ∷ [] }
    else if is_comment s
    then p
    else record p { question_parts = p.question_parts ++ s ∷ [] }

abbrev pub add_lines : List Text → Parts → Parts
add_lines [] p = p
add_lines (raw ∷ lines) p = add_lines lines (add_line (strip raw) p)

abbrev no_parts : Parts
no_parts = record { question_parts = []; guidance_parts = []; options = none }

abbrev or_text : Text → Text → Text
or_text s t = if is_empty s then t else s

abbrev kind_of : Option (List Text) → AnswerType × Option (List Text) × Bool
kind_of none = (text, none, true)
kind_of (some options) = classify options

abbrev item_of : Text → Text → Parts → (AnswerType × Option (List Text) × Bool) → ParsedItem
item_of section t p (kind, options, subjective) = record {
  section = section;
  text = t;
  answer_type = kind;
  options = options;
  is_subjective = subjective;
  risk = codes "NORMAL";
  guidance = strip (joined p.guidance_parts);
}

abbrev made : Text → Text → Parts → Result ParsedItem
made section t p =
    if is_empty t then failed no_question_text else parsed (item_of section t p (kind_of p.options))

-- The item of a block of lines, its title first.
unfoldable pub item_of_block : Text → Text → List Text → Result ParsedItem
unfolding classify
item_of_block section title lines =
    let p = add_lines lines no_parts in
    made section (or_text (strip (joined p.question_parts)) (strip title)) p

-- The variables of `parse_checklist`.
pub record State : Type 0 where
  pub name : Option Text
  pub section : Option Text
  pub items : List ParsedItem
  pub block : List Text

abbrev flush_block : State → Option Text → List Text → Result State
flush_block st section [] = parsed st
flush_block st none (title ∷ lines) = failed item_before_section
flush_block st (some section) (title ∷ lines) = do
  item ← item_of_block section title lines
  parsed (record st { items = st.items ++ item ∷ []; block = [] })

unfoldable pub flush : State → Result State
unfolding item_of_block
flush st = flush_block st st.section st.block

abbrev name_or : Option Text → Text → Option Text
name_or none s = some s
name_or (some n) s = some n

abbrev in_block : Text → State → Result State
in_block s st =
    if is_comment s
    then flush (record st { block = st.block ++ s ∷ [] })
    else parsed (record st { block = st.block ++ s ∷ [] })

-- A line that is no section header: before the first section the first such line is the name.
abbrev other_line : Text → Option Text → State → Result State
other_line s none st = parsed (record st { name = name_or st.name s })
other_line s (some section) st = in_block s st

abbrev line_of : Text → Option Text → State → Result State
line_of s (some title) st = do st' ← flush st; parsed (record st' { section = some title })
line_of s none st = other_line s st.section st

unfoldable pub read_line : State → Text → Result State
unfolding flush is_space
read_line st raw =
    if is_empty (strip raw) then parsed st else line_of (strip raw) (section_title (strip raw)) st

abbrev pub read_lines : List Text → State → Result State
read_lines [] st = parsed st
read_lines (l ∷ ls) st = do st' ← read_line st l; read_lines ls st'

abbrev start : State
start = record { name = none; section = none; items = []; block = [] }

abbrev outcome : State → Result (Option Text × List ParsedItem)
outcome st = if is_empty st.items then failed no_items else parsed (st.name, st.items)

-- The result has the checklist's name and its items.
unfoldable pub parse_checklist : Text → Result (Option Text × List ParsedItem)
unfolding read_line flush is_break
parse_checklist s = do st ← read_lines (splitlines s) start; st' ← flush st; outcome st'
