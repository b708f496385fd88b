-- ===== src/Checklists/Parse/Wellformed.antt =====
-- What `parse_checklist` of backend/app/checklists/parse.py gives, for every text.
use mathlib.Core.Path.{subst}
use call_audit_supervisor.Common.{
  ℕ, ◌≡◌, refl, sym, ◌⊎◌, inl, inr, Bool, true, false, Option, none, some, List, [], ◌∷◌, ◌++◌, All,
  All-append, Bool-cases, arith,
}
use call_audit_supervisor.Common.Codes.{Text, is_empty, strip, is_space, lstrip, rstrip}
use call_audit_supervisor.Checklists.Parse.{
  no_items, Result, parsed, failed, AnswerType, pass_fail, pass_fail_na, choice, text, ParsedItem,
  State, ◌>>=◌, start, title_of, section_title, classify, kind_of, Parts, add_lines, no_parts,
  or_text, joined, made, item_of_block, flush_block, flush, in_block, other_line, line_of,
  read_line, read_lines, outcome, parse_checklist, is_comment, splitlines,
}

-- Options are there for a choice and only there, and a free text is subjective.
abbrev pub HasKind : AnswerType → Option (List Text) → Bool → Type 0
HasKind text none subjective = subjective ≡ true
HasKind pass_fail none subjective = subjective ≡ false
HasKind pass_fail_na none subjective = subjective ≡ false
HasKind choice (some options) subjective = Unit {0}
HasKind _ _ _ = ⊥

pub record IsItem (x : ParsedItem) : Type 0 where
  pub has_text : is_empty x.text ≡ false
  pub has_section : is_empty x.section ≡ false
  pub kind : HasKind x.answer_type x.options x.is_subjective

-- The result is there, and has the property.
abbrev Always : {A : Type 0} → (A → Type 0) → Result A → Type 0
Always P (parsed a) = P a
Always P (failed e) = ⊥

Always-bind :
    {A B : Type 0} (P : A → Type 0) (Q : B → Type 0) (m : Result A) (k : A → Result B)
    → Always P m
    → ((a : A) → P a → Always Q (k a))
    → Always Q (m >>= k)
Always-bind P Q (parsed a) k h g = g a h
Always-bind P Q (failed e) k h g = absurd h

classify-HasKind :
    (options : List Text) → HasKind (classify options).0 (classify options).1 (classify options).2
unfolding classify
classify-HasKind options = ground arith

kind_of-HasKind : (o : Option (List Text)) → HasKind (kind_of o).0 (kind_of o).1 (kind_of o).2
kind_of-HasKind none = refl
kind_of-HasKind (some options) = classify-HasKind options

lstrip-lead :
    (s : Text)
    → (lstrip s ≡ []) ⊎ ((c : ℕ) × (s' : Text) × (lstrip s ≡ c ∷ s') × (is_space c ≡ false))
lstrip-lead [] = inl refl
lstrip-lead (c ∷ s) = elim (Bool-cases (is_space c)) [
  | inl e ↦ rw e (lstrip-lead s)
  | inr e ↦ rw e (inr (c, s, refl, e))
]

lead-nonempty : (c : ℕ) (s : Text) → is_space c ≡ false → is_empty (strip (rstrip (c ∷ s))) ≡ false
lead-nonempty c s h = ground (arith, h)

-- A text that is not blank is not blank once stripped: what is left starts with the same character.
strip-nonempty : (s : Text) → is_empty (strip s) ≡ false → is_empty (strip (strip s)) ≡ false
strip-nonempty s h = elim (lstrip-lead s) [
  | inl e ↦ cc
  | inr (c, s', e, b) ↦ rw e (lead-nonempty c s' b)
]

or_text-nonempty : (s t : Text) → is_empty t ≡ false → is_empty (or_text s t) ≡ false
or_text-nonempty [] t h = h
or_text-nonempty (c ∷ s) t h = refl

made-Always :
    (section t : Text) (p : Parts)
    → is_empty section ≡ false
    → is_empty t ≡ false
    → Always IsItem (made section t p)
made-Always section t p hs ht =
    rw ht (record { has_text = ht; has_section = hs; kind = kind_of-HasKind p.options })

block-Always :
    (section title : Text) (lines : List Text)
    → is_empty section ≡ false
    → is_empty (strip title) ≡ false
    → Always IsItem (item_of_block section title lines)
unfolding item_of_block
block-Always section title lines hs ht =
    made-Always section _ (add_lines lines no_parts) hs
      (or_text-nonempty (strip (joined (add_lines lines no_parts).question_parts)) (strip title) ht)

-- A section is not blank, and before the first there is no block.
abbrev SectionOk : Option Text → List Text → Type 0
SectionOk none [] = Unit {0}
SectionOk none (l ∷ ls) = ⊥
SectionOk (some s) block = is_empty s ≡ false

record Good (st : State) : Type 0 where
  pub items : All IsItem st.items
  pub section : SectionOk st.section st.block
  pub block : All (λ l. is_empty (strip l) ≡ false) st.block

-- After a flush the block is empty.
record Flushed (st st' : State) : Type 0 where
  pub good : Good st'
  pub section : st'.section ≡ st.section
  pub block : st'.block ≡ []
  pub name : st'.name ≡ st.name

section_at :
    (st : State) (o : Option Text) (b : List Text)
    → st.section ≡ o
    → st.block ≡ b
    → Good st
    → SectionOk o b
section_at st o b hs hb good =
    subst (λ x. SectionOk x b) hs (subst (λ y. SectionOk st.section y) hb good.section)

flush_block-Always :
    (st : State) (section : Option Text) (block : List Text)
    → st.section ≡ section
    → st.block ≡ block
    → Good st
    → Always (Flushed st) (flush_block st section block)
flush_block-Always st section [] hs hb good = record {
  good = good;
  section = refl;
  block = hb;
  name = refl;
}
flush_block-Always st none (title ∷ lines) hs hb good =
    absurd (section_at st none (title ∷ lines) hs hb good)
flush_block-Always st (some section) (title ∷ lines) hs hb good =
    Always-bind IsItem (Flushed st) (item_of_block section title lines)
      (λ item. parsed (record st { items = st.items ++ item ∷ []; block = [] }))
      (block-Always section title lines (section_at st (some section) (title ∷ lines) hs hb good)
        (subst (All (λ l. is_empty (strip l) ≡ false)) hb good.block).0)
      (λ item ok. record {
        good = record {
          items = All-append IsItem st.items (item ∷ []) good.items (ok, tt);
          section =
              subst (λ x. SectionOk x []) (sym hs)
                (section_at st (some section) (title ∷ lines) hs hb good);
          block = tt;
        };
        section = refl;
        block = refl;
        name = refl;
      })

flush-Always : (st : State) → Good st → Always (Flushed st) (flush st)
unfolding flush
flush-Always st good = flush_block-Always st st.section st.block refl refl good

Always-map :
    {A : Type 0} (P Q : A → Type 0) (m : Result A) → ((a : A) → P a → Q a) → Always P m → Always Q m
Always-map P Q (parsed a) g h = g a h
Always-map P Q (failed e) g h = h

longer-Good :
    (s section : Text) (st : State)
    → st.section ≡ some section
    → is_empty (strip s) ≡ false
    → Good st
    → Good (record st { block = st.block ++ s ∷ [] })
longer-Good s section st hs h good = record {
  items = good.items;
  section =
      subst (λ x. SectionOk x (st.block ++ s ∷ [])) (sym hs)
        (section_at st (some section) st.block hs refl good);
  block = All-append _ st.block (s ∷ []) good.block (h, tt);
}

in_block-Always :
    (s section : Text) (st : State)
    → st.section ≡ some section
    → is_empty (strip s) ≡ false
    → Good st
    → Always Good (in_block s st)
in_block-Always s section st hs h good = elim (Bool-cases (is_comment s)) [
  | inl e ↦ rw e (
      Always-map (Flushed (record st { block = st.block ++ s ∷ [] })) Good
        (flush (record st { block = st.block ++ s ∷ [] })) (λ st' flushed. flushed.good)
        (flush-Always (record st { block = st.block ++ s ∷ [] })
          (longer-Good s section st hs h good)))
  | inr e ↦ rw e (longer-Good s section st hs h good)
]

other_line-Always :
    (s : Text) (section : Option Text) (st : State)
    → st.section ≡ section
    → is_empty (strip s) ≡ false
    → Good st
    → Always Good (other_line s section st)
other_line-Always s none st hs h good = record {
  items = good.items;
  section = good.section;
  block = good.block;
}
other_line-Always s (some section) st hs h good = in_block-Always s section st hs h good

title_of-nonempty : (s title : Text) → title_of s ≡ some title → is_empty title ≡ false
title_of-nonempty [] title h = cc
title_of-nonempty (c ∷ s) title h = ground (arith, h)

section_title-nonempty : (s title : Text) → section_title s ≡ some title → is_empty title ≡ false
section_title-nonempty [] title h = cc
section_title-nonempty (a ∷ []) title h = cc
section_title-nonempty (a ∷ b ∷ []) title h = cc
section_title-nonempty (a ∷ b ∷ c ∷ s) title h = ground (arith, title_of-nonempty (strip s) title)

line_of-Always :
    (s : Text) (o : Option Text) (st : State)
    → section_title s ≡ o
    → is_empty (strip s) ≡ false
    → Good st
    → Always Good (line_of s o st)
line_of-Always s none st ho h good = other_line-Always s st.section st refl h good
line_of-Always s (some title) st ho h good =
    Always-bind (Flushed st) Good (flush st) (λ st'. parsed (record st' { section = some title }))
      (flush-Always st good)
      (λ st' flushed. record {
        items = flushed.good.items;
        section = section_title-nonempty s title ho;
        block = flushed.good.block;
      })

read_line-Always : (st : State) (raw : Text) → Good st → Always Good (read_line st raw)
unfolding read_line
read_line-Always st raw good = elim (Bool-cases (is_empty (strip raw))) [
  | inl e ↦ rw (e, read_line) good
  | inr e ↦
      rw (e, read_line)
        (line_of-Always (strip raw) (section_title (strip raw)) st refl (strip-nonempty raw e) good)
]

read_lines-Always : (ls : List Text) (st : State) → Good st → Always Good (read_lines ls st)
read_lines-Always [] st good = good
read_lines-Always (l ∷ ls) st good =
    Always-bind Good Good (read_line st l) (read_lines ls) (read_line-Always st l good)
      (λ st' good'. read_lines-Always ls st' good')

-- Items that are all well formed, and at least one; or the error that there are none.
abbrev pub IsOutcome : Result (Option Text × List ParsedItem) → Type 0
IsOutcome (parsed (name, items)) = All IsItem items × (is_empty items ≡ false)
IsOutcome (failed e) = e ≡ no_items

outcome-IsOutcome : (st : State) → Good st → IsOutcome (outcome st)
outcome-IsOutcome st good = elim (Bool-cases (is_empty st.items)) [
  | inl e ↦ rw e refl
  | inr e ↦ rw e (good.items, e)
]

then-IsOutcome :
    (P : State → Type 0) (m : Result State) (k : State → Result (Option Text × List ParsedItem))
    → Always P m
    → ((st : State) → P st → IsOutcome (k st))
    → IsOutcome (m >>= k)
then-IsOutcome P (parsed st) k h g = g st h
then-IsOutcome P (failed e) k h g = absurd h

-- Every text either gives items, at least one and all well formed (a question that is not empty, a
-- section, options exactly where a choice is asked for, and free text always subjective), or is
-- refused because it has no items: the other two errors of the parser cannot occur.
pub parse_checklist_lem : (s : Text) → IsOutcome (parse_checklist s)
unfolding parse_checklist
parse_checklist_lem s =
    then-IsOutcome Good (read_lines (splitlines s) start) (λ st. flush st >>= outcome)
      (read_lines-Always (splitlines s) start (record { items = tt; section = tt; block = tt }))
      (λ st good.
        then-IsOutcome (Flushed st) (flush st) outcome (flush-Always st good)
          (λ st' flushed. outcome-IsOutcome st' flushed.good))
