-- ===== src/Reports/Template/Blocks.antt =====
-- The sections of a template, for a property of what is printed together with the tokens that are
-- left (backend/app/reports/template.py).
use call_audit_supervisor.Common.{inl, inr, Option, none, some, List, [], ◌++◌, Bool-cases}
use call_audit_supervisor.Common.Codes.{Text}
use call_audit_supervisor.Judge.Schema.{Json, null, bool, num, str, arr, obj, Jsons, no_items, item}
use call_audit_supervisor.Reports.Template.{
  Token, truthy, skip_block, Printed, followed_by, each, own_context, once, section_of, inverted_of,
}

-- What a property needs: `IsOk` of the tokens that are left.
pub record Closed (IsGood : Printed → Type 0) (IsOk : List Token → Type 0) : Type 0 where
  pub stays : (ts : List Token) → IsOk ts → IsGood ([], ts)
  pub leaves : (p : Printed) → IsGood p → IsOk p.1
  pub skips : (name : Text) (ts : List Token) → IsOk ts → IsOk (skip_block name ts)
  pub joins : (p q : Printed) → IsGood p → IsGood q → IsGood (p.0 ++ q.0, q.1)

module _ (IsGood : Printed → Type 0) (IsOk : List Token → Type 0)
    (closed : Closed IsGood IsOk) where
  skipped : (name : Text) (ts : List Token) → IsOk ts → IsGood ([], skip_block name ts)
  skipped name ts h = closed.stays (skip_block name ts) (closed.skips name ts h)

  followed_by-IsGood :
      (p : Printed) (rest : List Token → Printed)
      → IsGood p
      → ((ts : List Token) → IsOk ts → IsGood (rest ts))
      → IsGood (followed_by p rest)
  followed_by-IsGood (out, ts) rest good k =
      closed.joins (out, ts) (rest ts) good (k ts (closed.leaves (out, ts) good))

  module _ (block : Json → Printed) (good : (v : Json) → IsGood (block v)) where
    each-IsGood : (end : List Token) (vs : Jsons) → IsOk end → IsGood (each block end vs)
    each-IsGood end no_items h = closed.stays end h
    each-IsGood end (item v vs) h =
        closed.joins (block v) (each block (block v).1 vs) (good v)
          (each-IsGood (block v).1 vs (closed.leaves (block v) (good v)))

    once-IsGood :
        (name : Text) (ts : List Token) (v : Option Json) → IsOk ts → IsGood (once block name ts v)
    once-IsGood name ts v h = elim (Bool-cases (truthy v)) [
      | inl e ↦ rw e (good (own_context v))
      | inr e ↦ rw e (skipped name ts h)
    ]

    pub section_of-IsGood :
        (name : Text) (ts : List Token) (v : Option Json)
        → IsOk ts
        → IsGood (section_of block name ts v)
    section_of-IsGood name ts (some (arr no_items)) h = skipped name ts h
    section_of-IsGood name ts (some (arr (item v vs))) h = each-IsGood ts (item v vs) h
    section_of-IsGood name ts none h = once-IsGood name ts none h
    section_of-IsGood name ts (some null) h = once-IsGood name ts (some null) h
    section_of-IsGood name ts (some (bool b)) h = once-IsGood name ts (some (bool b)) h
    section_of-IsGood name ts (some (num n)) h = once-IsGood name ts (some (num n)) h
    section_of-IsGood name ts (some (str s)) h = once-IsGood name ts (some (str s)) h
    section_of-IsGood name ts (some (obj fs)) h = once-IsGood name ts (some (obj fs)) h

  pub inverted_of-IsGood :
      (block : Printed) (name : Text) (ts : List Token) (v : Option Json)
      → IsGood block
      → IsOk ts
      → IsGood (inverted_of block name ts v)
  inverted_of-IsGood block name ts v good h = elim (Bool-cases (truthy v)) [
    | inl e ↦ rw e (skipped name ts h)
    | inr e ↦ rw e good
  ]

  module _ (rest : List Token → Printed) (later : (ts : List Token) → IsOk ts → IsGood (rest ts))
      (name : Text) (ts : List Token) (v : Option Json) (ok : IsOk ts) where
    pub section-IsGood :
        (block : Json → Printed)
        → ((c : Json) → IsGood (block c))
        → IsGood (followed_by (section_of block name ts v) rest)
    section-IsGood block good =
        followed_by-IsGood (section_of block name ts v) rest
          (section_of-IsGood block good name ts v ok) later

    pub inverted-IsGood :
        (block : Printed) → IsGood block → IsGood (followed_by (inverted_of block name ts v) rest)
    inverted-IsGood block good =
        followed_by-IsGood (inverted_of block name ts v) rest
          (inverted_of-IsGood block name ts v good ok) later
