-- ===== src/Judge/Schema.antt =====
-- backend/app/judge/schema_validate.py: the check of an uploaded output schema. Texts are their code
-- points; a number keeps its written form.
pub mod Contract
pub mod Defaults
pub mod Accepted
use call_audit_supervisor.Common.{
  ℕ, zero, suc, ◌+◌, Bool, true, false, not, ◌&&◌, ◌||◌, Option, none, some, List, [], ◌∷◌, ◌++◌,
  String, decimal, if◌then◌else◌,
}
use call_audit_supervisor.Common.Codes.{Text, codes, text_eq, split}

mutual
  -- A JSON value; the keys of an object are distinct.
  pub data Json : Type 0 where
    null : Json
    bool : Bool → Json
    num : Text → Json
    str : Text → Json
    arr : Jsons → Json
    obj : Fields → Json

  pub data Jsons : Type 0 where
    no_items : Jsons
    item : Json → Jsons → Jsons

  pub data Fields : Type 0 where
    no_fields : Fields
    field : Text → Json → Fields → Fields

-- What is raised: `SchemaError` with its text, or the `TypeError` of looking for a dict or a list in
-- a set.
pub data Failure : Type 0 where
  schema_error : Text → Failure
  type_error : Failure

-- The first failure of two checks in a row.
abbrev pub first_of : Option Failure → Option Failure → Option Failure
first_of none e = e
first_of (some f) e = some f

abbrev pub elem : Text → List Text → Bool
elem t [] = false
elem t (x ∷ xs) = text_eq t x || elem t xs

abbrev pub stages : List Text
stages = codes "feedback" ∷ codes "checklist" ∷ codes "ideal" ∷ codes "merged" ∷ []

-- `_UNSUPPORTED`
abbrev pub unsupported : List Text
unsupported =
    codes "$ref"
    ∷ codes "oneOf"
    ∷ codes "anyOf"
    ∷ codes "allOf"
    ∷ codes "not"
    ∷ codes "patternProperties"
    ∷ codes "$defs"
    ∷ codes "additionalProperties"
    ∷ codes "additional_properties"
    ∷ []

-- `_TYPES`
abbrev pub types : List Text
types =
    codes "object"
    ∷ codes "array"
    ∷ codes "string"
    ∷ codes "number"
    ∷ codes "integer"
    ∷ codes "boolean"
    ∷ codes "null"
    ∷ []

-- `node.get(key)`; a key that is absent is `none`.
abbrev pub get : Text → Fields → Option Json
get k no_fields = none
get k (field j v d) = let rest = get k d in if text_eq j k then some v else rest

abbrev pub has : Text → Fields → Bool
has k no_fields = false
has k (field j v d) = text_eq j k || has k d

-- The first of the keywords that the object has.
abbrev pub first_bad : List Text → Fields → Option Text
first_bad [] d = none
first_bad (b ∷ bs) d = let rest = first_bad bs d in if has b d then some b else rest

-- `t if isinstance(t, list) else [t] if t is not None else []`
abbrev pub types_of : Option Json → Jsons
types_of none = no_items
types_of (some null) = no_items
types_of (some (arr ts)) = ts
types_of (some t) = item t no_items

abbrev unsupported_type : Text → Text → Option Failure
unsupported_type t at =
    some (schema_error (codes "unsupported type '" ++ (t ++ (codes "' at " ++ at))))

-- `tv not in _TYPES`
abbrev pub check_type : Text → Json → Option Failure
check_type at (str t) = if elem t types then none else unsupported_type t at
check_type at null = unsupported_type (codes "None") at
check_type at (bool true) = unsupported_type (codes "True") at
check_type at (bool false) = unsupported_type (codes "False") at
check_type at (num t) = unsupported_type t at
check_type at _ = some type_error

abbrev pub check_types : Text → Jsons → Option Failure
check_types at no_items = none
check_types at (item t ts) = first_of (check_type at t) (check_types at ts)

abbrev pub bad_keyword : Text → Option Text → Option Failure
bad_keyword at none = none
bad_keyword at (some b) =
    some (schema_error (codes "unsupported keyword '" ++ (b ++ (codes "' at " ++ at))))

-- The checks of an object before its values.
abbrev pub check_node : Text → Fields → Option Failure
check_node at d =
    first_of (bad_keyword at (first_bad unsupported d))
      (check_types at (types_of (get (codes "type") d)))

unfoldable mutual
  -- `_check_subset`
  pub check_subset : Text → Json → Option Failure
  check_subset at (obj d) = first_of (check_node at d) (check_fields at d)
  check_subset at (arr xs) = check_items at zero xs
  check_subset at _ = none

  pub check_fields : Text → Fields → Option Failure
  check_fields at no_fields = none
  check_fields at (field k v d) =
      first_of (check_subset (at ++ (codes "." ++ k)) v) (check_fields at d)

  pub check_items : Text → ℕ → Jsons → Option Failure
  check_items at i no_items = none
  check_items at i (item v xs) =
      first_of (check_subset (at ++ (codes "[" ++ (codes (decimal i) ++ codes "]"))) v)
        (check_items at (suc i) xs)

-- `seg[:-2]`, if the segment ends in `[]`
abbrev with_head : ℕ → Option Text → Option Text
with_head c none = none
with_head c (some s) = some (c ∷ s)

abbrev pub array_key : Text → Option Text
array_key [] = none
array_key (c ∷ s) =
    let rest = array_key s in if text_eq (c ∷ s) (codes "[]") then some [] else with_head c rest

abbrev pub properties : Json → Option Fields
properties (obj d) = elim (get (codes "properties") d) [ some (obj p) ↦ some p | _ ↦ none ]
properties _ = none

abbrev pub get_in : Text → Option Fields → Option Json
get_in k none = none
get_in k (some d) = get k d

-- `node.get("type") == "array"`, then `node.get("items", {})`
abbrev items_or_empty : Option Json → Json
items_or_empty none = obj no_fields
items_or_empty (some j) = j

abbrev pub is_text : Text → Option Json → Bool
is_text t (some (str s)) = text_eq s t
is_text t _ = false

abbrev pub items_of : Json → Option Json
items_of (obj d) =
    if is_text (codes "array") (get (codes "type") d)
    then some (items_or_empty (get (codes "items") d))
    else none
items_of _ = none

abbrev descend : Option Json → Option Json
descend none = none
descend (some node) = items_of node

-- One segment of the path.
abbrev pub step : Text → Json → Option Json
step seg node = elim (array_key seg) [
  | some key ↦ descend (get_in key (properties node))
  | none ↦ get_in seg (properties node)
]

abbrev pub walk : List Text → Option Json → Option Json
walk segs none = none
walk [] (some node) = some node
walk (seg ∷ segs) (some node) = walk segs (step seg node)

abbrev pub as_object : Option Json → Option Fields
as_object (some (obj d)) = some d
as_object _ = none

-- `_node_at`
unfoldable pub node_at : Json → Text → Option Fields
node_at schema path = as_object (walk (split b'.' path) (some schema))

abbrev pub has_type : Text → Jsons → Bool
has_type t no_items = false
has_type t (item (str s) ts) = text_eq s t || has_type t ts
has_type t (item _ ts) = has_type t ts

-- `node.get("enum") is not None`
abbrev has_enum : Option Json → Bool
has_enum none = false
has_enum (some null) = false
has_enum (some j) = true

-- `_kind_ok`
unfoldable pub kind_ok : Fields → Text → Bool
kind_ok node kind =
    has_type kind (types_of (get (codes "type") node))
    || (text_eq kind (codes "number")
        && has_type (codes "integer") (types_of (get (codes "type") node)))
    || (text_eq kind (codes "string") && has_enum (get (codes "enum") node))
