-- ===== src/Judge/Schema/Accepted.antt =====
-- What an accepted output schema is (backend/app/judge/schema_validate.py).
use call_audit_supervisor.Common.{
  ◌||◌, ◌&&◌, ◌⊎◌, ℕ, suc, ◌≡◌, refl, Bool, true, false, Option, none, some, List, [], ◌∷◌, ◌++◌,
  decimal, All, if◌then◌else◌, arith,
}
use call_audit_supervisor.Common.Codes.{text_eq, Text, codes}
use call_audit_supervisor.Judge.Schema.{
  has_type, has_enum, Json, null, bool, num, str, arr, obj, Jsons, no_items, item, Fields,
  no_fields, field, Failure, first_of, elem, get, has, unsupported, types, types_of, first_bad,
  check_type, bad_keyword, check_types, check_node, check_subset, check_fields, check_items,
  properties, node_at, kind_ok, is_text,
}
use call_audit_supervisor.Judge.Schema.Contract.{
  Field, contract_of, check_field, failure, check_contract, has_properties, check_schema, at_stage,
  validate_output_schema,
}

-- A type name that the model knows.
abbrev pub IsType : Json → Type 0
IsType (str t) = elem t types ≡ true
IsType _ = ⊥

abbrev pub AllTypes : Jsons → Type 0
AllTypes no_items = Unit {0}
AllTypes (item t ts) = IsType t × AllTypes ts

mutual
  -- A value of the supported subset: no object in it has an unsupported keyword, and each type that
  -- an object names is known.
  pub data Supported : Json → Type 0 where
    null_ok : Supported null
    bool_ok : {b : Bool} → Supported (bool b)
    num_ok : {t : Text} → Supported (num t)
    str_ok : {t : Text} → Supported (str t)
    arr_ok : {xs : Jsons} → SupportedItems xs → Supported (arr xs)
    obj_ok :
        {d : Fields}
        → All (λ b. has b d ≡ false) unsupported
        → AllTypes (types_of (get (codes "type") d))
        → SupportedFields d
        → Supported (obj d)

  pub data SupportedItems : Jsons → Type 0 where
    no_items_ok : SupportedItems no_items
    item_ok : {v : Json} {xs : Jsons} → Supported v → SupportedItems xs → SupportedItems (item v xs)

  pub data SupportedFields : Fields → Type 0 where
    no_fields_ok : SupportedFields no_fields
    field_ok :
        {k : Text} {v : Json} {d : Fields}
        → Supported v
        → SupportedFields d
        → SupportedFields (field k v d)

both : (a b : Option Failure) → first_of a b ≡ none → (a ≡ none) × (b ≡ none)
both none b h = (refl, h)
both (some f) b h = cc

check_type-IsType : (at : Text) (t : Json) → check_type at t ≡ none → IsType t
check_type-IsType at (str t) h = ground arith
check_type-IsType at null h = cc
check_type-IsType at (bool true) h = cc
check_type-IsType at (bool false) h = cc
check_type-IsType at (num t) h = cc
check_type-IsType at (arr xs) h = cc
check_type-IsType at (obj d) h = cc

check_types-AllTypes : (at : Text) (ts : Jsons) → check_types at ts ≡ none → AllTypes ts
check_types-AllTypes at no_items h = tt
check_types-AllTypes at (item t ts) h =
    let (x, y) = both (check_type at t) (check_types at ts) h in
    (check_type-IsType at t x, check_types-AllTypes at ts y)

not_found :
    (t : Bool) (b : Text) (o : Option Text)
    → (if t then some b else o) ≡ none
    → (t ≡ false) × (o ≡ none)
not_found true b o h = cc
not_found false b o h = (refl, h)

none_bad : (bs : List Text) (d : Fields) → first_bad bs d ≡ none → All (λ b. has b d ≡ false) bs
none_bad [] d h = tt
none_bad (b ∷ bs) d h =
    let (e, rest) = not_found (has b d) b (first_bad bs d) h in (e, none_bad bs d rest)

no_keyword : (at : Text) (o : Option Text) → bad_keyword at o ≡ none → o ≡ none
no_keyword at none h = refl
no_keyword at (some b) h = cc

mutual
  unfolding check_subset

  subset-Supported : (at : Text) (j : Json) → check_subset at j ≡ none → Supported j
  subset-Supported at null h = null_ok
  subset-Supported at (bool b) h = bool_ok
  subset-Supported at (num t) h = num_ok
  subset-Supported at (str t) h = str_ok
  subset-Supported at (arr xs) h = arr_ok (items-Supported at 0 xs h)
  subset-Supported at (obj d) h =
      let (node, values) = both (check_node at d) (check_fields at d) h in
      let (words, kinds) =
        both (bad_keyword at (first_bad unsupported d))
          (check_types at (types_of (get (codes "type") d))) node in
      obj_ok (none_bad unsupported d (no_keyword at (first_bad unsupported d) words))
        (check_types-AllTypes at (types_of (get (codes "type") d)) kinds)
        (fields-Supported at d values)

  fields-Supported : (at : Text) (d : Fields) → check_fields at d ≡ none → SupportedFields d
  fields-Supported at no_fields h = no_fields_ok
  fields-Supported at (field k v d) h =
      let (x, y) = both (check_subset (at ++ (codes "." ++ k)) v) (check_fields at d) h in
      field_ok (subset-Supported (at ++ (codes "." ++ k)) v x) (fields-Supported at d y)

  items-Supported :
      (at : Text) (i : ℕ) (xs : Jsons) → check_items at i xs ≡ none → SupportedItems xs
  items-Supported at i no_items h = no_items_ok
  items-Supported at i (item v xs) h =
      let here = at ++ (codes "[" ++ (codes (decimal i) ++ codes "]")) in
      let (x, y) = both (check_subset here v) (check_items at (suc i) xs) h in
      item_ok (subset-Supported here v x) (items-Supported at (suc i) xs y)

-- A kind as the check reads it: the types that the node names have it; or a number is wanted and they
-- have `integer`; or a string is wanted and the node has an `enum`, whatever its type.
abbrev pub HasKind : Fields → Text → Type 0
HasKind node kind =
    (has_type kind (types_of (get (codes "type") node)) ≡ true)
    ⊎ (((text_eq kind (codes "number") ≡ true)
          × (has_type (codes "integer") (types_of (get (codes "type") node)) ≡ true))
        ⊎ ((text_eq kind (codes "string") ≡ true) × (has_enum (get (codes "enum") node) ≡ true)))

one_of_three :
    (a b c d e : Bool)
    → (a || (b && c) || (d && e)) ≡ true
    → (a ≡ true) ⊎ (((b ≡ true) × (c ≡ true)) ⊎ ((d ≡ true) × (e ≡ true)))
one_of_three a b c d e h = ground (arith, h)

kind_ok-HasKind : (node : Fields) (kind : Text) → kind_ok node kind ≡ true → HasKind node kind
unfolding kind_ok
kind_ok-HasKind node kind h = one_of_three _ _ _ _ _ h

-- The field of the contract is there, with its kind.
abbrev pub Present : Json → Field → Type 0
Present schema x = (node : Fields) × (node_at schema x.path ≡ some node) × HasKind node x.kind

field-Present :
    (schema : Json) (x : Field) (o : Option Fields)
    → node_at schema x.path ≡ o
    → check_field x o ≡ none
    → Present schema x
field-Present schema x none e h = cc
field-Present schema x (some node) e h = (node, e, kind_ok-HasKind node x.kind (ground arith))

contract-Present :
    (xs : List Field) (schema : Json) → check_contract xs schema ≡ none → All (Present schema) xs
unfolding check_contract
contract-Present [] schema h = tt
contract-Present (x ∷ xs) schema h =
    let (a, b) = both (check_field x (node_at schema x.path)) (check_contract xs schema) h in
    (field-Present schema x (node_at schema x.path) refl a, contract-Present xs schema b)

chosen :
    (t : Bool) (a : Option Failure) (text : Text)
    → (if t then a else failure text) ≡ none
    → (t ≡ true) × (a ≡ none)
chosen true a text h = (refl, h)
chosen false a text h = cc

accepted :
    (contract : List Field) (schema : Json)
    → check_schema contract schema ≡ none
    → (d : Fields) × (schema ≡ obj d)
      × (is_text (codes "object") (get (codes "type") d) ≡ true)
      × Supported schema
      × All (Present schema) contract
accepted contract (obj d) h =
    let rest = first_of (check_subset (codes "schema") (obj d)) (check_contract contract (obj d)) in
    let (typed, all) =
      chosen (is_text (codes "object") (get (codes "type") d))
        (first_of (has_properties (properties (obj d))) rest)
        (codes "the top-level \"type\" must be \"object\"") h in
    let (props, checks) = both (has_properties (properties (obj d))) rest all in
    let (subset, fields) =
      both (check_subset (codes "schema") (obj d)) (check_contract contract (obj d)) checks in
    (
      d,
      refl,
      typed,
      subset-Supported (codes "schema") (obj d) subset,
      contract-Present contract (obj d) fields,
    )
accepted contract null h = cc
accepted contract (bool b) h = cc
accepted contract (num t) h = cc
accepted contract (str t) h = cc
accepted contract (arr xs) h = cc

known :
    (stage : Text) (o : Option (List Field)) (schema : Json)
    → at_stage stage o schema ≡ none
    → (contract : List Field) × (o ≡ some contract) × (check_schema contract schema ≡ none)
known stage none schema h = cc
known stage (some contract) schema h = (contract, refl, h)

-- Of a schema that is accepted: the stage is known; the schema is an object whose type is "object"; no
-- object in it, at any depth, has an unsupported keyword or an unknown type; and every field that the
-- stage needs is there with a type that names the field's kind, or with `integer` for a number, or,
-- for a string, with an `enum`, whatever its type then is.
pub validate_output_schema_sound :
    (stage : Text) (schema : Json)
    → validate_output_schema stage schema ≡ none
    → (contract : List Field) × (contract_of stage ≡ some contract)
      × (d : Fields) × (schema ≡ obj d)
      × (is_text (codes "object") (get (codes "type") d) ≡ true)
      × Supported schema
      × All (Present schema) contract
unfolding validate_output_schema
validate_output_schema_sound stage schema h =
    let (contract, e, ok) = known stage (contract_of stage) schema h in
    let (d, same, typed, supported, fields) = accepted contract schema ok in
    (contract, e, d, same, typed, supported, fields)
