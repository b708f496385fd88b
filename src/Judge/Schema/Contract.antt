-- ===== src/Judge/Schema/Contract.antt =====
-- The fields that each stage needs, and the whole check (backend/app/judge/schema_validate.py).
use call_audit_supervisor.Common.{Option, none, some, List, [], ◌∷◌, ◌++◌, if◌then◌else◌}
use call_audit_supervisor.Common.Codes.{Text, codes, text_eq}
use call_audit_supervisor.Judge.Schema.{
  Json, obj, Fields, Failure, schema_error, first_of, get, properties, check_subset, node_at,
  kind_ok, is_text,
}

-- A path and the kind of the field there.
pub record Field : Type 0 where
  pub path : Text
  pub kind : Text

abbrev string : Text → Field
string p = record { path = p; kind = codes "string" }

abbrev object : Text → Field
object p = record { path = p; kind = codes "object" }

abbrev array : Text → Field
array p = record { path = p; kind = codes "array" }

abbrev number : Text → Field
number p = record { path = p; kind = codes "number" }

abbrev boolean : Text → Field
boolean p = record { path = p; kind = codes "boolean" }

abbrev feedback_contract : List Field
feedback_contract =
    string (codes "summary")
    ∷ string (codes "coaching")
    ∷ string (codes "compliance")
    ∷ object (codes "feedback")
    ∷ array (codes "feedback.strengths")
    ∷ array (codes "feedback.development")
    ∷ array (codes "objections")
    ∷ string (codes "objections[].text")
    ∷ []

abbrev checklist_contract : List Field
checklist_contract =
    array (codes "verdicts")
    ∷ string (codes "verdicts[].checklist_item_id")
    ∷ string (codes "verdicts[].answer")
    ∷ number (codes "verdicts[].confidence")
    ∷ string (codes "verdicts[].evidence_quote")
    ∷ boolean (codes "verdicts[].needs_review")
    ∷ []

abbrev ideal_contract : List Field
ideal_contract =
    boolean (codes "already_ideal")
    ∷ array (codes "ideal_conversation")
    ∷ string (codes "ideal_conversation[].speaker")
    ∷ string (codes "ideal_conversation[].text")
    ∷ []

abbrev merged_contract : List Field
merged_contract =
    object (codes "feedback")
    ∷ string (codes "feedback.summary")
    ∷ string (codes "feedback.coaching")
    ∷ string (codes "feedback.compliance")
    ∷ object (codes "feedback.feedback")
    ∷ array (codes "feedback.objections")
    ∷ string (codes "feedback.objections[].text")
    ∷ array (codes "verdicts")
    ∷ string (codes "verdicts[].checklist_item_id")
    ∷ string (codes "verdicts[].answer")
    ∷ number (codes "verdicts[].confidence")
    ∷ string (codes "verdicts[].evidence_quote")
    ∷ boolean (codes "verdicts[].needs_review")
    ∷ []

-- `_CONTRACTS`; `none` is a stage that is not one of them.
unfoldable pub contract_of : Text → Option (List Field)
contract_of stage =
    if text_eq stage (codes "feedback")
    then some feedback_contract
    else if text_eq stage (codes "checklist")
    then some checklist_contract
    else if text_eq stage (codes "ideal")
    then some ideal_contract
    else if text_eq stage (codes "merged")
    then some merged_contract
    else none

abbrev pub failure : Text → Option Failure
failure t = some (schema_error t)

-- One field of the contract, on the node at its path.
abbrev pub check_field : Field → Option Fields → Option Failure
check_field x none = failure (codes "schema is missing the required field: " ++ x.path)
check_field x (some node) =
    if kind_ok node x.kind
    then none
    else failure (codes "field " ++ (x.path ++ (codes " must be of type " ++ x.kind)))

unfoldable pub check_contract : List Field → Json → Option Failure
check_contract [] schema = none
check_contract (x ∷ xs) schema =
    first_of (check_field x (node_at schema x.path)) (check_contract xs schema)

abbrev pub has_properties : Option Fields → Option Failure
has_properties none = failure (codes "the schema must have an object \"properties\" map")
has_properties (some d) = none

-- The checks after the stage is known.
abbrev pub check_schema : List Field → Json → Option Failure
check_schema contract (obj d) =
    if is_text (codes "object") (get (codes "type") d)
    then first_of (has_properties (properties (obj d)))
        (first_of (check_subset (codes "schema") (obj d)) (check_contract contract (obj d)))
    else failure (codes "the top-level \"type\" must be \"object\"")
check_schema contract _ = failure (codes "schema must be a JSON object")

abbrev pub at_stage : Text → Option (List Field) → Json → Option Failure
at_stage stage none schema = failure (
    codes "unknown stage '"
    ++ (stage ++ codes "' (expected one of feedback, checklist, ideal, merged)"))
at_stage stage (some contract) schema = check_schema contract schema

-- Nothing is raised, or what is.
unfoldable pub validate_output_schema : Text → Json → Option Failure
unfolding contract_of check_contract
validate_output_schema stage schema = at_stage stage (contract_of stage) schema
