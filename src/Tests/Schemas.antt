-- ===== src/Tests/Schemas.antt =====
-- The default schemas are accepted, and two uploads that are not.
use call_audit_supervisor.Common.{◌≡◌, refl, true, none, some, List, [], All}
use call_audit_supervisor.Common.Codes.{codes}
use call_audit_supervisor.Judge.Schema.{
  obj, Fields, field, no_fields, type_error, get, is_text, check_subset, node_at, kind_ok,
}
use call_audit_supervisor.Judge.Schema.Contract.{
  Field, contract_of, check_contract, validate_output_schema,
}
use call_audit_supervisor.Judge.Schema.Accepted.{Supported, Present, validate_output_schema_sound}
use call_audit_supervisor.Judge.Schema.Defaults.{
  string, object, feedback_schema, checklist_schema, ideal_schema, merged_schema,
}

defaults_accepted :
    (validate_output_schema (codes "feedback") feedback_schema ≡ none)
    × (validate_output_schema (codes "checklist") checklist_schema ≡ none)
    × (validate_output_schema (codes "ideal") ideal_schema ≡ none)
    × (validate_output_schema (codes "merged") merged_schema ≡ none)
unfolding validate_output_schema contract_of check_contract check_subset node_at kind_ok
defaults_accepted = (refl, refl, refl, refl)

-- A property that is called `type` is taken for a keyword, and the check itself breaks.
type_property :
    check_subset (codes "schema") (object (field (codes "type") string no_fields) [])
    ≡ some type_error
unfolding check_subset
type_property = refl

validate_output_schema_sound_example :
    (contract : List Field) × (contract_of (codes "ideal") ≡ some contract)
    × (d : Fields) × (ideal_schema ≡ obj d)
    × (is_text (codes "object") (get (codes "type") d) ≡ true)
    × Supported ideal_schema
    × All (Present ideal_schema) contract
validate_output_schema_sound_example =
    validate_output_schema_sound (codes "ideal") ideal_schema defaults_accepted.2
