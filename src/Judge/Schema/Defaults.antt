-- ===== src/Judge/Schema/Defaults.antt =====
-- The default schema of each stage (backend/app/judge/schema_validate.py).
use call_audit_supervisor.Common.{List, [], ◌∷◌}
use call_audit_supervisor.Common.Codes.{Text, codes}
use call_audit_supervisor.Judge.Schema.{
  Json, str, arr, obj, Jsons, no_items, item, Fields, no_fields, field,
}

abbrev texts : List Text → Jsons
texts [] = no_items
texts (t ∷ ts) = item (str t) (texts ts)

abbrev pub typed : Text → Json
typed t = obj (field (codes "type") (str t) no_fields)

-- `_string()`
abbrev pub string : Json
string = typed (codes "string")

abbrev nullable : Text → Json
nullable t = obj (field (codes "type") (arr (texts (t ∷ codes "null" ∷ []))) no_fields)

abbrev pub object : Fields → List Text → Json
object properties required = obj (
    field (codes "type") (str (codes "object")) (
      field (codes "properties") (obj properties)
        (field (codes "required") (arr (texts required)) no_fields)))

abbrev array : Json → Json
array items =
    obj (field (codes "type") (str (codes "array")) (field (codes "items") items no_fields))

abbrev enum : List Text → Json
enum values = obj (
    field (codes "type") (str (codes "string"))
      (field (codes "enum") (arr (texts values)) no_fields))

abbrev objection : Json
objection =
    object
      (field (codes "text") string (
        field (codes "category") string
          (field (codes "cleared") (typed (codes "boolean")) no_fields)))
      (codes "text" ∷ [])

abbrev feedback_lists : Json
feedback_lists =
    object
      (field (codes "strengths") (array string)
        (field (codes "development") (array string) no_fields))
      (codes "strengths" ∷ codes "development" ∷ [])

-- `_FEEDBACK_SCHEMA`
abbrev pub feedback_schema : Json
feedback_schema =
    object
      (field (codes "agent_name") (nullable (codes "string")) (
        field (codes "summary") string (
          field (codes "coaching") string (
            field (codes "compliance") string (
              field (codes "feedback") feedback_lists
                (field (codes "objections") (array objection) no_fields))))))
      (codes "summary"
        ∷ codes "coaching"
        ∷ codes "compliance"
        ∷ codes "feedback"
        ∷ codes "objections"
        ∷ [])

abbrev verdict : Json
verdict =
    object
      (field (codes "checklist_item_id") string (
        field (codes "answer") (enum (codes "PASS" ∷ codes "FAIL" ∷ codes "NA" ∷ [])) (
          field (codes "raw_answer") string (
            field (codes "confidence") (typed (codes "number")) (
              field (codes "evidence_quote") string (
                field (codes "evidence_offset_sec") (nullable (codes "number")) (
                  field (codes "comment") string
                    (field (codes "needs_review") (typed (codes "boolean")) no_fields))))))))
      (codes "checklist_item_id"
        ∷ codes "answer"
        ∷ codes "confidence"
        ∷ codes "evidence_quote"
        ∷ codes "needs_review"
        ∷ [])

-- `_VERDICTS_SCHEMA`
abbrev pub verdicts_schema : Json
verdicts_schema = array verdict

abbrev pub checklist_schema : Json
checklist_schema =
    object (field (codes "verdicts") verdicts_schema no_fields) (codes "verdicts" ∷ [])

abbrev speaker_turn : Json
speaker_turn =
    object
      (field (codes "speaker") (enum (codes "Agent" ∷ codes "Consumer" ∷ []))
        (field (codes "text") string no_fields))
      (codes "speaker" ∷ codes "text" ∷ [])

-- `_IDEAL_SCHEMA`
abbrev pub ideal_schema : Json
ideal_schema =
    object
      (field (codes "already_ideal") (typed (codes "boolean"))
        (field (codes "ideal_conversation") (array speaker_turn) no_fields))
      (codes "already_ideal" ∷ codes "ideal_conversation" ∷ [])

-- `_MERGED_SCHEMA`
abbrev pub merged_schema : Json
merged_schema =
    object
      (field (codes "feedback") feedback_schema
        (field (codes "verdicts") verdicts_schema no_fields))
      (codes "feedback" ∷ codes "verdicts" ∷ [])
