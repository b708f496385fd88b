-- ===== src/Judge/Options.antt =====
-- backend/app/judge/options.py: the processing option, which composes the pipeline.
use call_audit_supervisor.Common.{Bool, true, false, Option, none, some, if◌then◌else◌}
use call_audit_supervisor.Common.Codes.{Text, codes, text_eq}

pub data ProcessingOption : Type 0 where
  full raw_only feedback_ideal checklist_only : ProcessingOption

-- `ProcessingOption(name)`; a `ValueError` is `none`.
abbrev pub option_of : Text → Option ProcessingOption
option_of name =
    if text_eq name (codes "FULL")
    then some full
    else if text_eq name (codes "RAW_ONLY")
    then some raw_only
    else if text_eq name (codes "FEEDBACK_IDEAL")
    then some feedback_ideal
    else if text_eq name (codes "CHECKLIST_ONLY")
    then some checklist_only
    else none

unfoldable pub needs_judge : ProcessingOption → Bool
needs_judge raw_only = false
needs_judge _ = true

unfoldable pub needs_feedback : ProcessingOption → Bool
needs_feedback full = true
needs_feedback feedback_ideal = true
needs_feedback _ = false

unfoldable pub needs_checklist : ProcessingOption → Bool
needs_checklist full = true
needs_checklist checklist_only = true
needs_checklist _ = false

unfoldable pub needs_ideal : ProcessingOption → Bool
needs_ideal full = true
needs_ideal feedback_ideal = true
needs_ideal _ = false

unfoldable pub uses_kb : ProcessingOption → Bool
uses_kb full = true
uses_kb feedback_ideal = true
uses_kb _ = false

unfoldable pub merge_feedback_and_checklist : ProcessingOption → Bool
merge_feedback_and_checklist full = true
merge_feedback_and_checklist _ = false
