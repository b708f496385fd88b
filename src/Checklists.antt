-- ===== src/Checklists.antt =====
-- backend/app/checklists: checklists, their versions, and what counts as a free-text item.
pub mod Versions
pub mod Parse
use call_audit_supervisor.Common.{Bool, ◌||◌, String}
use call_audit_supervisor.Common.Codes.{codes, text_eq, upper}

-- `is_free_text` of backend/app/checklists/__init__.py; the column `answer_type` is not null.
unfoldable pub is_free_text : String → Bool → Bool
is_free_text answer_type is_subjective =
    is_subjective || text_eq (upper (codes answer_type)) (codes "TEXT")
