-- ===== src/Stt.antt =====
-- backend/app/stt: transcripts and their redaction.
pub mod Redaction
use call_audit_supervisor.Common.{Bool, String}

-- `Transcript` of backend/app/stt/__init__.py, with the utterances and the duration left out: the
-- pipeline passes them through.
pub record Transcript : Type 0 where
  pub transcript_id : String
  pub text : String
  pub redacted : Bool
