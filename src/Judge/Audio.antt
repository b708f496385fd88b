-- ===== src/Judge/Audio.antt =====
-- backend/app/judge/gemini.py: the reference to a recording, and its MIME type.
use call_audit_supervisor.Common.{
  not, ◌&&◌, Option, none, some, List, [], ◌∷◌, String, filter, ◌==◌, if◌then◌else◌,
}
use call_audit_supervisor.Common.Codes.{Text, codes, text_eq, lower, lower_char, split, is_empty}

pub record AudioRef : Type 0 where
  pub bytes : Option String
  pub mime_type : String
  pub file_uri : Option String
  pub file_name : Option String

abbrev last_or_empty : List Text → Text
last_or_empty [] = []
last_or_empty (p ∷ []) = p
last_or_empty (p ∷ q ∷ ps) = last_or_empty (q ∷ ps)

-- `PurePosixPath(key).name`: empty parts and `.` do not count.
abbrev name : Text → Text
name key =
    last_or_empty (filter (λ p. not (is_empty p) && not (text_eq p (codes "."))) (split b'/' key))

-- What stands after the last dot, if a dot stands there.
abbrev after_dot : Text → Option Text
after_dot [] = none
after_dot (c ∷ s) =
    let rest = after_dot s in
    elim rest [ some r ↦ some r | none ↦ if c == b'.' then some s else none ]

-- `.suffix` of a name: with no dot, with one only in front, or with one at the end, it is empty.
abbrev suffix : Text → Text
suffix [] = []
suffix (c ∷ s) = elim (after_dot s) [ none ↦ [] | some r ↦ if is_empty r then [] else b'.' ∷ r ]

abbrev audio_mime : List (Text × String)
audio_mime =
    (codes ".mp3", "audio/mp3")
    ∷ (codes ".wav", "audio/wav")
    ∷ (codes ".m4a", "audio/mp4")
    ∷ (codes ".mp4", "audio/mp4")
    ∷ (codes ".ogg", "audio/ogg")
    ∷ (codes ".flac", "audio/flac")
    ∷ (codes ".aac", "audio/aac")
    ∷ (codes ".opus", "audio/opus")
    ∷ (codes ".webm", "audio/webm")
    ∷ (codes ".mpeg", "audio/mpeg")
    ∷ (codes ".mpga", "audio/mpeg")
    ∷ []

abbrev get_or : List (Text × String) → Text → String → String
get_or [] k d = d
get_or ((j, v) ∷ m) k d = let rest = get_or m k d in if text_eq j k then v else rest

unfoldable pub audio_mime_for : String → String
unfolding lower_char
audio_mime_for key = get_or audio_mime (lower (suffix (name (codes key)))) "audio/mpeg"
