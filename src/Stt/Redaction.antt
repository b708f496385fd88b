-- ===== src/Stt/Redaction.antt =====
-- backend/app/stt/redaction.py: the redaction levels and the settings that list policies.
use call_audit_supervisor.Common.{
  ◌≡◌, ◌≢◌, Bool, true, false, not, Option, none, some, List, [], ◌∷◌, ◌++◌, map, String,
  if◌then◌else◌, All, filter, All-filter,
}
use call_audit_supervisor.Common.Codes.{
  Text, codes, text_eq, upper, upper_char, strip, split, is_empty,
}

pub data PiiMode : Type 0 where
  off transcript transcript_and_recording : PiiMode

unfoldable pub redacts_transcript : PiiMode → Bool
redacts_transcript off = false
redacts_transcript _ = true

unfoldable pub redacts_recording : PiiMode → Bool
redacts_recording transcript_and_recording = true
redacts_recording _ = false

-- The value that the enumeration stores, as a text and as its code points.
abbrev pub name_of : PiiMode → String
name_of off = "OFF"
name_of transcript = "TRANSCRIPT"
name_of transcript_and_recording = "TRANSCRIPT_AND_RECORDING"

abbrev pub value : PiiMode → Text
value mode = codes (name_of mode)

-- `PiiMode(name)`, with the `ValueError` taken as OFF.
abbrev mode_of : Text → PiiMode
mode_of name =
    if text_eq name (value off)
    then off
    else if text_eq name (value transcript)
    then transcript
    else if text_eq name (value transcript_and_recording)
    then transcript_and_recording
    else off

-- `raw or ""`
abbrev or_empty : Option String → Text
or_empty none = []
or_empty (some s) = codes s

unfoldable pub parse_pii_mode : Option String → PiiMode
unfolding upper_char
parse_pii_mode raw = mode_of (upper (or_empty raw))

abbrev pub identity_policies : List String
identity_policies =
    "person_name" ∷ "person_age" ∷ "date_of_birth" ∷ "us_social_security_number" ∷ "drivers_license"
    ∷ "passport_number" ∷ "nationality" ∷ "gender_sexuality" ∷ "marital_status" ∷ "religion"
    ∷ "political_affiliation" ∷ "physical_attribute" ∷ []

abbrev pub contact_policies : List String
contact_policies =
    "phone_number" ∷ "email_address" ∷ "url" ∷ "ip_address" ∷ "username" ∷ "password" ∷ "location"
    ∷ "location_address" ∷ "location_address_street" ∷ "location_city" ∷ "location_state"
    ∷ "location_zip" ∷ "location_country" ∷ "location_coordinate" ∷ []

abbrev pub financial_policies : List String
financial_policies =
    "credit_card_number" ∷ "credit_card_cvv" ∷ "credit_card_expiration" ∷ "banking_information"
    ∷ "account_number" ∷ "money_amount" ∷ "organization" ∷ []

abbrev pub identifier_policies : List String
identifier_policies = "number_sequence" ∷ "date" ∷ "vehicle_id" ∷ "filename" ∷ []

abbrev pub default_pii_policies : List Text
default_pii_policies =
    map codes
      (identity_policies ++ (contact_policies ++ (financial_policies ++ identifier_policies)))

-- `[part.strip() for part in raw.split(",") if part.strip()]`
unfoldable pub csv_values : Text → List Text
csv_values raw = filter (λ v. not (is_empty v)) (map strip (split b',' raw))

abbrev or_else : List Text → List Text → List Text
or_else [] fallback = fallback
or_else (v ∷ vs) fallback = v ∷ vs

unfoldable pub parse_csv_setting : Text → List Text → List Text
unfolding csv_values
parse_csv_setting raw fallback = or_else (csv_values raw) fallback

-- Every mode is read back from the value that is stored for it, in any mixture of cases that the
-- capitals of the value allow; a missing or unknown value is OFF.
pub parse-value :
    (m : PiiMode) (raw : String) → upper (codes raw) ≡ value m → parse_pii_mode (some raw) ≡ m
unfolding parse_pii_mode
parse-value off raw h = rw h
parse-value transcript raw h = rw h
parse-value transcript_and_recording raw h = rw h

-- The list that is sent to the provider is never empty, whatever the setting holds, and none of
-- its policies is blank: an override of blanks and commas falls back to the default list.
pub parse_csv_setting_nonempty :
    (raw : Text) (fallback : List Text)
    → fallback ≢ []
    → All (λ v. not (is_empty v) ≡ true) fallback
    → (parse_csv_setting raw fallback ≢ [])
      × All (λ v. not (is_empty v) ≡ true) (parse_csv_setting raw fallback)
unfolding parse_csv_setting
parse_csv_setting_nonempty raw fallback h k =
    go (csv_values raw) (All-filter (λ v. not (is_empty v)) (map strip (split b',' raw)))
  where
    go :
        (vs : List Text)
        → All (λ v. not (is_empty v) ≡ true) vs
        → (or_else vs fallback ≢ []) × All (λ v. not (is_empty v) ≡ true) (or_else vs fallback)
    go [] a = (h, k)
    go (v ∷ vs) a = (λ e. cc, a)
