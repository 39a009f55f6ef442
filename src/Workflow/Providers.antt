-- ===== src/Workflow/Providers.antt =====
-- ai/factory.py: `providers_for_snapshot`, up to the clients that it makes, and `decrypt_secret` of
-- admin/settings_service.py. Every exception that they raise is a `RuntimeError`. `py_str` is
-- Python's `str` of a JSON value, and `decrypt` is the cryptography library's, `none` where it raises.
use pages_to_rgb.Prelude.{String, Bool, not, ◌&&◌, ◌||◌, Option, none, some, str_eq, if◌then◌else◌}
use pages_to_rgb.Common.Value.{Value, Fields, end, get, truthy}
use pages_to_rgb.Db.{AdminSettings}

pub record Secrets : Type 0 where
  pub py_str : Value → String
  pub decrypt : String → Option String

-- What the clients are made from.
pub record Providers : Type 0 where
  pub gemini_key : String
  pub credentials : String
  pub model : String
  pub project : String
  pub location : String
  pub processor : String
  pub processor_version : Option String

snapshot_or_empty : Option Fields → Fields
snapshot_or_empty none = end
snapshot_or_empty (some fs) = fs

filled : String → Bool
filled s = not (str_eq s "")

or_blank : Option String → String
or_blank none = ""
or_blank (some s) = s

module _ (secrets : Secrets) where
  decrypt_secret : Option String → Option String
  unfolding filled
  decrypt_secret none = some ""
  decrypt_secret (some s) = if filled s then secrets.decrypt s else some ""

  -- `str(snapshot.get(key) or column)`
  text_or : Option Value → String → String
  text_or none column = column
  text_or (some v) column = if truthy v then secrets.py_str v else column

  -- The secret, if it is not empty.
  present : Option String → Option String
  unfolding filled
  present none = none
  present (some s) = if filled s then some s else none

  supported : Fields → AdminSettings → Bool
  unfolding text_or
  supported snapshot row =
      str_eq (text_or (get "ocr_provider" snapshot) row.ocr_provider) "google_document_ai"

  model_of : Fields → AdminSettings → Option String
  unfolding text_or
  model_of snapshot row =
      let solve = text_or (get "solve_model" snapshot) row.solve_model in
      if str_eq solve "gemini-3.1-pro-preview"
        && str_eq (text_or (get "verify_model" snapshot) row.verify_model) "gemini-3.1-pro-preview"
        && str_eq (text_or (get "arbiter_model" snapshot) row.arbiter_model)
            "gemini-3.1-pro-preview"
      then some solve
      else none

  -- `snapshot.get(key) or column`, as the test `if not` of it reads it.
  is_given : Option Value → Option String → Bool
  unfolding filled or_blank
  is_given none column = filled (or_blank column)
  is_given (some v) column = truthy v || filled (or_blank column)

  addressed : Fields → AdminSettings → Bool
  unfolding is_given
  addressed snapshot row =
      is_given (get "google_document_ai_project_id" snapshot) row.google_document_ai_project_id
      && is_given (get "google_document_ai_location" snapshot)
          (some row.google_document_ai_location)
      && is_given (get "google_document_ai_processor_id" snapshot)
          row.google_document_ai_processor_id

  -- `snapshot.get(key, column)`: a key that is there hides the column, whatever its value. A value that
  -- is not truthy is no version.
  version_of : Option Value → Option String → Option String
  unfolding present
  version_of none column = present column
  version_of (some v) column = if truthy v then some (secrets.py_str v) else none

  made : Fields → AdminSettings → String → String → String → Providers
  unfolding text_or or_blank version_of
  made snapshot row gemini_key model credentials = record {
    gemini_key = gemini_key;
    credentials = credentials;
    model = model;
    project =
        text_or (get "google_document_ai_project_id" snapshot)
          (or_blank row.google_document_ai_project_id);
    location = text_or (get "google_document_ai_location" snapshot) row.google_document_ai_location;
    processor =
        text_or (get "google_document_ai_processor_id" snapshot)
          (or_blank row.google_document_ai_processor_id);
    processor_version =
        version_of (get "google_document_ai_processor_version" snapshot)
          row.google_document_ai_processor_version;
  }

  infixl 10 ◌>>=◌
  ◌>>=◌ : {A B : Type 0} → Option A → (A → Option B) → Option B
  none >>= f = none
  some a >>= f = f a

  from_row : Fields → AdminSettings → Option Providers
  unfolding ◌>>=◌ supported decrypt_secret present model_of addressed made
  from_row snapshot row = if not (supported snapshot row) then none else do
    key ← present (decrypt_secret row.gemini_api_key_encrypted)
    model ← model_of snapshot row
    credentials ←
        if addressed snapshot row
        then present (decrypt_secret row.google_document_ai_credentials_encrypted)
        else none
    some (made snapshot row key model credentials)

  -- `none` where it raises a `RuntimeError`.
  unfoldable pub providers_for_snapshot : Option Fields → Option AdminSettings → Option Providers
  unfolding snapshot_or_empty from_row
  providers_for_snapshot snapshot none = none
  providers_for_snapshot snapshot (some row) = from_row (snapshot_or_empty snapshot) row
