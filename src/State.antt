-- ===== src/State.antt =====
-- The state document of a pipeline (crates/loadsmith-core/src/state.rs): its formats, the check of a
-- document that was read, and the schema-drift guard. `V` stands for `serde_json::Value`, which
-- the core does not interpret; error texts are kept as the data that they are formatted from.
pub mod Formats
use loadsmith.Prelude.{
  ℕ, String, Bool, true, false, not, Option, none, some, ltb, leb, ◌==◌, str_eq, if◌then◌else◌,
}

abbrev pub state_format_version : ℕ
state_format_version = 3

abbrev pub plain_format_version : ℕ
plain_format_version = 2

abbrev pub fingerprint_since : ℕ
fingerprint_since = 2

pub record ResumeRecord (V : Type 0) : Type 0 where
  pub run_id : String
  pub started_at_unix_ms : ℕ
  pub config_hash : String
  pub next_object_seq : Option ℕ
  pub token : Option V

pub record StateDoc (V : Type 0) : Type 0 where
  pub version : ℕ
  pub pipeline : String
  pub cursor_value : V
  pub schema_hash : String
  pub run_id : String
  pub updated_at_unix_ms : ℕ
  pub resume : Option (ResumeRecord V)

pub data StateError : Type 0 where
  parse_state_file : StateError
  newer_format : ℕ → StateError
  other_pipeline : String → StateError
  schema_changed : String → String → StateError
  unsupported_backend : String → StateError
  store_failed : StateError

pub data Result {ℓ} (A : Type ℓ) : Type ℓ where
  ok : A → Result A
  err : StateError → Result A

-- `state.on_schema_change`
pub data SchemaChangePolicy : Type 0 where
  refuse continue : SchemaChangePolicy

module _ {V : Type 0} where
  -- `StateDoc::new` at the wall-clock time `now`
  unfoldable pub new : String → V → String → String → ℕ → StateDoc V
  new pipeline cursor_value schema_hash run_id now = record {
    version = plain_format_version;
    pipeline = pipeline;
    cursor_value = cursor_value;
    schema_hash = schema_hash;
    run_id = run_id;
    updated_at_unix_ms = now;
    resume = none;
  }

  unfoldable pub with_resume : StateDoc V → Option (ResumeRecord V) → StateDoc V
  with_resume doc none = record doc { version = plain_format_version; resume = none }
  with_resume doc (some r) = record doc { version = state_format_version; resume = some r }

  -- `is_null` is that of `serde_json::Value`.
  unfoldable pub watermark : (V → Bool) → StateDoc V → Option V
  watermark is_null doc = if is_null doc.cursor_value then none else some doc.cursor_value

  unfoldable pub is_legacy : StateDoc V → Bool
  is_legacy doc = doc.version == 0

  unfoldable pub fingerprint_is_comparable : StateDoc V → Bool
  fingerprint_is_comparable doc = leb fingerprint_since doc.version

  unfoldable pub check_schema_drift : StateDoc V → String → SchemaChangePolicy → Result (Unit {0})
  unfolding fingerprint_is_comparable
  check_schema_drift prior current_hash refuse =
      if not (fingerprint_is_comparable prior)
      then ok tt
      else if str_eq prior.schema_hash current_hash
      then ok tt
      else err (schema_changed prior.schema_hash current_hash)
  check_schema_drift prior current_hash continue = ok tt

  -- What `serde_json` reads from the file's text is given: `none` where it is no document.
  unfoldable pub parse_doc : Option (StateDoc V) → String → Result (StateDoc V)
  parse_doc none key = err parse_state_file
  parse_doc (some doc) key =
      if ltb state_format_version doc.version
      then err (newer_format doc.version)
      else if not (str_eq doc.pipeline key)
      then err (other_pipeline doc.pipeline)
      else ok doc
