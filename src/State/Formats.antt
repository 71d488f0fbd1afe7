-- ===== src/State/Formats.antt =====
-- The formats of the state document (crates/loadsmith-core/src/state.rs): what is written is read back.
use loadsmith.Prelude.{
  ℕ, ◌≤◌, ◌≡◌, ◌≢◌, ◌↔◌, refl, String, Option, none, some, arith, str_eq, str_eq_iff, leb, Bool,
  true, false, not, if◌then◌else◌,
}
use loadsmith.State.{
  StateDoc, ResumeRecord, StateError, Result, ok, err, SchemaChangePolicy, refuse, continue, new,
  with_resume, check_schema_drift, fingerprint_is_comparable, fingerprint_since, parse_doc,
  schema_changed,
}

module _ {V : Type 0} where
  -- A document built by `new` and `with_resume` carries the given cursor and resume record, has
  -- format 3 exactly if a record is present, is accepted unchanged by the check for its own pipeline
  -- and refused for every other one, and passes the drift guard against its own fingerprint.
  pub written_doc-parse_doc :
      (pipeline key schema_hash run_id : String) (cursor : V) (now : ℕ)
      (resume : Option (ResumeRecord V))
      → let doc = with_resume (new pipeline cursor schema_hash run_id now) resume in
        (doc.cursor_value ≡ cursor)
        × (doc.resume ≡ resume)
        × ((doc.version ≡ 3) ↔ (resume ≢ none))
        × (parse_doc (some doc) pipeline ≡ ok doc)
        × (pipeline ≢ key → (e : StateError) × (parse_doc (some doc) key ≡ err e))
        × (check_schema_drift doc schema_hash refuse ≡ ok tt)
  unfolding new with_resume parse_doc check_schema_drift
  written_doc-parse_doc pipeline key schema_hash run_id cursor now none = (
    refl,
    refl,
    (λ e. absurd (omega arith), λ h. absurd (h refl)),
    ground (arith, str_eq_iff pipeline pipeline),
    λ ne. (StateError.other_pipeline pipeline, ground (arith, str_eq_iff pipeline key)),
    ground (arith, str_eq_iff schema_hash schema_hash),
  )
  written_doc-parse_doc pipeline key schema_hash run_id cursor now (some r) = (
    refl,
    refl,
    (λ e h. cc, λ h. refl),
    ground (arith, str_eq_iff pipeline pipeline),
    λ ne. (StateError.other_pipeline pipeline, ground (arith, str_eq_iff pipeline key)),
    ground (arith, str_eq_iff schema_hash schema_hash),
  )

  passes :
      (prior : StateDoc V) (current : String) (a : Bool)
      → leb fingerprint_since prior.version ≡ a
      → (b : Bool) → str_eq prior.schema_hash current ≡ b
      → ¬ ((refuse ≡ refuse) × (2 ≤ prior.version) × (prior.schema_hash ≢ current))
      → ◌≡◌ {A = Result (Unit {0})}
          (if not a
            then ok tt
            else if b
            then ok tt
            else err (schema_changed prior.schema_hash current))
          (ok tt)
  passes prior current false e b f n = refl
  passes prior current true e true f n = refl
  passes prior current true e false f n =
      absurd (n (refl, ground arith, ground (arith, str_eq_iff prior.schema_hash current)))

  -- The drift guard refuses exactly when the policy is `refuse`, the document's format is 2 or
  -- later, and the recorded fingerprint differs from the current one; the error names both. In
  -- every other case it passes: there is no other error.
  pub check_schema_drift_refuses :
      (prior : StateDoc V) (current : String) (policy : SchemaChangePolicy)
      → ((check_schema_drift prior current policy ≡ err (schema_changed prior.schema_hash current))
          ↔ ((policy ≡ refuse) × (2 ≤ prior.version) × (prior.schema_hash ≢ current)))
        × ((check_schema_drift prior current policy ≡ ok tt)
            ↔ ¬ ((policy ≡ refuse) × (2 ≤ prior.version) × (prior.schema_hash ≢ current)))
  unfolding check_schema_drift fingerprint_is_comparable
  check_schema_drift_refuses prior current refuse = (
    (
      λ h. (refl, ground arith, ground (arith, str_eq_iff prior.schema_hash current)),
      λ (_, v, ne). ground (arith, str_eq_iff prior.schema_hash current),
    ),
    (
      λ h c. ground (arith, str_eq_iff prior.schema_hash current),
      λ n.
          passes prior current (leb fingerprint_since prior.version) refl
            (str_eq prior.schema_hash current) refl n,
    ),
  )
  check_schema_drift_refuses prior current continue =
      ((λ h. cc, λ (p, _, _). cc), (λ h c. cc, λ n. refl))

  -- A document is accepted only unchanged, for its own pipeline and in a format up to 3.
  pub parse_doc_sound :
      (raw : Option (StateDoc V)) (key : String) (doc : StateDoc V)
      → parse_doc raw key ≡ ok doc
      → (raw ≡ some doc) × (doc.version ≤ 3) × (doc.pipeline ≡ key)
  unfolding parse_doc
  parse_doc_sound none key doc h = cc
  parse_doc_sound (some d) key doc h = ground (arith, str_eq_iff d.pipeline key)
