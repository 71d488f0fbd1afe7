-- ===== src/Tests/Persistence.antt =====
-- Concrete state documents, runs of the state supervisor, and states of the lock
-- (crates/loadsmith-core/src/state.rs and state_supervisor.rs).
use loadsmith.Prelude.{
  ℕ, zero, suc, ◌<◌, ◌≤◌, ◌≡◌, ◌≢◌, ◌↔◌, ◌⊎◌, inl, refl, ap, ◌∙◌, ◌&&◌, ◌++◌, String, Bool, true,
  false, Option, none, some, List, [], ◌∷◌, All, arith, str_eq, str_eq_iff, ◌==◌, if◌then◌else◌,
}
use loadsmith.State.{
  StateDoc, StateError, Result, ok, err, ResumeRecord, new, with_resume, parse_doc,
  check_schema_drift, refuse, schema_changed,
}
use loadsmith.State.Formats.{written_doc-parse_doc, check_schema_drift_refuses, parse_doc_sound}
use loadsmith.StateSupervisor.{
  SourceCheckpoint, StateRun, Event, checkpoint, committed, delivered, Ending, Backend, Supervisor,
  run_state_supervisor, returned, state_of, has_succeeded, has_resume,
}
use loadsmith.StateSupervisor.Gate.{Received, Backed}
use loadsmith.StateSupervisor.Durable.{durable_limit, Clears, stored_is_durable}
use loadsmith.StateSupervisor.Complete.{both_closed, IsStored, IsCleared, run_persists_durable}
use loadsmith.Lock.{
  LockFile, Seen, LockStore, World, Lease, held, refused, acquire, look, round, find, contend,
  watch, steal, after_watch, renew, release, fresh, is_held_by, holder_of, age_ms,
}
use loadsmith.Lock.Holding.{IsLockStore, acquire_holds}
use loadsmith.Lock.Watching.{looked, renewed_lock_refuses, idle_lock_is_taken}
use loadsmith.Lock.Leasing.{IsCompareAndSwap, IsOthersWork, renew_spares_others, release_is_final}
use loadsmith.Lock.S3.{s3_lock}
use loadsmith.Lock.S3.Client.{
  Object, Http, Request, Response, Outcome, answered, Method, get_method, put_method, delete_method,
  is_success, etag,
}
use loadsmith.Lock.S3.Swap.{get_request, put_request, IsS3, IsHeldBy, s3_lock-IsCompareAndSwap}
use loadsmith.Lock.Local.{
  works, LockDir, local_lock, create, create_file, Holds, local_lock_is_held,
}

abbrev doc : StateDoc ℕ
doc = new "p" 7 "h" "r" 100

abbrev new_doc : StateDoc ℕ
new_doc = with_resume (new "p" 7 "h" "r" 100) none

abbrev owner : String
owner = "p"

abbrev other_key : String
other_key = "q"

abbrev no_record : Option (ResumeRecord ℕ)
no_record = none

abbrev other_hash : String
other_hash = "other"

written_doc-parse_doc_example :
    (new_doc.cursor_value ≡ 7)
    × (new_doc.resume ≡ no_record)
    × ((new_doc.version ≡ 3) ↔ (no_record ≢ none))
    × (parse_doc (some new_doc) "p" ≡ ok new_doc)
    × (owner ≢ other_key → (e : StateError) × (parse_doc (some new_doc) other_key ≡ err e))
    × (check_schema_drift new_doc "h" refuse ≡ ok tt)
written_doc-parse_doc_example = written_doc-parse_doc owner other_key "h" "r" 7 100 none

check_schema_drift_refuses_example :
    ((check_schema_drift doc other_hash refuse ≡ err (schema_changed doc.schema_hash other_hash))
      ↔ ((refuse ≡ refuse) × (2 ≤ doc.version) × (doc.schema_hash ≢ other_hash)))
    × ((check_schema_drift doc other_hash refuse ≡ ok tt)
        ↔ ¬ ((refuse ≡ refuse) × (2 ≤ doc.version) × (doc.schema_hash ≢ other_hash)))
check_schema_drift_refuses_example = check_schema_drift_refuses doc other_hash refuse

parse_doc_sound_example : (some doc ≡ some doc) × (doc.version ≤ 3) × (doc.pipeline ≡ "p")
unfolding parse_doc new
parse_doc_sound_example = parse_doc_sound (some doc) "p" doc refl

abbrev first : SourceCheckpoint ℕ
first = record { batch_seq = 1; cursor_value = 11; resume_token = none }

abbrev second : SourceCheckpoint ℕ
second = record { batch_seq = 2; cursor_value = 22; resume_token = none }

abbrev state_run : StateRun ℕ
state_run = record {
  pipeline = "p";
  schema_hash = "h";
  run_id = "r";
  checkpoint_interval = 1;
  resume = none;
  prior = none;
}

abbrev backend : Backend
backend = record { fails = λ i. false; now_unix_ms = λ i. i }

abbrev ending : Ending
ending = record { delivery = some true; queued = []; outcome = some true }

abbrev events : List (Event ℕ)
events =
    checkpoint second
    ∷ checkpoint first
    ∷ delivered (record { through = 1; objects = 1 })
    ∷ committed 2
    ∷ []

stored_is_durable_example :
    All
      (λ d. Backed (λ c. Received c events) (durable_limit ending events) d ⊎ Clears state_run d)
      (state_of (run_state_supervisor backend state_run ending events)).stored
stored_is_durable_example = stored_is_durable backend state_run ending events

run_persists_durable_example :
    (u : Supervisor ℕ) × (run_state_supervisor backend state_run ending (events ++ both_closed)
      ≡ returned u)
    × ((d : SourceCheckpoint ℕ) × (doc : StateDoc ℕ) × (older : List (StateDoc ℕ)) × IsStored
          (λ d. Received d events)
          second
          u
          d
          doc
          older)
    × (has_succeeded ending ≡ true → has_resume state_run.prior ≡ true → IsCleared u)
run_persists_durable_example =
    run_persists_durable backend state_run ending events second (λ i. refl) refl
      (tt, (tt, (tt, (tt, tt)))) (inl refl) (omega arith) (omega arith)

-- a lock file that holds the holder's token alone
abbrev parse : String → Option LockFile
parse raw = some (fresh raw 0)

abbrev print : LockFile → String
print l = l.holder

abbrev local : LockStore LockDir
local = local_lock parse print (λ n. works)

abbrev idle : World LockDir
idle = record { others = λ n d. d; clock = λ n. n }

abbrev empty_dir : LockDir
empty_dir = record { raw = none; calls = 0 }

acquire_holds_example :
    Holds parse print (λ n. works) "me" (acquire local idle 1 2 "me" 0 empty_dir).1
unfolding acquire round find contend watch steal after_watch local_lock create create_file
acquire_holds_example =
    acquire_holds local idle (Holds parse print (λ n. works))
      (local_lock_is_held parse print (λ n. works) (λ l. (fresh l.holder 0, refl, refl))
        (λ n e. absurd (cc e)))
      1 2 "me" 0 empty_dir refl

-- a lock that is its holder's token, replaced by compare-and-swap
abbrev seen_token : String → Seen
seen_token h = record { version = h; lease = some (fresh h 0) }

abbrev swap : Seen → LockFile → Option String → Option String × Result Bool
swap seen l none = (none, ok false)
swap seen l (some h) =
    if str_eq h seen.version then (some l.holder, ok true) else (some h, ok false)

abbrev make : LockFile → Option String → Option String × Result Bool
make l none = (some l.holder, ok true)
make l (some h) = (some h, ok false)

abbrev shared : LockStore (Option String)
shared = record {
  create = make;
  read = λ s. elim s [ none ↦ ok none | some h ↦ ok (some (seen_token h)) ];
  replace = swap;
  remove = λ s. (none, ok tt);
}

-- another run takes the lock before the call 3
abbrev taking : World (Option String)
taking = record { others = λ n s. if n == 3 then some "late" else s; clock = λ n. n }

abbrev quiet : World (Option String)
quiet = record { others = λ n s. s; clock = λ n. n }

first_look : (j : ℕ) → j < 1 → looked shared taking (seen_token "early") j 2 (some "early") ≡ none
unfolding look
first_look zero lt = refl
first_look (suc j) lt = absurd (omega arith)

differ : (seen_token "late").version ≢ (seen_token "early").version
differ e = absurd (cc ((str_eq_iff "late" "early").1 e))

renewed_lock_refuses_example : (acquire shared taking 1 2 "me" 0 (some "early")).2 ≡ refused
renewed_lock_refuses_example =
    renewed_lock_refuses shared taking 0 2 1 "me" (seen_token "early") (seen_token "late") 0
      (some "early") (some "early") (refl, refl, unfold age_ms in omega arith) (omega arith)
      (λ j lt. first_look j lt) refl (λ e. differ e)

idle_lock_is_taken_example : (acquire shared quiet 1 2 "me" 0 (some "crashed")).2 ≡ held
idle_lock_is_taken_example =
    idle_lock_is_taken shared quiet 0 2 "me" (seen_token "crashed") 0 (some "crashed") (λ m t. refl)
      (λ l. refl) refl (λ l. refl)

shared-IsCompareAndSwap : IsCompareAndSwap shared
shared-IsCompareAndSwap = record { guarded = guarded; versioned = versioned }
  where
    guarded :
        (seen now : Seen) (l : LockFile) (s : Option String)
        → shared.read s ≡ ok (some now)
        → now.version ≢ seen.version
        → (swap seen l s).0 ≡ s
    guarded seen now l none e ne = refl
    guarded seen now l (some h) e ne =
        let same : h ≡ now.version = cc e in ground (arith, str_eq_iff h seen.version)

    versioned :
        (a b : Seen) (s t : Option String)
        → shared.read s ≡ ok (some a)
        → shared.read t ≡ ok (some b)
        → a.version ≡ b.version
        → a.lease ≡ b.lease
    versioned a b none t e f same = absurd (cc e)
    versioned a b (some h) none e f same = absurd (cc f)
    versioned a b (some h) (some k) e f same = cc

abbrev lease : Lease
lease = record { holder = "me"; released = false; lost = false }

renew_spares_others_example :
    IsOthersWork shared taking 3 (some "me") (renew shared taking lease 3 (some "me")).0
renew_spares_others_example =
    renew_spares_others shared taking lease 3 (some "me") (seen_token "late")
      shared-IsCompareAndSwap refl (unfold is_held_by holder_of in refl)

release_is_final_example :
    let (s', gone) = release shared taking lease 0 (some "me") in
    (renew shared taking gone 5 none ≡ (none, gone))
    × ((seen : Seen)
        → shared.read (some "me") ≡ ok (some seen)
        → is_held_by "me" seen ≡ true
        → s' ≡ none)
    × (((seen : Seen) → shared.read (some "me") ≡ ok (some seen) → is_held_by "me" seen ≡ false)
        → s' ≡ some "me")
release_is_final_example = release_is_final shared taking lease 0 5 (some "me") none

-- a bucket with one object, whose ETag is its content, and a service that is busy at first
abbrev response : ℕ → Option String → Outcome
response status content = answered (record { status = status; etag = content; body = content })

abbrev upload : String → List (String × String) → Option String → Option String × Outcome
upload body [] s = (some body, response 200 (some body))
upload body ((name, tag) ∷ more) none =
    if str_eq name "if-match"
    then (none, response 412 none)
    else (some body, response 200 (some body))
upload body ((name, tag) ∷ more) (some h) =
    if str_eq name "if-match" && str_eq h tag
    then (some body, response 200 (some body))
    else (some h, response 412 none)

abbrev served : Method → Request → Option String → Option String × Outcome
served get_method req none = (none, response 404 none)
served get_method req (some h) = (some h, response 200 (some h))
served put_method req s = upload req.body req.headers s
served delete_method req s = (none, response 204 none)

abbrev busy_first : Bool → Request → Option String → Option String × Outcome
busy_first true req s = (s, response 503 none)
busy_first false req s = served req.method req s

abbrev bucket : Http (Option String)
bucket = record {
  max_attempts = 4;
  credentials = λ n. true;
  service = λ n req s. busy_first (n == 1) req s;
}

abbrev content : Option String → Option Object
content none = none
content (some h) = some (record { body = h; etag = h })

bucket_safe : (b : Bool) (s : Option String) → (busy_first b get_request s).0 ≡ s
bucket_safe true s = refl
bucket_safe false none = refl
bucket_safe false (some h) = refl

bucket_found :
    (b : Bool) (r : Response) (body : String) (s : Option String)
    → (busy_first b get_request s).1 ≡ answered r
    → is_success r.status ≡ true
    → r.body ≡ some body
    → content s ≡ some (record { body = body; etag = etag r })
bucket_found true r body s e ok_ got = absurd (ground (arith, e, ok_))
bucket_found false r body none e ok_ got = absurd (ground (arith, e, ok_))
bucket_found false r body (some h) e ok_ got =
    let same : record { status = 200; etag = some h; body = some h } ≡ r = cc e in
    let text : h ≡ body = cc (ap (λ x. x.body) same, got) in
    ap (λ x. some (record { body = x; etag = h })) text
    ∙ ap (λ x. some (record { body = body; etag = etag x })) same

bucket_matched :
    (b : Bool) (body tag : String) (o : Object) (s : Option String)
    → content s ≡ some o
    → o.etag ≢ tag
    → (busy_first b (put_request body (("if-match", tag) ∷ [])) s).0 ≡ s
bucket_matched true body tag o s e ne = refl
bucket_matched false body tag o none e ne = refl
bucket_matched false body tag o (some h) e ne =
    let same : h ≡ o.etag = cc e in ground (arith, str_eq_iff h tag)

upload_wrote :
    (b : Bool) (body h : String) (r : Response)
    → (if◌then◌else◌ {A = Option String × Outcome} b
        (some body, response 200 (some body))
        (some h, response 412 none)).1
      ≡ answered r
    → is_success r.status ≡ true
    → (tag : String) × (content
          (if◌then◌else◌ {A = Option String × Outcome} b
            (some body, response 200 (some body))
            (some h, response 412 none)).0
        ≡ some (record { body = body; etag = tag }))
upload_wrote true body h r e ok_ = (body, refl)
upload_wrote false body h r e ok_ = absurd (ground (arith, e, ok_))

upload_wrote_new :
    (b : Bool) (body : String) (r : Response)
    → (if◌then◌else◌ {A = Option String × Outcome} b
        (none, response 412 none)
        (some body, response 200 (some body))).1
      ≡ answered r
    → is_success r.status ≡ true
    → (tag : String) × (content
          (if◌then◌else◌ {A = Option String × Outcome} b
            (none, response 412 none)
            (some body, response 200 (some body))).0
        ≡ some (record { body = body; etag = tag }))
upload_wrote_new false body r e ok_ = (body, refl)
upload_wrote_new true body r e ok_ = absurd (ground (arith, e, ok_))

bucket_wrote :
    (b : Bool) (body : String) (headers : List (String × String)) (r : Response) (s : Option String)
    → (busy_first b (put_request body headers) s).1 ≡ answered r
    → is_success r.status ≡ true
    → (tag : String) × (content (busy_first b (put_request body headers) s).0
        ≡ some (record { body = body; etag = tag }))
bucket_wrote true body headers r s e ok_ = absurd (ground (arith, e, ok_))
bucket_wrote false body [] r s e ok_ = (body, refl)
bucket_wrote false body ((name, tag) ∷ more) r none e ok_ =
    upload_wrote_new (str_eq name "if-match") body r e ok_
bucket_wrote false body ((name, tag) ∷ more) r (some h) e ok_ =
    upload_wrote (str_eq name "if-match" && str_eq h tag) body h r e ok_

bucket-IsS3 : IsS3 bucket content
bucket-IsS3 = record {
  safe = λ n s. bucket_safe (n == 1) s;
  found = λ n r body s. bucket_found (n == 1) r body s;
  matched = λ n body tag o s. bucket_matched (n == 1) body tag o s;
  wrote = λ n body headers r s. bucket_wrote (n == 1) body headers r s;
  named = named;
}
  where
    named :
        (a b : Object) (s t : Option String)
        → content s ≡ some a
        → content t ≡ some b
        → a.etag ≡ b.etag
        → a.body ≡ b.body
    named a b none t e f same = absurd (cc e)
    named a b (some h) none e f same = absurd (cc f)
    named a b (some h) (some k) e f same = cc

s3_lock-IsCompareAndSwap_example :
    IsCompareAndSwap (s3_lock parse print bucket)
    × IsLockStore (s3_lock parse print bucket) (IsHeldBy parse print bucket content bucket-IsS3)
s3_lock-IsCompareAndSwap_example = s3_lock-IsCompareAndSwap parse print bucket content bucket-IsS3
