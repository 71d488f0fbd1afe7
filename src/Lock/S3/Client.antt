-- ===== src/Lock/S3/Client.antt =====
-- The S3 client (crates/loadsmith-aws/src/s3.rs, `S3Client`) of one object whose URL is valid, over
-- HTTP: signing, the network and the service are parameters, by the number of the attempt. Waits
-- between attempts and the texts of errors are left out.
use loadsmith.Prelude.{
  ℕ, zero, suc, ◌+◌, ◌-◌, max, String, Bool, false, ◌&&◌, ◌||◌, Option, none, some, List, [], ◌∷◌,
  ltb, leb, ◌==◌, if◌then◌else◌,
}
use loadsmith.State.{Result, ok, err, store_failed}

pub data Precondition : Type 0 where
  unconditional absent : Precondition
  matches : String → Precondition

-- What a `PUT` did.
pub data Put : Type 0 where
  written : String → Put
  precondition_failed : Put

pub record Object : Type 0 where
  pub body : String
  pub etag : String

pub data Method : Type 0 where
  get_method put_method delete_method : Method

-- `headers` are the `extra` ones.
pub record Request : Type 0 where
  pub method : Method
  pub headers : List (String × String)
  pub body : String

-- `body` is `none` where reading it fails.
pub record Response : Type 0 where
  pub status : ℕ
  pub etag : Option String
  pub body : Option String

-- What `reqwest` makes of a request; an error is of the builder or of the transport.
pub data Outcome : Type 0 where
  answered : Response → Outcome
  failed : Bool → Outcome

-- What is behind the client, and the client's own limit; `S` is what the service keeps.
pub record Http (S : Type 0) : Type 0 where
  pub max_attempts : ℕ
  pub credentials : ℕ → Bool
  pub service : ℕ → Request → S → S × Outcome

abbrev pub is_success : ℕ → Bool
is_success status = leb 200 status && ltb status 300

abbrev pub is_server_error : ℕ → Bool
is_server_error status = leb 500 status && ltb status 600

abbrev pub accepts : List ℕ → ℕ → Bool
accepts [] status = false
accepts (x ∷ xs) status = status == x || accepts xs status

pub data Verdict : Type 0 where
  accepted : Response → Verdict
  retryable : Verdict
  hopeless : Verdict

-- the `match` of `send`
unfoldable pub judge : List ℕ → Outcome → Verdict
judge accept (answered r) =
    if is_success r.status || accepts accept r.status
    then accepted r
    else if r.status == 429 || r.status == 409 || is_server_error r.status
    then retryable
    else hopeless
judge accept (failed is_builder) = if is_builder then hopeless else retryable

abbrev pub etag : Response → String
etag r = elim r.etag [ none ↦ "" | some e ↦ e ]

abbrev pub condition : Precondition → List (String × String)
condition unconditional = []
condition absent = ("if-none-match", "*") ∷ []
condition (matches e) = ("if-match", e) ∷ []

unfoldable pub object_of : Result Response → Result (Option Object)
object_of (err e) = err e
object_of (ok r) = if r.status == 404 then ok none else elim r.body [
  | none ↦ err store_failed
  | some b ↦ ok (some (record { body = b; etag = etag r }))
]

unfoldable pub put_of : Result Response → Result Put
put_of (err e) = err e
put_of (ok r) = if r.status == 412 then ok precondition_failed else ok (written (etag r))

unfoldable pub deleted : Result Response → Result (Unit {0})
deleted (err e) = err e
deleted (ok r) = ok tt

module _ {S : Type 0} (http : Http S) where
  open http use {max_attempts, credentials, service}

  -- behind an attempt, `rest` is the one that follows it
  unfoldable pub settle : S → Verdict → Option (S × Result Response) → S × Result Response
  settle s (accepted r) rest = (s, ok r)
  settle s hopeless rest = (s, err store_failed)
  settle s retryable none = (s, err store_failed)
  settle s retryable (some r) = r

  -- The loop of `send`, with `left` attempts behind this one.
  unfoldable pub attempts : Request → List ℕ → ℕ → ℕ → S → S × Result Response
  unfolding settle judge
  attempts req accept zero attempt s =
      let (t, outcome) = service attempt req s in
      if credentials attempt then settle t (judge accept outcome) none else (s, err store_failed)
  attempts req accept (suc left) attempt s =
      let (t, outcome) = service attempt req s in
      let rest = attempts req accept left (attempt + 1) t in
      if credentials attempt
      then settle t (judge accept outcome) (some rest)
      else (s, err store_failed)

  -- `S3Client::send`; `new` makes the limit at least 1.
  unfoldable pub send : Request → List ℕ → S → S × Result Response
  unfolding attempts
  send req accept s = attempts req accept (max max_attempts 1 - 1) 1 s

  unfoldable pub get : S → S × Result (Option Object)
  unfolding send object_of
  get s =
      let (t, r) = send (record { method = get_method; headers = []; body = "" }) (404 ∷ []) s in
      (t, object_of r)

  unfoldable pub put : String → Precondition → S → S × Result Put
  unfolding send put_of
  put body when s =
      let (t, r) =
        send (record { method = put_method; headers = condition when; body = body }) (412 ∷ []) s in
      (t, put_of r)

  unfoldable pub delete : S → S × Result (Unit {0})
  unfolding send deleted
  delete s =
      let (t, r) = send (record { method = delete_method; headers = []; body = "" }) (404 ∷ []) s in
      (t, deleted r)
