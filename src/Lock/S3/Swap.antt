-- ===== src/Lock/S3/Swap.antt =====
-- What the conditional writes of the S3 service make of the lock of
-- crates/loadsmith-core/src/state_s3.rs, through the client of crates/loadsmith-aws/src/s3.rs, which
-- sends a request again when it may pass on another try.
use loadsmith.Prelude.{
  ℕ, zero, suc, ◌+◌, ◌-◌, max, ◌≡◌, ◌≢◌, refl, sym, ap, ◌∙◌, String, Bool, true, false, ◌||◌,
  Option, none, some, List, [], ◌∷◌, ◌==◌, if◌then◌else◌, arith,
}
use loadsmith.State.{Result, ok, err, store_failed}
use loadsmith.Lock.{LockFile, Seen}
use loadsmith.Lock.Leasing.{IsCompareAndSwap}
use loadsmith.Lock.S3.Client
use loadsmith.Lock.S3.Client.{
  Precondition, absent, matches, Put, written, precondition_failed, Object, Http, Request, Response,
  Outcome, answered, failed, get_method, put_method, is_success, judge, Verdict, accepted,
  retryable, hopeless, attempts, settle, send, object_of, put_of, condition, etag, accepts,
  is_server_error,
}
use loadsmith.Lock.Holding.{IsLockStore}
use loadsmith.Lock.S3.{put, see, s3_lock, has_written}

abbrev pub get_request : Request
get_request = record { method = get_method; headers = []; body = "" }

abbrev pub put_request : String → List (String × String) → Request
put_request body headers = record { method = put_method; headers = headers; body = body }

-- What S3 documents of one object, `object` of what the service keeps: a `GET` changes nothing, and
-- its success gives the object; a `PUT` on the condition of an ETag that is not the object's
-- changes nothing; a `PUT` that succeeds has written its body; and an ETag names a content.
pub record IsS3 {S : Type 0} (http : Http S) (object : S → Option Object) : Type 0 where
  pub safe : (n : ℕ) (s : S) → (http.service n get_request s).0 ≡ s
  pub found :
      (n : ℕ) (r : Response) (body : String) (s : S)
      → (http.service n get_request s).1 ≡ answered r
      → is_success r.status ≡ true
      → r.body ≡ some body
      → object s ≡ some (record { body = body; etag = etag r })
  pub matched :
      (n : ℕ) (body tag : String) (o : Object) (s : S)
      → object s ≡ some o
      → o.etag ≢ tag
      → (http.service n (put_request body (("if-match", tag) ∷ [])) s).0 ≡ s
  pub wrote :
      (n : ℕ) (body : String) (headers : List (String × String)) (r : Response) (s : S)
      → (http.service n (put_request body headers) s).1 ≡ answered r
      → is_success r.status ≡ true
      → (tag : String) × (object (http.service n (put_request body headers) s).0
          ≡ some (record { body = body; etag = tag }))
  pub named :
      (a b : Object) (s t : S)
      → object s ≡ some a
      → object t ≡ some b
      → a.etag ≡ b.etag
      → a.body ≡ b.body

judge-accepted :
    (accept : List ℕ) (o : Outcome) (r : Response)
    → judge accept o ≡ accepted r
    → (o ≡ answered r) × ((is_success r.status || accepts accept r.status) ≡ true)
unfolding judge
judge-accepted accept (answered q) r e = go (is_success q.status || accepts accept q.status) refl e
  where
    go :
        (b : Bool)
        → (is_success q.status || accepts accept q.status) ≡ b
        → (if b
            then accepted q
            else if q.status == 429 || q.status == 409 || is_server_error q.status
            then retryable
            else hopeless)
          ≡ accepted r
        → (answered q ≡ answered r) × ((is_success r.status || accepts accept r.status) ≡ true)
    go true f e =
        let same : q ≡ r = cc e in
        (ap answered same, ap (λ x. is_success x.status || accepts accept x.status) (sym same) ∙ f)
    go false f e = absurd (ground (arith, e))
judge-accepted accept (failed b) r e = absurd (ground (arith, e))

module _ {S : Type 0} (http : Http S) (req : Request) (accept : List ℕ) (I : S → Type 0)
    (Q : S → Response → Type 0) where
  -- The state is one that an attempt may leave, and the response one that it may accept.
  abbrev IsKept : S × Result Response → Type 0
  IsKept t = I t.0 × ((r : Response) → t.1 ≡ ok r → Q t.0 r)

  settle-none-IsKept :
      (t : S) (v : Verdict)
      → I t
      → ((r : Response) → v ≡ accepted r → Q t r)
      → IsKept (settle http t v none)
  unfolding settle
  settle-none-IsKept t (accepted r) i q = (i, λ x e. q x (cc e))
  settle-none-IsKept t retryable i q = (i, λ x e. absurd (cc e))
  settle-none-IsKept t hopeless i q = (i, λ x e. absurd (cc e))

  settle-some-IsKept :
      (t : S) (v : Verdict) (rest : S × Result Response)
      → I t
      → ((r : Response) → v ≡ accepted r → Q t r)
      → IsKept rest
      → IsKept (settle http t v (some rest))
  unfolding settle
  settle-some-IsKept t (accepted r) rest i q k = (i, λ x e. q x (cc e))
  settle-some-IsKept t retryable rest i q k = k
  settle-some-IsKept t hopeless rest i q k = (i, λ x e. absurd (cc e))

  -- What every attempt keeps, and what each accepted response says of the state behind it, holds
  -- of a request however often it is sent.
  attempts-IsKept :
      ((n : ℕ) (s : S) → I s → I (http.service n req s).0)
      → ((n : ℕ) (s : S) (r : Response)
          → I s
          → (http.service n req s).1 ≡ answered r
          → (is_success r.status || accepts accept r.status) ≡ true
          → Q (http.service n req s).0 r)
      → (left attempt : ℕ) (s : S) → I s
      → IsKept (attempts http req accept left attempt s)
  unfolding attempts
  attempts-IsKept keeps says zero attempt s i = go (http.credentials attempt)
    where
      t : S
      t = (http.service attempt req s).0

      go :
          (b : Bool)
          → IsKept (
              if b
              then settle http t (judge accept (http.service attempt req s).1) none
              else (s, err store_failed))
      go true =
          settle-none-IsKept t (judge accept (http.service attempt req s).1) (keeps attempt s i)
            (λ r e. let (said, good) = judge-accepted accept _ r e in says attempt s r i said good)
      go false = (i, λ r e. absurd (cc e))
  attempts-IsKept keeps says (suc left) attempt s i = go (http.credentials attempt) (
      attempts-IsKept keeps says left (attempt + 1) (http.service attempt req s).0
        (keeps attempt s i))
    where
      t : S
      t = (http.service attempt req s).0

      go :
          (b : Bool)
          → IsKept (attempts http req accept left (attempt + 1) t)
          → IsKept (
              if b
              then settle http t
                  (judge accept (http.service attempt req s).1)
                  (some (attempts http req accept left (attempt + 1) t))
              else (s, err store_failed))
      go true k =
          settle-some-IsKept t (judge accept (http.service attempt req s).1) _ (keeps attempt s i)
            (λ r e. let (said, good) = judge-accepted accept _ r e in says attempt s r i said good)
            k
      go false k = (i, λ r e. absurd (cc e))

-- An object that was got was answered with success, and read.
object_of_found :
    (r : Result Response) (o : Object)
    → object_of r ≡ ok (some o)
    → (q : Response) × (r ≡ ok q)
      × ((q.status == 404) ≡ false)
      × (q.body ≡ some o.body)
      × (o.etag ≡ etag q)
unfolding object_of
object_of_found (err x) o e = absurd (cc e)
object_of_found (ok q) o e = go (q.status == 404) refl q.body refl e
  where
    go :
        (b : Bool)
        → (q.status == 404) ≡ b
        → (body : Option String) → q.body ≡ body
        → ◌≡◌ {A = Result (Option Object)}
            (if b then ok none else elim body [
              | none ↦ err store_failed
              | some x ↦ ok (some (record { body = x; etag = etag q }))
            ])
            (ok (some o))
        → (p : Response) × (◌≡◌ {A = Result Response} (ok q) (ok p))
          × ((p.status == 404) ≡ false)
          × (p.body ≡ some o.body)
          × (o.etag ≡ etag p)
    go true f body g e = absurd (cc e)
    go false f none g e = absurd (cc e)
    go false f (some x) g e =
        let same : record { body = x; etag = etag q } ≡ o = cc e in
        (q, refl, f, g ∙ ap (λ y. some (y.body)) same, ap (λ y. y.etag) (sym same))

-- A `PUT` that wrote was accepted with another status than 412.
has_written-true :
    (r : Result Response)
    → has_written (put_of r) ≡ ok true
    → (q : Response) × (r ≡ ok q) × ((q.status == 412) ≡ false)
unfolding has_written put_of
has_written-true (err x) e = absurd (cc e)
has_written-true (ok q) e = go (q.status == 412) refl e
  where
    go :
        (b : Bool)
        → (q.status == 412) ≡ b
        → has_written (if b then ok precondition_failed else ok (written (etag q))) ≡ ok true
        → (p : Response) × (◌≡◌ {A = Result Response} (ok q) (ok p)) × ((p.status == 412) ≡ false)
    go true f e = absurd (cc e)
    go false f e = (q, refl, f)

-- A status that is accepted and is not the one that `accept` names is a success.
succeeded :
    (status named : ℕ)
    → (is_success status || accepts (named ∷ []) status) ≡ true
    → (status == named) ≡ false
    → is_success status ≡ true
succeeded status named e n = ground (arith, e, n)

module _ {S : Type 0} (parse : String → Option LockFile) (print : LockFile → String) (http : Http S)
    (object : S → Option Object) (law : IsS3 http object) where
  seen_object :
      (r : Result (Option Object)) (now : Seen)
      → see parse print http r ≡ ok (some now)
      → (o : Object) × (r ≡ ok (some o)) × (now.version ≡ o.etag) × (now.lease ≡ parse o.body)
  unfolding see
  seen_object (ok none) now e = absurd (cc e)
  seen_object (ok (some o)) now e = (o, refl, cc e, cc e)
  seen_object (err x) now e = absurd (cc e)

  -- A lock that is read is the object's.
  read_found :
      (now : Seen) (s : S)
      → (s3_lock parse print http).read s ≡ ok (some now)
      → (o : Object) × (object s ≡ some o) × (now.version ≡ o.etag) × (now.lease ≡ parse o.body)
  unfolding s3_lock see Client.get send
  read_found now s e =
      let Says : S → Response → Type 0 = λ t r.
        ((is_success r.status || accepts (404 ∷ []) r.status) ≡ true)
        × ((body : String)
            → is_success r.status ≡ true
            → r.body ≡ some body
            → object s ≡ some (record { body = body; etag = etag r })) in
      let (o, got, version, lease) = seen_object _ now e in
      let (q, said, status, body, tag) = object_of_found _ o got in
      let (_, says) =
        attempts-IsKept http get_request (404 ∷ []) (λ t. t ≡ s) Says (λ n t i. law.safe n t ∙ i)
          (λ n t r i said good.
            (good, λ body yes' b. ap object (sym i) ∙ law.found n r body t said yes' b))
          (max http.max_attempts 1 - 1) 1 s refl in
      let (good, gives) = says q said in
      let same = gives o.body (succeeded q.status 404 good status) body in
      (o, same ∙ ap (λ t. some (record { body = o.body; etag = t })) (sym tag), version, lease)

  replace_keeps :
      (o : Object) (tag : String) (l : LockFile) (s : S)
      → object s ≡ some o
      → o.etag ≢ tag
      → (put parse print http l (matches tag) s).0 ≡ s
  unfolding put Client.put send
  replace_keeps o tag l s is differs =
      (attempts-IsKept http (put_request (print l) (("if-match", tag) ∷ [])) (412 ∷ []) (λ t. t ≡ s)
        (λ t r. Unit) (λ n t i. law.matched n (print l) tag o t (ap object i ∙ is) differs ∙ i)
        (λ n t r i said good. tt) (max http.max_attempts 1 - 1) 1 s refl).0

  -- The object is a lock that this holder has written.
  abbrev pub IsHeldBy : String → S → Type 0
  IsHeldBy holder s =
      (l : LockFile) × (tag : String) × (l.holder ≡ holder)
      × (object s ≡ some (record { body = print l; etag = tag }))

  put_writes :
      (l : LockFile) (when : Precondition) (s : S)
      → (put parse print http l when s).1 ≡ ok true
      → IsHeldBy l.holder (put parse print http l when s).0
  unfolding put Client.put send
  put_writes l when s e =
      let Writes : S → Response → Type 0 = λ t r.
        ((is_success r.status || accepts (412 ∷ []) r.status) ≡ true)
        × (is_success r.status ≡ true
            → (tag : String) × (object t ≡ some (record { body = print l; etag = tag }))) in
      let (q, said, status) = has_written-true _ e in
      let (_, says) =
        attempts-IsKept http (put_request (print l) (condition when)) (412 ∷ []) (λ t. Unit {0})
          Writes (λ n t i. tt)
          (λ n t r i answer good.
            (good, λ yes'. law.wrote n (print l) (condition when) r t answer yes'))
          (max http.max_attempts 1 - 1) 1 s tt in
      let (good, wrote) = says q said in
      let (tag, is) = wrote (succeeded q.status 412 good status) in (l, tag, refl, is)

  -- With what S3 documents, and however often the client sends a request again, the lock of the
  -- S3 backend is replaced by compare-and-swap: a `replace` changes nothing if the lock has another
  -- version than the one seen, and a version names a lease; and a `create` or a `replace` that
  -- reports success has left the lock to its writer.
  pub s3_lock-IsCompareAndSwap :
      IsCompareAndSwap (s3_lock parse print http) × IsLockStore (s3_lock parse print http) IsHeldBy
  unfolding s3_lock
  s3_lock-IsCompareAndSwap = (
    record {
      guarded = λ seen now l s was differs.
          let (o, is, version, _) = read_found now s was in
          replace_keeps o seen.version l s is (λ same. differs (version ∙ same));
      versioned = λ a b s t was found same.
          let (o, is, version, lease) = read_found a s was in
          let (q, is', version', lease') = read_found b t found in
          let bodies = law.named o q s t is is' (sym version ∙ same ∙ version') in
          lease ∙ ap parse bodies ∙ sym lease';
    },
    record {
      created = λ l s e. put_writes l absent s e;
      replaced = λ seen l s e. put_writes l (matches seen.version) s e;
    },
  )
