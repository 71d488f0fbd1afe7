-- ===== src/Lock/S3.antt =====
-- The lock of the S3 backend (crates/loadsmith-core/src/state_s3.rs, `S3Lock`), over the client of the
-- object that holds the lock. `parse` and `print` stand for `serde_json`.
pub mod Client
pub mod Swap
use loadsmith.Prelude.{String, Bool, true, false, Option, none, some}
use loadsmith.State.{Result, ok, err}
use loadsmith.Lock.{LockFile, Seen, LockStore}
use loadsmith.Lock.S3.Client
use loadsmith.Lock.S3.Client.{
  Precondition, absent, matches, Put, written, precondition_failed, Object, Http,
}

-- whether a `PUT` wrote
unfoldable pub has_written : Result Put → Result Bool
has_written (ok (written etag)) = ok true
has_written (ok precondition_failed) = ok false
has_written (err e) = err e

module _ {S : Type 0} (parse : String → Option LockFile) (print : LockFile → String)
    (http : Http S) where
  -- `S3Lock::put`
  unfoldable pub put : LockFile → Precondition → S → S × Result Bool
  unfolding has_written Client.put
  put lease condition s =
      let (t, result) = Client.put http (print lease) condition s in (t, has_written result)

  unfoldable pub see : Result (Option Object) → Result (Option Seen)
  see (ok none) = ok none
  see (ok (some o)) = ok (some (record { version = o.etag; lease = parse o.body }))
  see (err e) = err e

  -- A `read` leaves the service as it is.
  unfoldable pub s3_lock : LockStore S
  unfolding put see Client.get Client.delete
  s3_lock = record {
    create = λ lease s. put lease absent s;
    read = λ s. see (Client.get http s).1;
    replace = λ seen lease s. put lease (matches seen.version) s;
    remove = λ s. Client.delete http s;
  }
