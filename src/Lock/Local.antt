-- ===== src/Lock/Local.antt =====
-- The lock of the local backend (crates/loadsmith-core/src/state.rs, `LocalLock`), over a directory
-- that holds the lock file or not. `parse` and `print` stand for `serde_json`.
use loadsmith.Prelude.{ℕ, ◌+◌, ◌≡◌, ◌≢◌, refl, String, Bool, true, false, Option, none, some}
use loadsmith.State.{Result, ok, err, store_failed}
use loadsmith.Lock.{LockFile, Seen, LockStore}
use loadsmith.Lock.Holding.{IsLockStore}

-- How a call on the file ends: `cut` is a write that is not finished.
pub data Io : Type 0 where
  works fails cut : Io

-- The content of the lock file, and the number of calls made.
pub record LockDir : Type 0 where
  pub raw : Option String
  pub calls : ℕ

module _ (parse : String → Option LockFile) (print : LockFile → String) (io : ℕ → Io) where
  abbrev called : LockDir → Option String → LockDir
  called d raw = record { raw = raw; calls = d.calls + 1 }

  -- `create_new`; what the write of the new file returns is dropped
  unfoldable pub create_file : Io → Option String → LockFile → LockDir → LockDir × Result Bool
  create_file fails raw lease d = (called d raw, err store_failed)
  create_file works (some raw) lease d = (called d (some raw), ok false)
  create_file works none lease d = (called d (some (print lease)), ok true)
  create_file cut (some raw) lease d = (called d (some raw), ok false)
  create_file cut none lease d = (called d (some ""), ok true)

  unfoldable pub create : LockFile → LockDir → LockDir × Result Bool
  unfolding create_file
  create lease d = create_file (io d.calls) d.raw lease d

  abbrev pub seen_raw : String → Seen
  seen_raw raw = record { version = raw; lease = parse raw }

  unfoldable pub read : LockDir → Result (Option Seen)
  read d = elim (io d.calls) [
    | works ↦ ok (elim d.raw [ none ↦ none | some raw ↦ some (seen_raw raw) ])
    | fails ↦ err store_failed
    | cut ↦ err store_failed
  ]

  -- a temporary file, renamed to the lock file
  unfoldable pub rename_onto : Io → LockFile → LockDir → LockDir × Result Bool
  rename_onto works lease d = (called d (some (print lease)), ok true)
  rename_onto fails lease d = (called d d.raw, err store_failed)
  rename_onto cut lease d = (called d d.raw, err store_failed)

  unfoldable pub replace : Seen → LockFile → LockDir → LockDir × Result Bool
  unfolding rename_onto
  replace seen lease d = rename_onto (io d.calls) lease d

  unfoldable pub remove : LockDir → LockDir × Result (Unit {0})
  remove d = elim (io d.calls) [
    | works ↦ (called d none, ok tt)
    | fails ↦ (called d d.raw, err store_failed)
    | cut ↦ (called d d.raw, err store_failed)
  ]

  unfoldable pub local_lock : LockStore LockDir
  unfolding create read replace remove
  local_lock = record { create = create; read = read; replace = replace; remove = remove }

  -- The file holds a lease of this holder.
  abbrev pub Holds : String → LockDir → Type 0
  Holds h d =
      (raw : String) × (l : LockFile) × (d.raw ≡ some raw) × (parse raw ≡ some l) × (l.holder ≡ h)

  -- With a `serde_json` that reads back the holder that it prints, and no write that is cut short, a
  -- successful write of the local lock leaves it to its writer.
  pub local_lock_is_held :
      ((l : LockFile) → (l' : LockFile) × (parse (print l) ≡ some l') × (l'.holder ≡ l.holder))
      → ((n : ℕ) → io n ≢ cut)
      → IsLockStore local_lock Holds
  unfolding local_lock create replace create_file rename_onto
  local_lock_is_held reads whole = record {
    created = λ l d. go_create l d (io d.calls) d.raw (whole d.calls);
    replaced = λ seen l d. go_replace seen l d (io d.calls);
  }
    where
      printed : (l : LockFile) (d : LockDir) → Holds l.holder (called d (some (print l)))
      printed l d = let (l', same, own) = reads l in (print l, l', refl, same, own)

      go_create :
          (l : LockFile) (d : LockDir) (i : Io) (raw : Option String)
          → i ≢ cut
          → (create_file i raw l d).1 ≡ ok true
          → Holds l.holder (create_file i raw l d).0
      go_create l d fails raw w e = absurd (cc e)
      go_create l d works (some raw) w e = absurd (cc e)
      go_create l d works none w e = printed l d
      go_create l d cut raw w e = absurd (w refl)

      go_replace :
          (seen : Seen) (l : LockFile) (d : LockDir) (i : Io)
          → (rename_onto i l d).1 ≡ ok true
          → Holds l.holder (rename_onto i l d).0
      go_replace seen l d works e = printed l d
      go_replace seen l d fails e = absurd (cc e)
      go_replace seen l d cut e = absurd (cc e)
