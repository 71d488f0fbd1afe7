-- ===== src/Lock/Holding.antt =====
-- What `acquire` of crates/loadsmith-core/src/state.rs gives: a lock that is held, a crashed run's
-- lock taken, and a live run's lock left alone.
use loadsmith.Prelude.{
  ℕ, zero, suc, ◌+◌, ◌≡◌, refl, ap, inl, inr, String, Bool, true, false, Option, none, some, leb,
  if◌then◌else◌, Bool-cases,
}
use loadsmith.State.{Result, ok, err}
use loadsmith.Lock.{
  LockFile, Seen, LockStore, World, Acquired, held, refused, lock_failed, Watched, gone, renewed,
  expired, Round, over, again, fresh, age_ms, lease_ttl, watch, steal, after_watch, contend, find,
  round, acquire,
}

-- What a store promises of a lock that it says is written; `Held h s` is that `h` holds it.
pub record IsLockStore {S : Type 0} (store : LockStore S) (Held : String → S → Type 0)
    : Type 0 where
  pub created :
      (l : LockFile) (s : S) → (store.create l s).1 ≡ ok true → Held l.holder (store.create l s).0
  pub replaced :
      (seen : Seen) (l : LockFile) (s : S)
      → (store.replace seen l s).1 ≡ ok true
      → Held l.holder (store.replace seen l s).0

module _ {S : Type 0} (store : LockStore S) (world : World S) where
  open store use {create, read, replace, remove}
  open world use {others, clock}

  -- A round that ends with the lock has it.
  abbrev Won : (Held : String → S → Type 0) → String → ℕ × S × Round → Type 0
  Won Held holder (n, s, r) = r ≡ over held → Held holder s

  steal-Won :
      (Held : String → S → Type 0)
      → IsLockStore store Held
      → (holder : String) (seen : Seen) (n : ℕ) (s : S)
      → Won Held holder (steal store world holder seen n s)
  unfolding steal
  steal-Won Held laws holder seen n s =
      go (replace seen (fresh holder (clock n)) (others n s))
        (laws.replaced seen (fresh holder (clock n)) (others n s))
    where
      go :
          (r : S × Result Bool)
          → (r.1 ≡ ok true → Held holder r.0)
          → over (elim r.1 as (λ _. Acquired) [
            | ok b ↦ if b then held else refused
            | err e ↦ lock_failed
          ])
            ≡ over held
          → Held holder r.0
      go (t, ok true) h e = h refl
      go (t, ok false) h e = absurd (cc e)
      go (t, err x) h e = absurd (cc e)

  after_watch-Won :
      (Held : String → S → Type 0)
      → IsLockStore store Held
      → (holder : String) (seen : Seen) (r : ℕ × S × Watched)
      → Won Held holder (after_watch store world holder seen r)
  unfolding after_watch
  after_watch-Won Held laws holder seen (n, s, gone) e = absurd (cc e)
  after_watch-Won Held laws holder seen (n, s, renewed) e = absurd (cc e)
  after_watch-Won Held laws holder seen (n, s, expired) e = steal-Won Held laws holder seen n s e

  contend-Won :
      (Held : String → S → Type 0)
      → IsLockStore store Held
      → (polls : ℕ) (holder : String) (seen : Seen) (n : ℕ) (s : S)
      → Won Held holder (contend store world polls holder seen n s)
  unfolding contend
  contend-Won Held laws polls holder seen n s =
      elim (Bool-cases (leb (age_ms (clock n) seen.lease) lease_ttl)) [
        | inl young ↦
            rw young (after_watch-Won Held laws holder seen (watch store world polls seen n s))
        | inr old ↦ rw old (steal-Won Held laws holder seen n s)
      ]

  find-Won :
      (Held : String → S → Type 0)
      → IsLockStore store Held
      → (polls : ℕ) (holder : String) (n : ℕ) (s : S)
      → Won Held holder (find store world polls holder n s)
  unfolding find
  find-Won Held laws polls holder n s = go (read (others n s))
    where
      go :
          (r : Result (Option Seen))
          → Won Held holder (elim r as (λ _. ℕ × S × Round) [
            | err e ↦ (n + 1, others n s, over lock_failed)
            | ok none ↦ (n + 1, others n s, again)
            | ok (some seen) ↦ contend store world polls holder seen (n + 1) (others n s)
          ])
      go (err x) e = absurd (cc e)
      go (ok none) e = absurd (cc e)
      go (ok (some seen)) e = contend-Won Held laws polls holder seen (n + 1) (others n s) e

  round-Won :
      (Held : String → S → Type 0)
      → IsLockStore store Held
      → (polls : ℕ) (holder : String) (n : ℕ) (s : S)
      → Won Held holder (round store world polls holder n s)
  unfolding round
  round-Won Held laws polls holder n s =
      go (create (fresh holder (clock n)) (others n s))
        (laws.created (fresh holder (clock n)) (others n s))
    where
      go :
          (r : S × Result Bool)
          → (r.1 ≡ ok true → Held holder r.0)
          → Won Held holder (elim r.1 as (λ _. ℕ × S × Round) [
            | err e ↦ (n + 1, r.0, over lock_failed)
            | ok true ↦ (n + 1, r.0, over held)
            | ok false ↦ find store world polls holder (n + 1) r.0
          ])
      go (t, ok true) h e = h refl
      go (t, ok false) h e = find-Won Held laws polls holder (n + 1) t e
      go (t, err x) h e = absurd (cc e)

  -- With a store whose successful writes leave the lock to their writer, `acquire` returns a guard
  -- only with the lock held by its own token, whatever other runs do between its calls.
  pub acquire_holds :
      (Held : String → S → Type 0)
      → IsLockStore store Held
      → (rounds polls : ℕ) (holder : String) (n : ℕ) (s : S)
      → (acquire store world rounds polls holder n s).2 ≡ held
      → Held holder (acquire store world rounds polls holder n s).1
  unfolding acquire
  acquire_holds Held laws zero polls holder n s = λ e. absurd (cc e)
  acquire_holds Held laws (suc rounds) polls holder n s =
      go (acquire_holds Held laws rounds polls holder) (round store world polls holder n s)
        (round-Won Held laws polls holder n s)
    where
      go :
          ((m : ℕ) (t : S)
            → (acquire store world rounds polls holder m t).2 ≡ held
            → Held holder (acquire store world rounds polls holder m t).1)
          → (r : ℕ × S × Round) → Won Held holder r
          → let out = elim r.2 as (λ _. ℕ × S × Acquired) [
            | over a ↦ (r.0, r.1, a)
            | again ↦ acquire store world rounds polls holder r.0 r.1
          ] in
            out.2 ≡ held → Held holder out.1
      go rec (m, t, over a) h e = h (ap over e)
      go rec (m, t, again) h e = rec m t e
