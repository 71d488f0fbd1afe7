-- ===== src/Lock.antt =====
-- The state lock (crates/loadsmith-core/src/state.rs, `acquire` and `Lease`). `S` is what a store
-- keeps: the lock is shared, and before the `n`-th call of this run `others n` says what all other
-- runs did to it since the call before. `clock n` is the wall clock at that call.
pub mod Holding
pub mod Watching
pub mod Leasing
pub mod Local
pub mod S3
use loadsmith.Prelude.{
  ℕ, zero, suc, ◌+◌, ◌-◌, String, Bool, true, false, not, ◌&&◌, ◌||◌, Option, none, some, ltb, leb,
  str_eq, if◌then◌else◌,
}
use loadsmith.State.{Result, ok, err}

-- in milliseconds
abbrev pub lease_ttl : ℕ
lease_ttl = 15000

pub record LockFile : Type 0 where
  pub holder : String
  pub renewed_at_unix_ms : ℕ

-- One look at a lock.
pub record Seen : Type 0 where
  pub version : String
  pub lease : Option LockFile

-- `Seen::holder`
unfoldable pub holder_of : Seen → Option String
holder_of seen = elim seen.lease [ none ↦ none | some l ↦ some l.holder ]

-- The trait of a backend's lock. A call may change the store and may fail.
pub record LockStore (S : Type 0) : Type 0 where
  pub create : LockFile → S → S × Result Bool
  pub read : S → Result (Option Seen)
  pub replace : Seen → LockFile → S → S × Result Bool
  pub remove : S → S × Result (Unit {0})

-- A run's surroundings: the other runs and the clock.
pub record World (S : Type 0) : Type 0 where
  pub others : ℕ → S → S
  pub clock : ℕ → ℕ

-- `spinning` is a race that is not over with the rounds given.
pub data Acquired : Type 0 where
  held : Acquired
  refused : Acquired
  lock_failed : Acquired
  spinning : Acquired

-- How watching a lock ends.
pub data Watched : Type 0 where
  gone renewed expired : Watched

-- What a `'race` round decides.
pub data Round : Type 0 where
  over : Acquired → Round
  again : Round

pub record Lease : Type 0 where
  pub holder : String
  pub released : Bool
  pub lost : Bool

-- `LockFile::fresh`
abbrev pub fresh : String → ℕ → LockFile
fresh holder now = record { holder = holder; renewed_at_unix_ms = now }

unfoldable pub age_ms : ℕ → Option LockFile → ℕ
age_ms now none = 0
age_ms now (some l) = now - l.renewed_at_unix_ms

-- `seen.holder() == Some(holder)`
unfoldable pub is_held_by : String → Seen → Bool
unfolding holder_of
is_held_by holder seen = elim (holder_of seen) [ none ↦ false | some h ↦ str_eq h holder ]

-- what one look of the watching loop finds; `none` is nothing new
unfoldable pub look : Seen → Result (Option Seen) → Option Watched
look seen (ok none) = some gone
look seen (ok (some now)) = if str_eq now.version seen.version then none else some renewed
look seen (err e) = none

-- what a renewal makes of the answer to its `replace`
unfoldable pub renewed_by : {S : Type 0} → Lease → S × Result Bool → S × Lease
renewed_by lease (s, ok true) = (s, lease)
renewed_by lease (s, ok false) = (s, record lease { lost = true })
renewed_by lease (s, err e) = (s, lease)

module _ {S : Type 0} (store : LockStore S) (world : World S) where
  open store use {create, read, replace, remove}
  open world use {others, clock}

  -- The watching loop, which looks `polls + 1` times until it has observed for long enough. A
  -- result holds the number of calls made and the store.
  unfoldable pub watch : ℕ → Seen → ℕ → S → ℕ × S × Watched
  unfolding look
  watch zero seen n s =
      let now = others n s in
      (n + 1, now, elim (look seen (read now)) [ some w ↦ w | none ↦ expired ])
  watch (suc polls) seen n s =
      let now = others n s in
      elim (look seen (read now)) [ some w ↦ (n + 1, now, w) | none ↦ watch polls seen (n + 1) now ]

  -- the end of a round: the `replace` of an expired lease
  unfoldable pub steal : String → Seen → ℕ → S → ℕ × S × Round
  steal holder seen n s =
      let (s', result) = replace seen (fresh holder (clock n)) (others n s) in
      (n + 1, s', over (elim result [ ok b ↦ if b then held else refused | err e ↦ lock_failed ]))

  unfoldable pub after_watch : String → Seen → ℕ × S × Watched → ℕ × S × Round
  unfolding steal
  after_watch holder seen (n, s, gone) = (n, s, again)
  after_watch holder seen (n, s, renewed) = (n, s, over refused)
  after_watch holder seen (n, s, expired) = steal holder seen n s

  -- A lock is there: its age decides whether it is watched.
  unfoldable pub contend : ℕ → String → Seen → ℕ → S → ℕ × S × Round
  unfolding age_ms watch after_watch steal
  contend polls holder seen n s =
      if leb (age_ms (clock n) seen.lease) lease_ttl
      then after_watch holder seen (watch polls seen n s)
      else steal holder seen n s

  -- a round behind its `create`, which found a lock
  unfoldable pub find : ℕ → String → ℕ → S → ℕ × S × Round
  unfolding contend
  find polls holder n s =
      let now = others n s in
      elim (read now) [
        | err e ↦ (n + 1, now, over lock_failed)
        | ok none ↦ (n + 1, now, again)
        | ok (some seen) ↦ contend polls holder seen (n + 1) now
      ]

  unfoldable pub round : ℕ → String → ℕ → S → ℕ × S × Round
  unfolding find
  round polls holder n s =
      let (s', result) = create (fresh holder (clock n)) (others n s) in
      elim result [
        | err e ↦ (n + 1, s', over lock_failed)
        | ok true ↦ (n + 1, s', over held)
        | ok false ↦ find polls holder (n + 1) s'
      ]

  -- `acquire`, for a number of rounds
  unfoldable pub acquire : ℕ → ℕ → String → ℕ → S → ℕ × S × Acquired
  unfolding round
  acquire zero polls holder n s = (n, s, spinning)
  acquire (suc rounds) polls holder n s =
      let (n', s', r) = round polls holder n s in
      elim r [ over a ↦ (n', s', a) | again ↦ acquire rounds polls holder n' s' ]

  -- `Lease::renew`, behind its read of the lock `seen`
  unfoldable pub renew_seen : Option Seen → Lease → ℕ → S → S × Lease
  unfolding is_held_by renewed_by
  renew_seen none lease n s = (s, record lease { lost = true })
  renew_seen (some seen) lease n s =
      if is_held_by lease.holder seen
      then renewed_by lease (replace seen (fresh lease.holder (clock n)) (others n s))
      else (s, record lease { lost = true })

  unfoldable pub renew : Lease → ℕ → S → S × Lease
  unfolding renew_seen
  renew lease n s =
      if lease.released || lease.lost
      then (s, lease)
      else let now = others n s in
        elim (read now) [ err e ↦ (now, lease) | ok seen ↦ renew_seen seen lease (n + 1) now ]

  unfoldable pub release : Lease → ℕ → S → S × Lease
  unfolding is_held_by
  release lease n s =
      let now = others n s in
      let gone = record lease { released = true } in
      elim (read now) [
        | err e ↦ (now, gone)
        | ok none ↦ (now, gone)
        | ok (some seen) ↦
            if is_held_by lease.holder seen
            then ((remove (others (n + 1) now)).0, gone)
            else (now, gone)
      ]
