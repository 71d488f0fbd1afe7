-- ===== src/Lock/Leasing.antt =====
-- A holder's renewals and release of its lock (crates/loadsmith-core/src/state.rs, `Lease`).
use loadsmith.Prelude.{
  ℕ, ◌+◌, ◌≡◌, ◌≢◌, refl, ap, ◌∙◌, ◌⊎◌, inl, inr, String, Bool, true, false, ◌||◌, Option, none,
  some, arith, if◌then◌else◌, Bool-cases,
}
use loadsmith.State.{Result, ok, err}
use loadsmith.Lock.{
  LockFile, Seen, LockStore, World, Lease, fresh, holder_of, is_held_by, renewed_by, renew_seen,
  renew, release,
}

-- A `replace` that is a compare-and-swap by the version, and versions that name a lock's holder.
pub record IsCompareAndSwap {S : Type 0} (store : LockStore S) : Type 0 where
  pub guarded :
      (seen now : Seen) (l : LockFile) (s : S)
      → store.read s ≡ ok (some now)
      → now.version ≢ seen.version
      → (store.replace seen l s).0 ≡ s
  pub versioned :
      (a b : Seen) (s t : S)
      → store.read s ≡ ok (some a)
      → store.read t ≡ ok (some b)
      → a.version ≡ b.version
      → a.lease ≡ b.lease

module _ {S : Type 0} (store : LockStore S) (world : World S) where
  open store use {read, replace, remove}
  open world use {others, clock}

  -- The store is as the other runs left it, at one of the two moments of a renewal.
  abbrev pub IsOthersWork : ℕ → S → S → Type 0
  IsOthersWork n s t = (t ≡ s) ⊎ ((t ≡ others n s) ⊎ (t ≡ others (n + 1) (others n s)))

  renewed_by_store : (lease : Lease) (r : S × Result Bool) → (renewed_by lease r).0 ≡ r.0
  unfolding renewed_by
  renewed_by_store lease (s, ok true) = refl
  renewed_by_store lease (s, ok false) = refl
  renewed_by_store lease (s, err e) = refl

  same_holder : (a b : Seen) (h : String) → a.lease ≡ b.lease → is_held_by h a ≡ is_held_by h b
  unfolding is_held_by holder_of
  same_holder a b h e = rw e refl

  renew_seen_spares :
      (seen : Option Seen) (lease : Lease) (n : ℕ) (s : S) (now : Seen)
      → IsCompareAndSwap store
      → read s ≡ ok seen
      → read (others n s) ≡ ok (some now)
      → is_held_by lease.holder now ≡ false
      → ((renew_seen store world seen lease n s).0 ≡ s)
        ⊎ ((renew_seen store world seen lease n s).0 ≡ others n s)
  unfolding renew_seen
  renew_seen_spares none lease n s now cas was is other = inl refl
  renew_seen_spares (some seen) lease n s now cas was is other =
      elim (Bool-cases (is_held_by lease.holder seen)) [
        | inl mine ↦ inr (
            rw mine (
              renewed_by_store lease (replace seen (fresh lease.holder (clock n)) (others n s))
              ∙ cas.guarded seen now (fresh lease.holder (clock n)) (others n s) is (λ same.
                absurd (
                  cc (
                    other,
                    mine,
                    same_holder now seen lease.holder
                        (cas.versioned now seen (others n s) s is was same),
                  )))))
        | inr theirs ↦ inl (rw theirs refl)
      ]

  -- With a store whose `replace` is a compare-and-swap by versions that name a lease, a renewal
  -- writes nothing to a lock that another run holds by the moment of the write: the store stays as
  -- the other runs left it.
  pub renew_spares_others :
      (lease : Lease) (n : ℕ) (s : S) (now : Seen)
      → IsCompareAndSwap store
      → read (others (n + 1) (others n s)) ≡ ok (some now)
      → is_held_by lease.holder now ≡ false
      → IsOthersWork n s (renew store world lease n s).0
  unfolding renew
  renew_spares_others lease n s now cas is other =
      elim (Bool-cases (lease.released || lease.lost)) [
        | inl over ↦ inl (rw over refl)
        | inr on ↦ rw on (go (read (others n s)) refl)
      ]
    where
      go :
          (r : Result (Option Seen))
          → read (others n s) ≡ r
          → IsOthersWork n s
              (elim r as (λ _. S × Lease) [
                | err e ↦ (others n s, lease)
                | ok seen ↦ renew_seen store world seen lease (n + 1) (others n s)
              ]).0
      go (err e) was = inr (inl refl)
      go (ok seen) was =
          inr (renew_seen_spares seen lease (n + 1) (others n s) now cas was is other)

  released_by :
      (lease : Lease) (now : S) (r : Result (Option Seen)) (removed : S)
      → (elim r as (λ _. S × Lease) [
        | err e ↦ (now, record lease { released = true })
        | ok none ↦ (now, record lease { released = true })
        | ok (some seen) ↦
            if is_held_by lease.holder seen
            then (removed, record lease { released = true })
            else (now, record lease { released = true })
      ]).1
        ≡ record lease { released = true }
  released_by lease now (err e) removed = refl
  released_by lease now (ok none) removed = refl
  released_by lease now (ok (some seen)) removed = ground arith

  renew_released :
      (lease : Lease) (n : ℕ) (s : S)
      → lease.released ≡ true
      → renew store world lease n s ≡ (s, lease)
  unfolding renew
  renew_released lease n s e = rw (e, renew) refl

  left_alone :
      (lease : Lease) (now : S) (r : Result (Option Seen)) (removed : S)
      → ((seen : Seen) → r ≡ ok (some seen) → is_held_by lease.holder seen ≡ false)
      → (elim r as (λ _. S × Lease) [
        | err e ↦ (now, record lease { released = true })
        | ok none ↦ (now, record lease { released = true })
        | ok (some seen) ↦
            if is_held_by lease.holder seen
            then (removed, record lease { released = true })
            else (now, record lease { released = true })
      ]).0
        ≡ now
  left_alone lease now (err e) removed h = refl
  left_alone lease now (ok none) removed h = refl
  left_alone lease now (ok (some seen)) removed h = rw (h seen refl) refl

  -- After its release a lease writes nothing. The release applies the store's `remove`, to the lock
  -- as the other runs have left it by then, if the lock was its own when it was read, and otherwise
  -- leaves the store as it read it.
  pub release_is_final :
      (lease : Lease) (n m : ℕ) (s t : S)
      → let (s', gone) = release store world lease n s in
        (renew store world gone m t ≡ (t, gone))
        × ((seen : Seen)
            → read (others n s) ≡ ok (some seen)
            → is_held_by lease.holder seen ≡ true
            → s' ≡ (remove (others (n + 1) (others n s))).0)
        × (((seen : Seen)
              → read (others n s) ≡ ok (some seen)
              → is_held_by lease.holder seen ≡ false)
            → s' ≡ others n s)
  unfolding release renew
  release_is_final lease n m s t =
      let now = others n s in
      let removed = (remove (others (n + 1) now)).0 in
      (
        renew_released (release store world lease n s).1 m t
            (ap (λ l. l.released) (released_by lease now (read now) removed)),
        (λ seen was mine. rw (was, mine, release) refl),
        λ theirs. left_alone lease now (read now) removed theirs,
      )
