-- ===== src/Lock/Watching.antt =====
-- Watching a held lock (crates/loadsmith-core/src/state.rs, the inner loop of `acquire`): a renewal
-- that is seen keeps the lock with its holder, and a lock that nobody renews is taken.
use loadsmith.Prelude.{
  ℕ, zero, suc, ◌+◌, ◌≤◌, ◌<◌, ◌≡◌, ◌≢◌, refl, sym, ap, ◌∙◌, inl, inr, String, true, false, Option,
  none, some, arith, leb, str_eq_iff, Bool-cases, Option-cases,
}
use loadsmith.State.{Result, ok, err}
use loadsmith.Lock.{
  LockFile, Seen, LockStore, World, Acquired, held, refused, Watched, renewed, expired, over, fresh,
  age_ms, lease_ttl, look, watch, steal, after_watch, contend, find, round, acquire,
}

module _ {S : Type 0} (store : LockStore S) (world : World S) where
  open store use {create, read, replace, remove}
  open world use {others, clock}

  -- The store at the `i`-th look from call `n`, when only others write to it.
  abbrev pub at : ℕ → ℕ → S → S
  at zero n s = others n s
  at (suc i) n s = at i (n + 1) (others n s)

  -- What the `i`-th look finds.
  abbrev pub looked : Seen → ℕ → ℕ → S → Option Watched
  looked seen i n s = look seen (read (at i n s))

  watch_stops :
      (polls : ℕ) (seen : Seen) (n : ℕ) (s : S) (w : Watched)
      → look seen (read (others n s)) ≡ some w
      → (watch store world polls seen n s).2 ≡ w
  unfolding watch
  watch_stops zero seen n s w e = rw (e, watch) refl
  watch_stops (suc polls) seen n s w e = rw (e, watch) refl

  watch_ends :
      (seen : Seen) (n : ℕ) (s : S)
      → look seen (read (others n s)) ≡ none
      → (watch store world zero seen n s).2 ≡ expired
  unfolding watch
  watch_ends seen n s e = rw (e, watch) refl

  watch_goes :
      (polls : ℕ) (seen : Seen) (n : ℕ) (s : S)
      → look seen (read (others n s)) ≡ none
      → watch store world (suc polls) seen n s ≡ watch store world polls seen (n + 1) (others n s)
  unfolding watch
  watch_goes polls seen n s e = rw (e, watch) refl

  look_news : (seen : Seen) (r : Result (Option Seen)) → look seen r ≢ some expired
  unfolding look
  look_news seen (ok none) e = cc e
  look_news seen (ok (some now)) e = ground arith
  look_news seen (err x) e = cc e

  -- The first look that finds something decides.
  watch_first :
      (i polls : ℕ) (seen : Seen) (n : ℕ) (s : S) (w : Watched)
      → i ≤ polls
      → ((j : ℕ) → j < i → looked seen j n s ≡ none)
      → looked seen i n s ≡ some w
      → (watch store world polls seen n s).2 ≡ w
  watch_first zero polls seen n s w le h e = watch_stops polls seen n s w e
  watch_first (suc i) zero seen n s w le h e = absurd (omega arith)
  watch_first (suc i) (suc polls) seen n s w le h e =
      ap (λ r. r.2) (watch_goes polls seen n s (h zero (omega arith)))
      ∙ watch_first i polls seen (n + 1) (others n s) w (omega arith)
          (λ j lt. h (suc j) (omega arith)) e

  watch_expired_now :
      (polls : ℕ) (seen : Seen) (n : ℕ) (s : S)
      → (watch store world polls seen n s).2 ≡ expired
      → look seen (read (others n s)) ≡ none
  watch_expired_now polls seen n s e = elim (Option-cases (look seen (read (others n s)))) [
    | inl nothing ↦ nothing
    | inr (w, found) ↦ absurd (
        look_news seen (read (others n s))
          (found ∙ ap some (sym (watch_stops polls seen n s w found) ∙ e)))
  ]

  -- A lease is found expired only if no look found anything.
  watch_expired :
      (i polls : ℕ) (seen : Seen) (n : ℕ) (s : S)
      → i ≤ polls
      → (watch store world polls seen n s).2 ≡ expired
      → looked seen i n s ≡ none
  watch_expired zero polls seen n s le e = watch_expired_now polls seen n s e
  watch_expired (suc i) zero seen n s le e = absurd (omega arith)
  watch_expired (suc i) (suc polls) seen n s le e =
      watch_expired i polls seen (n + 1) (others n s) (omega arith) (
        ap (λ r. r.2) (sym (watch_goes polls seen n s (watch_expired_now (suc polls) seen n s e)))
        ∙ e)

  -- A lock is there when the run comes to create it, and its lease is not expired.
  abbrev pub IsYoung : String → Seen → ℕ → S → S → Type 0
  IsYoung holder seen n s s' =
      (create (fresh holder (clock n)) (others n s) ≡ (s', ok false))
      × (read (others (n + 1) s') ≡ ok (some seen))
      × (age_ms (clock (n + 1 + 1)) seen.lease ≤ lease_ttl)

  round_watches :
      (polls : ℕ) (holder : String) (seen : Seen) (n : ℕ) (s s' : S)
      → IsYoung holder seen n s s'
      → round store world polls holder n s
        ≡ after_watch store world holder seen
            (watch store world polls seen (n + 1 + 1) (others (n + 1) s'))
  unfolding round find contend
  round_watches polls holder seen n s s' (e, f, g) =
      let young : leb (age_ms (clock (n + 1 + 1)) seen.lease) lease_ttl ≡ true = ground arith in
      rw (ap (λ r. r.1) e, ap (λ r. r.0) e, f, young, round, find, contend)
        (ap
          (λ r.
            after_watch store world holder seen
              (watch store world polls seen (n + 1 + 1) (others (n + 1) r.0)))
          e)

  acquire_over :
      (rounds polls : ℕ) (holder : String) (n m : ℕ) (s t : S) (a : Acquired)
      → round store world polls holder n s ≡ (m, t, over a)
      → acquire store world (suc rounds) polls holder n s ≡ (m, t, a)
  unfolding acquire
  acquire_over rounds polls holder n m s t a e = rw (e, acquire) (ap (λ r. (r.0, r.1, a)) e)

  after_watch_renewed :
      (holder : String) (seen : Seen) (r : ℕ × S × Watched)
      → r.2 ≡ renewed
      → after_watch store world holder seen r ≡ (r.0, r.1, over refused)
  unfolding after_watch
  after_watch_renewed holder seen (n, s, w) e = rw (e, after_watch) refl

  after_watch_expired :
      (holder : String) (seen : Seen) (r : ℕ × S × Watched)
      → r.2 ≡ expired
      → after_watch store world holder seen r ≡ steal store world holder seen r.0 r.1
  unfolding after_watch
  after_watch_expired holder seen (n, s, w) e = rw (e, after_watch) refl

  -- A run that finds a lock whose lease is not expired is refused if one of its looks finds another
  -- version of the lock than the first one, and the looks before found it unchanged, or could not
  -- read it.
  pub renewed_lock_refuses :
      (rounds polls i : ℕ) (holder : String) (seen now : Seen) (n : ℕ) (s s' : S)
      → IsYoung holder seen n s s'
      → i ≤ polls
      → ((j : ℕ) → j < i → looked seen j (n + 1 + 1) (others (n + 1) s') ≡ none)
      → read (at i (n + 1 + 1) (others (n + 1) s')) ≡ ok (some now)
      → now.version ≢ seen.version
      → (acquire store world (suc rounds) polls holder n s).2 ≡ refused
  renewed_lock_refuses rounds polls i holder seen now n s s' young le before there differs =
      let found : looked seen i (n + 1 + 1) (others (n + 1) s') ≡ some renewed =
        unfold look in rw there (ground (arith, str_eq_iff now.version seen.version)) in
      let r = watch store world polls seen (n + 1 + 1) (others (n + 1) s') in
      let watched =
        watch_first i polls seen (n + 1 + 1) (others (n + 1) s') renewed le before found in
      ap (λ a. a.2)
        (acquire_over rounds polls holder n r.0 s r.1 refused (
          round_watches polls holder seen n s s' young ∙ after_watch_renewed holder seen r watched))

  look_same : (seen : Seen) → look seen (ok (some seen)) ≡ none
  unfolding look
  look_same seen = ground (arith, str_eq_iff seen.version seen.version)

  look_idle :
      (seen : Seen) (n : ℕ) (s : S)
      → others n s ≡ s
      → read s ≡ ok (some seen)
      → look seen (read (others n s)) ≡ none
  look_idle seen n s quiet there =
      ap (λ t. look seen (read t)) quiet ∙ ap (look seen) there ∙ look_same seen

  -- A lock that is left alone is found expired, unchanged.
  watch_idle :
      (polls : ℕ) (seen : Seen) (n : ℕ) (s : S)
      → ((m : ℕ) (t : S) → others m t ≡ t)
      → read s ≡ ok (some seen)
      → ((watch store world polls seen n s).1 ≡ s)
        × ((watch store world polls seen n s).2 ≡ expired)
  watch_idle zero seen n s quiet there =
      (unfold watch in quiet n s, watch_ends seen n s (look_idle seen n s (quiet n s) there))
  watch_idle (suc polls) seen n s quiet there =
      let goes =
        watch_goes polls seen n s (look_idle seen n s (quiet n s) there)
        ∙ ap (watch store world polls seen (n + 1)) (quiet n s) in
      let (same, end) = watch_idle polls seen (n + 1) s quiet there in
      (ap (λ r. r.1) goes ∙ same, ap (λ r. r.2) goes ∙ end)

  steal_goes :
      (holder : String) (seen : Seen) (n : ℕ) (s : S)
      → (replace seen (fresh holder (clock n)) (others n s)).1 ≡ ok true
      → (steal store world holder seen n s).2 ≡ over held
  unfolding steal
  steal_goes holder seen n s e = rw (e, steal) refl

  -- A lock that is left alone is taken, however old its lease is.
  contend_idle :
      (polls : ℕ) (holder : String) (seen : Seen) (n : ℕ) (s : S)
      → ((m : ℕ) (t : S) → others m t ≡ t)
      → read s ≡ ok (some seen)
      → ((l : LockFile) → (replace seen l s).1 ≡ ok true)
      → (contend store world polls holder seen n s).2 ≡ over held
  unfolding contend
  contend_idle polls holder seen n s quiet there goes =
      elim (Bool-cases (leb (age_ms (clock n) seen.lease) lease_ttl)) [
        | inl young ↦
            let r = watch store world polls seen n s in
            let (same, end) = watch_idle polls seen n s quiet there in
            rw (young, contend)
              (ap (λ t. t.2) (after_watch_expired holder seen r end) ∙ stolen r.0 r.1 same)
        | inr old ↦ rw (old, contend) (stolen n s refl)
      ]
    where
      stolen : (m : ℕ) (t : S) → t ≡ s → (steal store world holder seen m t).2 ≡ over held
      stolen m t e = steal_goes holder seen m t (
          ap (λ u. (replace seen (fresh holder (clock m)) u).1) (quiet m t ∙ e)
          ∙ goes (fresh holder (clock m)))

  acquire_held :
      (rounds polls : ℕ) (holder : String) (n : ℕ) (s : S)
      → (round store world polls holder n s).2 ≡ over held
      → (acquire store world (suc rounds) polls holder n s).2 ≡ held
  unfolding acquire
  acquire_held rounds polls holder n s e = rw (e, acquire) refl

  -- When a lock is there and can be read, no other run touches it and the store's `replace` goes
  -- through, it is taken in the first round, whatever the clock says of its lease and however often
  -- it is looked at.
  pub idle_lock_is_taken :
      (rounds polls : ℕ) (holder : String) (seen : Seen) (n : ℕ) (s : S)
      → ((m : ℕ) (t : S) → others m t ≡ t)
      → ((l : LockFile) → create l s ≡ (s, ok false))
      → read s ≡ ok (some seen)
      → ((l : LockFile) → (replace seen l s).1 ≡ ok true)
      → (acquire store world (suc rounds) polls holder n s).2 ≡ held
  unfolding round find
  idle_lock_is_taken rounds polls holder seen n s quiet there looks goes =
      let made : create (fresh holder (clock n)) (others n s) ≡ (s, ok false) =
        ap (create (fresh holder (clock n))) (quiet n s) ∙ there (fresh holder (clock n)) in
      let same : read (others (n + 1) s) ≡ ok (some seen) = ap read (quiet (n + 1) s) ∙ looks in
      acquire_held rounds polls holder n s (
        rw (ap (λ r. r.1) made, ap (λ r. r.0) made, same, round, find)
          (ap (λ t. (contend store world polls holder seen (n + 1 + 1) t).2)
              (ap (others (n + 1)) (ap (λ r. r.0) made) ∙ quiet (n + 1) s)
            ∙ contend_idle polls holder seen (n + 1 + 1) s quiet looks goes))
