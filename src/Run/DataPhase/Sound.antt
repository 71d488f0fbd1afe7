-- ===== src/Run/DataPhase/Sound.antt =====
-- The invariant of `supervise_data_phase` in crates/loadsmith-core/src/runner.rs.
use loadsmith.Prelude.{
  ℕ, ◌≤◌, ◌<◌, ◌≡◌, ◌≢◌, refl, ap, subst, ◌∙◌, Bool, true, false, not, ◌&&◌, ◌||◌, Option, none,
  some, if◌then◌else◌, arith,
}
use loadsmith.Pump.{PumpOutcome}
use loadsmith.Peer.{Peer, close_input}
use loadsmith.ParserFeed.{Feed, Upstream, raw_succeeded, maybe_end_input}
use loadsmith.Run.Failing.{Failure, early_success}
use loadsmith.Run.DataPhase.{
  CommitEnd, input_ended, write_failed, task_failed, PumpEnd, pumped, panicked, Setting, DataPhase,
  is_some, has_succeeded, source_ok, upstream_of, fail, end_input, spawn_commit, commit_point,
  commit_clean, take_commit, take_pump, take_finished, with_upstream,
}

-- The producer after it was sent something, or said something that is no failure.
pub source_ok_after :
    (u : Option (Feed × Peer)) (src src' : Peer)
    → src'.input_open ≡ src.input_open
    → (has_succeeded src ≡ true → has_succeeded src' ≡ true)
    → source_ok u src ≡ true
    → source_ok u src' ≡ true
source_ok_after none src src' open_ up h = ground arith
source_ok_after (some (feed, raw)) src src' open_ up h = ground arith

pub not_due :
    {A : Type 0} (failure : Option A) (committed commit ok : Bool)
    → (is_some failure || committed || commit || not ok) ≡ false
    → (failure ≡ none) × ((commit || committed) ≡ false) × (ok ≡ true)
not_due none committed commit ok e = (refl, ground arith, ground arith)
not_due (some f) committed commit ok e = absurd (ground arith)

-- Ending the input leaves what was said, and an input that is closed.
maybe_end_input_keeps :
    (feed : Feed) (raw src : Peer)
    → let u = maybe_end_input (upstream_of feed raw src) in
      (u.raw ≡ raw)
      × (u.parser.finished_with ≡ src.finished_with)
      × (src.input_open ≡ false → u.parser.input_open ≡ false)
unfolding maybe_end_input close_input
maybe_end_input_keeps feed raw src = (ground arith, ground arith, λ e. ground arith)

-- The producer and the raw source, where an input that was closed stays so.
source_ok_keeps :
    (feed feed' : Feed) (raw raw' src src' : Peer)
    → (raw_succeeded raw ≡ true → raw_succeeded raw' ≡ true)
    → (src.input_open ≡ false → src'.input_open ≡ false)
    → (has_succeeded src ≡ true → has_succeeded src' ≡ true)
    → source_ok (some (feed, raw)) src ≡ true
    → source_ok (some (feed', raw')) src' ≡ true
source_ok_keeps feed feed' raw raw' src src' r i h ok = ground arith

abbrev pub is_success : Option Bool → Bool
is_success o = elim o [ none ↦ false | some success ↦ success ]

module _ {B : Type 0} where
  -- The pump has ended, with the end marker of the source's stream read.
  abbrev pub IsClean : Option (PumpOutcome B) → Type 0
  IsClean none = ⊥
  IsClean (some out) = (out.source_clean ≡ true) × (out.read_error ≡ none)

  abbrev pub IsUnbroken : Option (PumpOutcome B) → Type 0
  IsUnbroken none = Unit
  IsUnbroken (some out) = (out.source_clean ≡ true) × (out.read_error ≡ none)

  -- The end marker is sent at most once, after the pump ended cleanly; and while nothing has
  -- failed, it is sent with a producer, and a raw source, that have succeeded.
  pub record IsSound (p : DataPhase B) : Type 0 where
    pub once : p.commits ≤ 1
    pub clean : 0 < p.commits → IsClean p.pump_outcome
    pub counted : (p.commit || p.committed) ≡ true → 0 < p.commits
    pub flying : p.failure ≡ none → 0 < p.commits → (p.commit || p.committed) ≡ true
    pub source : p.failure ≡ none → 0 < p.commits → source_ok p.upstream p.src ≡ true
    pub unbroken : p.failure ≡ none → IsUnbroken p.pump_outcome
    pub destination : p.failure ≡ none → p.dst.finished_with ≢ some false

  pub fail-IsSound : (f : Failure) (p : DataPhase B) → IsSound p → IsSound (fail f p)
  fail-IsSound f p s = record {
    once = s.once;
    clean = s.clean;
    counted = s.counted;
    flying = λ e. absurd (cc e);
    source = λ e. absurd (cc e);
    unbroken = λ e. absurd (cc e);
    destination = λ e. absurd (cc e);
  }

  pub take_commit-IsSound :
      (end : CommitEnd) (p : DataPhase B)
      → p.commit ≡ true
      → IsSound p
      → IsSound (take_commit end p)
  unfolding take_commit
  take_commit-IsSound input_ended p flying s = ground arith
  take_commit-IsSound write_failed p flying s = ground arith
  take_commit-IsSound task_failed p flying s = ground arith

  pub take_pump-IsSound :
      (setting : Setting) (now : ℕ) (end : PumpEnd B) (p : DataPhase B)
      → p.pump_outcome ≡ none
      → IsSound p
      → IsSound (take_pump setting now end p)
  unfolding take_pump
  take_pump-IsSound setting now panicked p e s = ground arith
  take_pump-IsSound setting now (pumped out lines) p e s = ground arith

  -- The state behind a function of the feed that left what has succeeded.
  pub fed-IsSound :
      (feed : Feed) (raw : Peer) (p : DataPhase B)
      → p.upstream ≡ some (feed, raw)
      → IsSound p
      → (u : Upstream) → (raw_succeeded raw ≡ true → raw_succeeded u.raw ≡ true)
      → (p.src.input_open ≡ false → u.parser.input_open ≡ false)
      → (has_succeeded p.src ≡ true → has_succeeded u.parser ≡ true)
      → IsSound (with_upstream u p)
  fed-IsSound feed raw p e s u r i h = record {
    once = s.once;
    clean = s.clean;
    counted = s.counted;
    flying = s.flying;
    source = λ going sent.
        source_ok_keeps feed u.feed raw u.raw p.src u.parser r i h
          (subst (λ o. source_ok o p.src ≡ true) e (s.source going sent));
    unbroken = s.unbroken;
    destination = s.destination;
  }

  pub end_input-IsSound :
      (setting : Setting) (u : Option (Feed × Peer)) (p : DataPhase B)
      → p.upstream ≡ u
      → IsSound p
      → IsSound (end_input setting u p)
  unfolding end_input
  end_input-IsSound setting none p e s = s
  end_input-IsSound setting (some (feed, raw)) p e s =
      go (is_some p.failure) (p.src.input_open && has_succeeded p.src)
    where
      go :
          (a b : Bool)
          → IsSound (
              if a
              then p
              else if b
              then fail (early_success setting.label) p
              else with_upstream (maybe_end_input (upstream_of feed raw p.src)) p)
      go true b = s
      go false true = fail-IsSound _ p s
      go false false =
          fed-IsSound feed raw p e s (maybe_end_input (upstream_of feed raw p.src))
            (λ w. ap raw_succeeded ((maybe_end_input_keeps feed raw p.src).0) ∙ w)
            ((maybe_end_input_keeps feed raw p.src).2)
            (λ w. ap is_success ((maybe_end_input_keeps feed raw p.src).1) ∙ w)

  spawn_commit-IsSound :
      (setting : Setting) (now : ℕ) (out : PumpOutcome B) (p : DataPhase B)
      → p.commits ≡ 0
      → p.pump_outcome ≡ some out
      → out.source_clean ≡ true
      → source_ok p.upstream p.src ≡ true
      → p.failure ≡ none
      → IsSound p
      → IsSound (spawn_commit setting now out p)
  unfolding spawn_commit
  spawn_commit-IsSound setting now out p zero e clean good going s = ground arith

  pub none_sent :
      {p : DataPhase B}
      → IsSound p
      → p.failure ≡ none
      → (p.commit || p.committed) ≡ false
      → p.commits ≡ 0
  none_sent s going idle = ground (arith, s.flying going)

  pub commit_point-IsSound :
      (setting : Setting) (now : ℕ) (p : DataPhase B)
      → IsSound p
      → IsSound (commit_point setting now p)
  unfolding commit_point
  commit_point-IsSound setting now p s =
      go (is_some p.failure || p.committed || p.commit || not (source_ok p.upstream p.src)) refl
        p.pump_outcome refl
    where
      go :
          (b : Bool)
          → (is_some p.failure || p.committed || p.commit || not (source_ok p.upstream p.src)) ≡ b
          → (o : Option (PumpOutcome B)) → p.pump_outcome ≡ o
          → IsSound (if b then p else commit_clean setting now o p)
      go true e o f = s
      go false e none f = s
      go false e (some out) f =
          let (going, idle, ok) =
            not_due p.failure p.committed p.commit (source_ok p.upstream p.src) e in
          let zero : p.commits ≡ 0 = none_sent s going idle in
          clean out zero f ok going out.source_clean refl
        where
          clean :
              (out : PumpOutcome B)
              → p.commits ≡ 0
              → p.pump_outcome ≡ some out
              → source_ok p.upstream p.src ≡ true
              → p.failure ≡ none
              → (b : Bool) → out.source_clean ≡ b
              → IsSound (if b then spawn_commit setting now out p else p)
          clean out zero f ok going true e =
              spawn_commit-IsSound setting now out p zero f e ok going s
          clean out zero f ok going false e = s

  pub take_finished-IsSound :
      (setting : Setting) (now : ℕ) (status : Option Bool) (p : DataPhase B)
      → IsSound p
      → IsSound (take_finished setting now status p)
  unfolding take_finished
  take_finished-IsSound setting now none p s = s
  take_finished-IsSound setting now (some false) p s = fail-IsSound _ p s
  take_finished-IsSound setting now (some true) p s = ground arith
