-- ===== src/Run/DataPhase/Commit.antt =====
-- The end of `supervise_data_phase` in crates/loadsmith-core/src/runner.rs: when the end marker is
-- sent, and when the run counts as done.
use loadsmith.Prelude.{
  ◌≤◌, ◌<◌, ◌≡◌, ◌≢◌, refl, sym, subst, Bool, true, false, ◌&&◌, ◌||◌, Option, none, some, List,
  arith,
}
use loadsmith.Run.Failing.{Failure}
use loadsmith.Run.DataPhase.{
  Round, Setting, DataPhase, is_some, source_ok, is_over, supervise_data_phase,
}
use loadsmith.Run.DataPhase.Sound.{IsClean, IsUnbroken, IsSound}
use loadsmith.Run.DataPhase.Arms.{supervise_data_phase-IsSound}
use loadsmith.Run.DataPhase.Ordering.{IsPatient, IsOrdered}
use loadsmith.Run.DataPhase.Ordering.Loop.{supervise_data_phase-IsOrdered}

finished_well : (o : Option Bool) → is_some o ≡ true → o ≢ some false → o ≡ some true
finished_well none e n = absurd (cc e)
finished_well (some true) e n = refl
finished_well (some false) e n = absurd (n refl)

over_well :
    (f : Option Failure) (a b : Bool)
    → (is_some f || (a && b)) ≡ true
    → f ≡ none
    → (a ≡ true) × (b ≡ true)
over_well none a b e n = (ground arith, ground arith)
over_well (some f) a b e n = absurd (cc n)

module _ {B : Type 0} where
  -- The state in which the data phase starts.
  pub record IsStart (p : DataPhase B) : Type 0 where
    pub unsent : p.commits ≡ 0
    pub idle : (p.commit || p.committed) ≡ false
    pub running : p.pump_outcome ≡ none
    pub unfinished : p.dst.finished_with ≡ none

  pub start-IsSound : {p : DataPhase B} → IsStart p → IsSound p
  start-IsSound {p} s = record {
    once = ground (arith, s.unsent);
    clean = λ sent. absurd (ground (arith, s.unsent, sent));
    counted = λ e. absurd (cc (e, s.idle));
    flying = λ _ sent. absurd (ground (arith, s.unsent, sent));
    source = λ _ sent. absurd (ground (arith, s.unsent, sent));
    unbroken = λ _. subst IsUnbroken (sym s.running) tt;
    destination = λ _ e. cc (e, s.unfinished);
  }

  -- The load is complete: the end marker was sent once, behind a stream that the producer ended,
  -- with the producer, and before it the raw source, reporting success, and then the destination.
  pub record IsComplete (p : DataPhase B) : Type 0 where
    pub ended : (p.committed ≡ true) × (p.commits ≡ 1)
    pub clean : IsClean p.pump_outcome
    pub source : source_ok p.upstream p.src ≡ true
    pub destination : p.dst.finished_with ≡ some true

  pub complete : (p : DataPhase B) → IsSound p → is_over p ≡ true → p.failure ≡ none → IsComplete p
  complete p s over going =
      let (committed, said) =
        over_well p.failure p.committed (is_some p.dst.finished_with) over going in
      let sent : 0 < p.commits = s.counted (ground arith) in
      record {
        ended = (committed, ground (arith, sent, s.once));
        clean = s.clean sent;
        source = s.source going sent;
        destination = finished_well p.dst.finished_with said (s.destination going);
      }

  -- Nothing is said by the destination before the end marker is on its way.
  unsaid :
      (p : DataPhase B)
      → IsSound p
      → IsOrdered p
      → p.failure ≡ none
      → p.commits ≡ 0
      → p.dst.finished_with ≡ none
  unsaid p s o going zero = go (p.commit || p.committed) refl
    where
      go : (b : Bool) → (p.commit || p.committed) ≡ b → p.dst.finished_with ≡ none
      go true e = absurd (ground (arith, s.counted e, zero))
      go false e = o.reported going e

  -- From the start of the data phase, with no success of a parser recorded whose input is open,
  -- whatever happens in whatever order: the end marker is sent to the destination at most once, and
  -- only if the pump has ended with the producer's end marker read; if the supervision is over
  -- without a failure, the load is complete; and in every state reached without a failure, the
  -- destination has reported nothing if the end marker was not sent yet, and a parser has not
  -- reported success if its input is still open.
  pub load_ends_complete :
      (setting : Setting) (rounds : List (Round B)) (p : DataPhase B)
      → IsStart p
      → IsPatient p.upstream p.src
      → let q = supervise_data_phase setting rounds p in
        (q.commits ≤ 1)
        × (0 < q.commits → IsClean q.pump_outcome)
        × (is_over q ≡ true → q.failure ≡ none → IsComplete q)
        × (q.failure ≡ none → q.commits ≡ 0 → q.dst.finished_with ≡ none)
        × (q.failure ≡ none → IsPatient q.upstream q.src)
  load_ends_complete setting rounds p start patient =
      let s = supervise_data_phase-IsSound setting rounds p (start-IsSound start) in
      let first : IsOrdered p = record {
        reported = λ _ _. start.unfinished;
        parser = λ _. patient;
      } in
      let o = supervise_data_phase-IsOrdered setting rounds p first in
      (s.once, s.clean, complete _ s, unsaid _ s o, o.parser)
