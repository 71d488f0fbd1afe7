-- ===== src/ParserFeed/Handing.antt =====
-- What the parser gets from the feed of crates/loadsmith-core/src/parser_feed.rs.
use loadsmith.Prelude.{
  ℕ, ◌≡◌, refl, sym, ap, ap₂, ◌∙◌, inl, inr, ◌↔◌, String, Bool, true, false, not, ◌&&◌, Option,
  none, some, List, [], ◌∷◌, map, arith, if◌then◌else◌, Bool-cases,
}
use loadsmith.Peer
use loadsmith.Peer.{
  Peer, Message, parse_object, resend, log, progress, pong, ping, schema, cancel, protocol_error,
  other, handshake, capabilities_request, ready, handshake_ack, set_protocol_version,
  capabilities_response, configure, configure_ack, start, credit, finished, Inbound, line,
  malformed, eof, replay, process_line, Event, received, resend_requested, at_end, Processed,
  handled, event, malformed_twice, send, send_raw, close_input, process,
}
use loadsmith.Peer.Finishing.{Records, process-Records}
use loadsmith.Peer.Transport.{send_raw_writes}
use loadsmith.SinkSupervisor.Delivery.{contains, insert}
use loadsmith.ParserFeed.{
  Upstream, FeedEvent, raw_line, object, Failure, new, raw_succeeded, take_path, take_message,
  status_of, take_processed, source_failed, handle, handle_enabled, maybe_end_input, supervise,
}

-- The paths announced before the channel ended, each once, the latest in front.
abbrev pub announced : List String → List (ℕ × FeedEvent) → List String
announced acc [] = acc
announced acc ((now, raw_line l) ∷ es) = announced acc es
announced acc ((now, object (some p)) ∷ es) = announced (insert p acc) es
announced acc ((now, object none) ∷ es) = acc

-- The state at the start of a run.
abbrev pub fresh : Option ℕ → Upstream
fresh limit = record { feed = new limit; raw = Peer.new; parser = Peer.new }

-- The parser was handed what is recorded as sent, and its input ends only when no path can come.
pub record IsFed (u : Upstream) : Type 0 where
  pub handed : u.parser.sent ≡ map parse_object u.feed.sent
  pub ended :
      u.parser.input_open ≡ false → (u.feed.objects_open ≡ false) × (raw_succeeded u.raw ≡ true)

-- Two states that differ at most in the deadline of the feed.
abbrev pub IsSame : Upstream → Upstream → Type 0
IsSame v u =
    (v.parser ≡ u.parser)
    × (v.raw ≡ u.raw)
    × (v.feed.sent ≡ u.feed.sent)
    × (v.feed.objects_open ≡ u.feed.objects_open)

take_message-IsSame :
    (now : ℕ) (u : Upstream) (status : Option Bool) → IsSame (take_message now u status).0 u
unfolding take_message
take_message-IsSame now u none = (refl, refl, refl, refl)
take_message-IsSame now u (some true) = (refl, refl, refl, refl)
take_message-IsSame now u (some false) = (refl, refl, refl, refl)

pub take_processed-IsSame :
    (now : ℕ) (u : Upstream) (out : Processed) → IsSame (take_processed now u out).0 u
unfolding take_processed
take_processed-IsSame now u (event (received msg)) = take_message-IsSame now u (status_of msg)
take_processed-IsSame now u (event at_end) = (refl, refl, refl, refl)
take_processed-IsSame now u (event resend_requested) = (refl, refl, refl, refl)
take_processed-IsSame now u handled = (refl, refl, refl, refl)
take_processed-IsSame now u (malformed_twice reason) = (refl, refl, refl, refl)

-- A source that had succeeded still has when its line was no failure.
pub raw_succeeded_after :
    (now : ℕ) (u : Upstream) (p : Peer) (r : Peer × Processed)
    → Records p r
    → raw_succeeded p ≡ true
    → (take_processed now (record u { raw = r.0 }) r.1).1 ≡ none
    → raw_succeeded r.0 ≡ true
raw_succeeded_after now u p r (inl same) was ok =
    ap (λ o. elim o as (λ _. Bool) [ none ↦ false | some success ↦ success ]) same ∙ was
raw_succeeded_after now u p r (inr (true, e, f)) was ok =
    ap (λ o. elim o as (λ _. Bool) [ none ↦ false | some success ↦ success ]) f
raw_succeeded_after now u p r (inr (false, e, f)) was ok = absurd (cc (failed, ok))
  where
    failed : (take_processed now (record u { raw = r.0 }) r.1).1 ≡ some source_failed
    failed =
        ap (λ o. (take_processed now (record u { raw = r.0 }) o).1) e
        ∙ unfold take_processed status_of take_message in refl

handle_raw-IsFed :
    (fails replies : ℕ → Bool) (now : ℕ) (l : Inbound) (u : Upstream)
    → IsFed u
    → (handle fails replies now (raw_line l) u).1 ≡ none
    → IsFed (handle fails replies now (raw_line l) u).0
      × ((handle fails replies now (raw_line l) u).0.feed.sent ≡ u.feed.sent)
      × ((handle fails replies now (raw_line l) u).0.feed.objects_open ≡ u.feed.objects_open)
unfolding handle
handle_raw-IsFed fails replies now l u fed ok =
    let r = process replies l u.raw in
    let v = (take_processed now (record u { raw = r.0 }) r.1).0 in
    let (parser, raw, sent, is_open) = take_processed-IsSame now (record u { raw = r.0 }) r.1 in
    (
      record {
        handed = ap (λ p. p.sent) parser ∙ fed.handed ∙ ap (map parse_object) (sym sent);
        ended = λ closed.
            let (end, was) = fed.ended (ap (λ p. p.input_open) (sym parser) ∙ closed) in
            (
              is_open ∙ end,
              ap raw_succeeded raw
                  ∙ raw_succeeded_after now u u.raw r (process-Records replies l u.raw) was ok,
            );
      },
      sent,
      is_open,
    )

send_writes :
    (fails : ℕ → Bool) (m : Message) (p : Peer)
    → p.input_open ≡ true
    → fails p.writes ≡ false
    → ((send fails m p).0.sent ≡ m ∷ p.sent) × ((send fails m p).0.input_open ≡ p.input_open)
unfolding send
send_writes fails m p is_open sound =
    let (ok, wrote) = send_raw_writes fails m p is_open sound in
    let keeps : (send_raw fails m p).0.input_open ≡ p.input_open =
      unfold send_raw in ground arith in
    (ap (λ b. (remembered b).sent) ok ∙ wrote, ap (λ b. (remembered b).input_open) ok ∙ keeps)
  where
    remembered : Bool → Peer
    remembered b =
        if b then record (send_raw fails m p).0 { last_sent = some m } else (send_raw fails m p).0

take_path-IsFed :
    (fails : ℕ → Bool) (path : String) (u : Upstream)
    → ((i : ℕ) → fails i ≡ false)
    → u.feed.objects_open ≡ true
    → IsFed u
    → IsFed (take_path fails path u)
      × ((take_path fails path u).feed.sent ≡ insert path u.feed.sent)
      × ((take_path fails path u).feed.objects_open ≡ u.feed.objects_open)
unfolding take_path insert
take_path-IsFed fails path u sound is_open fed =
    let writable : u.parser.input_open ≡ true = elim (Bool-cases u.parser.input_open) [
      | inl can ↦ can
      | inr closed ↦ absurd (cc (is_open, (fed.ended closed).0))
    ] in
    let (wrote, keeps) =
      send_writes fails (parse_object path) u.parser writable (sound u.parser.writes) in
    go (contains u.feed.sent path) wrote (keeps ∙ writable)
  where
    go :
        (b : Bool)
        → (send fails (parse_object path) u.parser).0.sent ≡ parse_object path ∷ u.parser.sent
        → (send fails (parse_object path) u.parser).0.input_open ≡ true
        → let v = if b then u else record u {
          feed = record u.feed { sent = path ∷ u.feed.sent };
          parser = (send fails (parse_object path) u.parser).0;
        } in
          IsFed v
          × (v.feed.sent ≡ (if b then u.feed.sent else path ∷ u.feed.sent))
          × (v.feed.objects_open ≡ u.feed.objects_open)
    go true wrote writable = (fed, refl, refl)
    go false wrote writable = (
      record {
        handed = wrote ∙ ap (λ ms. parse_object path ∷ ms) fed.handed;
        ended = λ closed. absurd (cc (closed, writable));
      },
      refl,
      refl,
    )

-- Once the input can end, it is ended.
abbrev IsEnded : Upstream → Type 0
IsEnded u = u.feed.objects_open ≡ false → raw_succeeded u.raw ≡ true → u.parser.input_open ≡ false

maybe_end_input-IsFed :
    (u : Upstream)
    → IsFed u
    → IsFed (maybe_end_input u) × ((maybe_end_input u).feed ≡ u.feed) × IsEnded (maybe_end_input u)
unfolding maybe_end_input close_input
maybe_end_input-IsFed u fed =
    go (u.parser.input_open && not u.feed.objects_open && raw_succeeded u.raw) refl
  where
    go :
        (b : Bool)
        → (u.parser.input_open && not u.feed.objects_open && raw_succeeded u.raw) ≡ b
        → let v = if b then record u { parser = close_input u.parser } else u in
          IsFed v × (v.feed ≡ u.feed) × IsEnded v
    go true e = (
      record { handed = fed.handed; ended = λ _. (ground (arith, e), ground (arith, e)) },
      refl,
      λ _ _. refl,
    )
    go false e = (fed, refl, λ f g. ground (arith, e, f, g))

-- What is handed over of the paths that are still to come.
abbrev expected : Upstream → List (ℕ × FeedEvent) → List String
expected u es = if u.feed.objects_open then announced u.feed.sent es else u.feed.sent

handle_enabled-IsFed :
    (fails replies : ℕ → Bool) (now : ℕ) (e : FeedEvent) (es : List (ℕ × FeedEvent)) (u : Upstream)
    → ((i : ℕ) → fails i ≡ false)
    → IsFed u
    → (handle_enabled fails replies now e u).1 ≡ none
    → IsFed (handle_enabled fails replies now e u).0
      × (expected (handle_enabled fails replies now e u).0 es ≡ expected u ((now, e) ∷ es))
unfolding handle_enabled
handle_enabled-IsFed fails replies now (raw_line l) es u sound fed ok =
    let (fed', sent, is_open) = handle_raw-IsFed fails replies now l u fed ok in
    (fed', ap₂ (λ b acc. if b then announced acc es else acc) is_open sent)
handle_enabled-IsFed fails replies now (object none) es u sound fed ok = go u.feed.objects_open refl
  where
    go :
        (b : Bool)
        → u.feed.objects_open ≡ b
        → let v =
            (if◌then◌else◌ {A = Upstream × Option Failure} b
              (record u { feed = record u.feed { objects_open = false } }, none)
              (u, none)).0 in
          IsFed v × (expected v es ≡ (if b then u.feed.sent else u.feed.sent))
    go true e = (
      record { handed = fed.handed; ended = λ closed. absurd (cc (e, (fed.ended closed).0)) },
      refl,
    )
    go false e = (fed, ap (λ b. if b then announced u.feed.sent es else u.feed.sent) e)
handle_enabled-IsFed fails replies now (object (some path)) es u sound fed ok =
    go u.feed.objects_open refl
  where
    go :
        (b : Bool)
        → u.feed.objects_open ≡ b
        → let v =
            (if◌then◌else◌ {A = Upstream × Option Failure} b
              (take_path fails path u, none)
              (u, none)).0 in
          IsFed v
          × (expected v es ≡ (if b then announced (insert path u.feed.sent) es else u.feed.sent))
    go true e =
        let (fed', sent, is_open) = take_path-IsFed fails path u sound e fed in
        (fed', ap₂ (λ b acc. if b then announced acc es else acc) (is_open ∙ e) sent)
    go false e = (fed, ap (λ b. if b then announced u.feed.sent es else u.feed.sent) e)

nothing_left : (b : Bool) (acc : List String) → acc ≡ (if b then announced acc [] else acc)
nothing_left true acc = refl
nothing_left false acc = refl

supervise-IsFed :
    (fails replies : ℕ → Bool) (es : List (ℕ × FeedEvent)) (u : Upstream)
    → ((i : ℕ) → fails i ≡ false)
    → IsFed u
    → (supervise fails replies es u).1 ≡ none
    → let v = (supervise fails replies es u).0 in
      IsFed v × (v.feed.sent ≡ expected u es) × IsEnded v
unfolding supervise
supervise-IsFed fails replies [] u sound fed = λ ok.
    let (fed', same, end) = maybe_end_input-IsFed u fed in
    (fed', ap (λ f. f.sent) same ∙ nothing_left u.feed.objects_open u.feed.sent, end)
supervise-IsFed fails replies ((now, e) ∷ es) u sound fed =
    let (fed', same, end) = maybe_end_input-IsFed u fed in
    go (handle_enabled fails replies now e (maybe_end_input u))
      (handle_enabled-IsFed fails replies now e es (maybe_end_input u) sound fed')
      (λ w. supervise-IsFed fails replies es w sound)
      (ap (λ f. if f.objects_open then announced f.sent ((now, e) ∷ es) else f.sent) same)
  where
    go :
        (r : Upstream × Option Failure)
        → (r.1 ≡ none
            → IsFed r.0 × (expected r.0 es ≡ expected (maybe_end_input u) ((now, e) ∷ es)))
        → ((w : Upstream)
            → IsFed w
            → (supervise fails replies es w).1 ≡ none
            → IsFed (supervise fails replies es w).0
              × ((supervise fails replies es w).0.feed.sent ≡ expected w es)
              × IsEnded (supervise fails replies es w).0)
        → expected (maybe_end_input u) ((now, e) ∷ es) ≡ expected u ((now, e) ∷ es)
        → let out = elim r.1 as (λ _. Upstream × Option Failure) [
          | none ↦ supervise fails replies es r.0
          | some f ↦ (r.0, some f)
        ] in
          out.1 ≡ none
          → IsFed out.0 × (out.0.feed.sent ≡ expected u ((now, e) ∷ es)) × IsEnded out.0
    go (w, some f) h rec same ok = absurd (cc ok)
    go (w, none) h rec same ok =
        let (fed, left) = h refl in
        let (fed', sent, end) = rec w fed ok in (fed', sent ∙ left ∙ same, end)

-- If no write to the parser fails and the supervision of the feed does not fail, the parser has been
-- handed every path that was announced before the path channel ended, each once, in the order
-- of their first announcement; and its input has ended exactly if the channel has ended and the
-- raw source has reported success.
pub parser_gets_every_file :
    (fails replies : ℕ → Bool) (es : List (ℕ × FeedEvent)) (limit : Option ℕ)
    → ((i : ℕ) → fails i ≡ false)
    → (supervise fails replies es (fresh limit)).1 ≡ none
    → let v = (supervise fails replies es (fresh limit)).0 in
      (v.parser.sent ≡ map parse_object (announced [] es))
      × ((v.parser.input_open ≡ false)
          ↔ ((v.feed.objects_open ≡ false) × (raw_succeeded v.raw ≡ true)))
parser_gets_every_file fails replies es limit sound ok =
    let start : IsFed (fresh limit) = record { handed = refl; ended = λ e. absurd (cc e) } in
    let (fed, sent, end) = supervise-IsFed fails replies es (fresh limit) sound start ok in
    (fed.handed ∙ ap (map parse_object) sent, (fed.ended, λ (f, g). end f g))
