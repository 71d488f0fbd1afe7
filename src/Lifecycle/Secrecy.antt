-- ===== src/Lifecycle/Secrecy.antt =====
-- Who is sent a config (crates/loadsmith-core/src/lifecycle.rs): its templates are resolved, so it has
-- secrets.
use loadsmith.Prelude.{
  ℕ, ◌+◌, ◌≡◌, refl, sym, subst, ◌⊎◌, inl, inr, String, Bool, true, false, not, Option, none, some,
  List, [], ◌∷◌, All, leb, if◌then◌else◌,
}
use loadsmith.Peer.{
  Peer, Message, HandshakeAck, resend, log, progress, pong, ping, finished, schema, parse_object,
  cancel, protocol_error, other, ready, start, credit, handshake, capabilities_request,
  handshake_ack, set_protocol_version, capabilities_response, configure, configure_ack, Inbound,
  line, malformed, eof, Processed, handled, event, malformed_twice, resend_requested, send,
  send_raw, replay, process_line, process,
}
use loadsmith.Lifecycle.{
  Wait, said, stopped, overdue, Answer, got, failed, pending, Talk, Setup, and_then, say, hear,
  recv_expect, judge, take_ack, identify, run_capabilities, run_handshake_and_configure, kind_eq,
  choose, supported_versions,
}
use loadsmith.Lifecycle.Matching.{take_ack-got, IsMatch, identify-IsMatch}
use loadsmith.Lifecycle.Order.{run_capabilities-Yields}
use loadsmith.Exit.{plugin_incompatible}
use loadsmith.Run.Failing.{by}
use loadsmith.Lifecycle.Hearing.{Heard, hear-Heard}

abbrev pub IsNoConfig : Message → Type 0
IsNoConfig (configure config unknown_keys) = ⊥
IsNoConfig msg = Unit

abbrev IsLastNoConfig : Option Message → Type 0
IsLastNoConfig none = Unit
IsLastNoConfig (some msg) = IsNoConfig msg

-- No config was sent, and none would be sent again.
pub record IsQuiet (p : Peer) : Type 0 where
  pub unsent : All IsNoConfig p.sent
  pub unremembered : IsLastNoConfig p.last_sent

send_raw-IsQuiet :
    (fails : ℕ → Bool) (msg : Message) (p : Peer)
    → IsNoConfig msg
    → IsQuiet p
    → IsQuiet (send_raw fails msg p).0
unfolding send_raw
send_raw-IsQuiet fails msg p n q = go p.input_open (fails p.writes)
  where
    go :
        (a b : Bool)
        → IsQuiet
            (if◌then◌else◌ {A = Peer × Bool}
              (not a)
              (p, false)
              (if b
                then (record p { writes = p.writes + 1 }, false)
                else (record p { writes = p.writes + 1; sent = msg ∷ p.sent }, true))).0
    go false b = q
    go true true = record { unsent = q.unsent; unremembered = q.unremembered }
    go true false = record { unsent = (n, q.unsent); unremembered = q.unremembered }

send-IsQuiet :
    (fails : ℕ → Bool) (msg : Message) (p : Peer)
    → IsNoConfig msg
    → IsQuiet p
    → IsQuiet (send fails msg p).0
unfolding send
send-IsQuiet fails msg p n q = go (send_raw fails msg p) (send_raw-IsQuiet fails msg p n q)
  where
    go :
        (r : Peer × Bool)
        → IsQuiet r.0
        → IsQuiet (if r.1 then record r.0 { last_sent = some msg } else r.0)
    go (p, true) q = record { unsent = q.unsent; unremembered = n }
    go (p, false) q = q

replay-IsQuiet :
    (fails : ℕ → Bool) (last : Option Message) (p : Peer)
    → IsLastNoConfig last
    → IsQuiet p
    → IsQuiet (replay fails last p)
unfolding replay
replay-IsQuiet fails none p n q = q
replay-IsQuiet fails (some msg) p n q = send_raw-IsQuiet fails msg p n q

finished-IsQuiet :
    (f : Option Bool) (p : Peer) → IsQuiet p → IsQuiet (record p { finished_with = f })
finished-IsQuiet f p q = record { unsent = q.unsent; unremembered = q.unremembered }

process_line-IsQuiet :
    (fails : ℕ → Bool) (msg : Message) (p : Peer) → IsQuiet p → IsQuiet (process_line fails msg p).0
unfolding process_line
process_line-IsQuiet fails resend p q = go p.replay_on_resend
  where
    go :
        (b : Bool)
        → IsQuiet
            (if◌then◌else◌ {A = Peer × Processed} b
              (replay fails p.last_sent p, handled)
              (p, event resend_requested)).0
    go true = replay-IsQuiet fails p.last_sent p q.unremembered q
    go false = q
process_line-IsQuiet fails (finished x) p q = finished-IsQuiet _ p q
process_line-IsQuiet fails log p q = q
process_line-IsQuiet fails progress p q = q
process_line-IsQuiet fails pong p q = q
process_line-IsQuiet fails ping p q = q
process_line-IsQuiet fails (schema x) p q = q
process_line-IsQuiet fails (parse_object x) p q = q
process_line-IsQuiet fails (cancel x) p q = q
process_line-IsQuiet fails (protocol_error x y) p q = q
process_line-IsQuiet fails (other x) p q = q
process_line-IsQuiet fails handshake p q = q
process_line-IsQuiet fails capabilities_request p q = q
process_line-IsQuiet fails ready p q = q
process_line-IsQuiet fails (handshake_ack x) p q = q
process_line-IsQuiet fails (set_protocol_version x) p q = q
process_line-IsQuiet fails (capabilities_response x) p q = q
process_line-IsQuiet fails (configure x y) p q = q
process_line-IsQuiet fails (configure_ack x) p q = q
process_line-IsQuiet fails (start x) p q = q
process_line-IsQuiet fails (credit x) p q = q

streak-IsQuiet : (n : ℕ) (p : Peer) → IsQuiet p → IsQuiet (record p { malformed_streak = n })
streak-IsQuiet n p q = record { unsent = q.unsent; unremembered = q.unremembered }

process-IsQuiet :
    (fails : ℕ → Bool) (l : Inbound) (p : Peer) → IsQuiet p → IsQuiet (process fails l p).0
unfolding process
process-IsQuiet fails (line msg) p q = process_line-IsQuiet fails msg _ (streak-IsQuiet 0 p q)
process-IsQuiet fails (malformed reason) p q = go (leb 2 (p.malformed_streak + 1))
  where
    again : Peer
    again = record p { malformed_streak = p.malformed_streak + 1 }

    go :
        (b : Bool)
        → IsQuiet
            (if◌then◌else◌ {A = Peer × Processed} b
              (again, malformed_twice reason)
              ((send_raw fails resend again).0, handled)).0
    go true = streak-IsQuiet _ p q
    go false = send_raw-IsQuiet fails resend again tt (streak-IsQuiet _ p q)
process-IsQuiet fails eof p q = record { unsent = q.unsent; unremembered = q.unremembered }

recv_expect-IsQuiet :
    (fails : ℕ → Bool) (label : String) (limit : Option ℕ) (ws : List Wait) (p : Peer)
    → IsQuiet p
    → IsQuiet (recv_expect fails label limit ws p).0.peer
unfolding recv_expect
recv_expect-IsQuiet fails label limit [] p q = q
recv_expect-IsQuiet fails label limit (stopped h ∷ ws) p q = q
recv_expect-IsQuiet fails label none (overdue ∷ ws) p q =
    recv_expect-IsQuiet fails label none ws p q
recv_expect-IsQuiet fails label (some seconds) (overdue ∷ ws) p q = q
recv_expect-IsQuiet fails label limit (said l ∷ ws) p q =
    go (process fails l p) (process-IsQuiet fails l p q)
      (λ p q. recv_expect-IsQuiet fails label limit ws p q)
  where
    judged :
        (o : Option (Answer Message)) (p : Peer)
        → IsQuiet p
        → IsQuiet (recv_expect fails label limit ws p).0.peer
        → IsQuiet
            (elim o as (λ _. Talk × Answer Message) [
              | none ↦ recv_expect fails label limit ws p
              | some answer ↦ (record { peer = p; coming = ws }, answer)
            ]).0.peer
    judged none p q rec = rec
    judged (some answer) p q rec = q

    go :
        (r : Peer × Processed)
        → IsQuiet r.0
        → ((p : Peer) → IsQuiet p → IsQuiet (recv_expect fails label limit ws p).0.peer)
        → IsQuiet
            (elim (judge label r.1) as (λ _. Talk × Answer Message) [
              | none ↦ recv_expect fails label limit ws r.0
              | some answer ↦ (record { peer = r.0; coming = ws }, answer)
            ]).0.peer
    go (p, out) q rec = judged (judge label out) p q (rec p q)

-- A plugin of the expected kind, with a version that the core supports, acknowledged the handshake.
pub IsKnown : Setup → List Wait → Type 0
IsKnown setup ws =
    (a : HandshakeAck) × ((rest : List Wait) × ((v : ℕ) × (Heard setup.handshake_limit
            (handshake_ack a) ws rest
          × IsMatch setup a v)))

-- What holds of what is left by a step, whether or not it has a result.
Leaves : {A : Type 0} → (Talk → Type 0) → Talk × Answer A → Type 0
Leaves P r = P r.0

-- What holds after a chain, if it holds where its first step ends it, and after the rest.
and_then-Leaves :
    {A B : Type 0} (P : Talk → Type 0) (r : Talk × Answer A) (f : A → Talk → Talk × Answer B)
    → Leaves P r
    → ((a : A) → r.1 ≡ got a → Leaves P (f a r.0))
    → Leaves P (and_then r f)
unfolding and_then Leaves
and_then-Leaves P (t, got a) f h g = g a refl
and_then-Leaves P (t, failed x) f h g = h
and_then-Leaves P (t, pending) f h g = h

leaves : {A : Type 0} (P : Talk → Type 0) (r : Talk × Answer A) → P r.0 → Leaves P r
unfolding Leaves
leaves P r h = h

left_by : {A : Type 0} (P : Talk → Type 0) (r : Talk × Answer A) → Leaves P r → P r.0
unfolding Leaves
left_by P r h = h

take_ack-same : (setup : Setup) (msg : Message) (t : Talk) → (take_ack setup msg t).0 ≡ t
unfolding take_ack
take_ack-same setup handshake t = refl
take_ack-same setup capabilities_request t = refl
take_ack-same setup ready t = refl
take_ack-same setup resend t = refl
take_ack-same setup log t = refl
take_ack-same setup progress t = refl
take_ack-same setup pong t = refl
take_ack-same setup ping t = refl
take_ack-same setup (handshake_ack x) t = refl
take_ack-same setup (set_protocol_version x) t = refl
take_ack-same setup (capabilities_response x) t = refl
take_ack-same setup (configure x y) t = refl
take_ack-same setup (configure_ack x) t = refl
take_ack-same setup (start x) t = refl
take_ack-same setup (credit x) t = refl
take_ack-same setup (finished x) t = refl
take_ack-same setup (schema x) t = refl
take_ack-same setup (parse_object x) t = refl
take_ack-same setup (cancel x) t = refl
take_ack-same setup (protocol_error x y) t = refl
take_ack-same setup (other x) t = refl

identify-same : (setup : Setup) (a : HandshakeAck) (t : Talk) → (identify setup a t).0 ≡ t
unfolding identify
identify-same setup a t =
    go (kind_eq a.kind setup.expected_kind)
      (choose supported_versions a.protocol_supported_versions)
  where
    go :
        (b : Bool) (o : Option ℕ)
        → (if◌then◌else◌ {A = Talk × Answer ℕ}
            (not b)
            (t, failed (by setup.label "WRONG_PLUGIN_KIND" (plugin_incompatible "kind")))
            (elim o as (λ _. Talk × Answer ℕ) [
              | none ↦ (
                t,
                failed
                    (by setup.label "UNSUPPORTED_PROTOCOL_VERSION" (plugin_incompatible "version")),
              )
              | some v ↦ (t, got v)
            ])).0
          ≡ t
    go false o = refl
    go true none = refl
    go true (some v) = refl

-- From a channel on which no config was sent, the start of a plugin sends a config only to a plugin
-- that has acknowledged the handshake in time, is of the expected kind and has a version that the
-- core supports, however the start ends.
pub config_stays_secret :
    (setup : Setup) (t : Talk)
    → IsQuiet t.peer
    → All IsNoConfig (run_handshake_and_configure setup t).0.peer.sent ⊎ IsKnown setup t.coming
unfolding run_handshake_and_configure IsKnown
config_stays_secret setup t quiet = unsent (run_handshake_and_configure setup t).0 (
    left_by IsSafe (run_handshake_and_configure setup t) (
      and_then-Leaves IsSafe _ _ (leaves IsSafe (say setup.fails handshake t) (inl greeted)) λ _ _.
        and_then-Leaves IsSafe _ _
          (leaves IsSafe
            (hear setup.fails setup.label setup.handshake_limit (say setup.fails handshake t).0)
            (inl (heard (say setup.fails handshake t).0 greeted)))
          λ msg e.
            let t1 = (say setup.fails handshake t).0 in
            let t2 = (hear setup.fails setup.label setup.handshake_limit t1).0 in
            let quiet2 : IsQuiet t2.peer = heard t1 greeted in
            let quiet3 : IsQuiet (take_ack setup msg t2).0.peer =
              subst (λ u. IsQuiet u.peer) (sym (take_ack-same setup msg t2)) quiet2 in
            and_then-Leaves IsSafe _ _ (leaves IsSafe (take_ack setup msg t2) (inl quiet3)) λ a f.
              let t3 = (take_ack setup msg t2).0 in
              let ack : Heard setup.handshake_limit (handshake_ack a) t.coming t2.coming =
                subst (λ m. Heard setup.handshake_limit m t.coming t2.coming)
                  (take_ack-got setup msg t2 a f).0
                  (hear-Heard setup.fails setup.label setup.handshake_limit t1 msg e) in
              and_then-Leaves IsSafe _ _
                (capabilities a t3 quiet3 (λ v k. (a, (t2.coming, (v, (ack, k))))))
                λ agreed g. leaves IsSafe _ (
                  inr (
                    a,
                    (
                      t2.coming,
                      (
                        agreed.0,
                        (ack, (run_capabilities-Yields setup a t3.coming t3 refl agreed g).0),
                      ),
                    ),
                  ))))
  where
    IsSafe : Talk → Type 0
    IsSafe u = IsQuiet u.peer ⊎ IsKnown setup t.coming

    unsent : (u : Talk) → IsSafe u → All IsNoConfig u.peer.sent ⊎ IsKnown setup t.coming
    unsent u (inl q) = inl q.unsent
    unsent u (inr k) = inr k

    greeted : IsQuiet (say setup.fails handshake t).0.peer
    greeted = unfold say in send-IsQuiet setup.fails handshake t.peer tt quiet

    heard :
        (u : Talk)
        → IsQuiet u.peer
        → IsQuiet (hear setup.fails setup.label setup.handshake_limit u).0.peer
    heard u q =
        unfold hear in
        recv_expect-IsQuiet setup.fails setup.label setup.handshake_limit u.coming u.peer q

    capabilities :
        (a : HandshakeAck) (u : Talk)
        → IsQuiet u.peer
        → ((v : ℕ) → IsMatch setup a v → IsKnown setup t.coming)
        → Leaves IsSafe (run_capabilities setup a u)
    capabilities a u q known =
        unfold run_capabilities in
        and_then-Leaves IsSafe _ _
          (leaves IsSafe (identify setup a u)
            (inl (subst (λ w. IsQuiet w.peer) (sym (identify-same setup a u)) q)))
          λ v e. leaves IsSafe _ (inr (known v (identify-IsMatch setup a u v e).0))
