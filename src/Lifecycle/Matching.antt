-- ===== src/Lifecycle/Matching.antt =====
-- What the answers of a plugin that starts say (crates/loadsmith-core/src/lifecycle.rs).
use loadsmith.Prelude.{
  ℕ, ◌≡◌, refl, sym, ap, subst, ◌∙◌, String, Bool, true, false, not, ◌||◌, ◌==◌, Option, none, some,
  List, [], ◌∷◌, arith, if◌then◌else◌,
}
use loadsmith.Peer.{
  Message, resend, log, progress, pong, ping, finished, schema, parse_object, cancel,
  protocol_error, other, ready, start, credit, PluginKind, HandshakeAck, source, destination, sink,
  parser, provider, handshake, capabilities_request, handshake_ack, set_protocol_version,
  capabilities_response, configure, configure_ack,
}
use loadsmith.Lifecycle.{
  Answer, got, failed, Talk, Setup, take_ack, identify, take_capabilities, take_configure_ack,
  kind_eq, choose, contains, supported_versions,
}
use loadsmith.Exit.{plugin_incompatible}
use loadsmith.Run.Failing.{by}

some_inj : {A : Type 0} {a b : A} → some a ≡ some b → a ≡ b
some_inj {a} {b} e = cc e

unwrap : {A : Type 0} {a b : A} → got a ≡ got b → a ≡ b
unwrap {a} {b} e = cc e

pub take_ack-got :
    (setup : Setup) (msg : Message) (t : Talk) (a : HandshakeAck)
    → (take_ack setup msg t).1 ≡ got a
    → (msg ≡ handshake_ack a) × ((take_ack setup msg t).0 ≡ t)
unfolding take_ack
take_ack-got setup handshake t a e = absurd (cc e)
take_ack-got setup capabilities_request t a e = absurd (cc e)
take_ack-got setup ready t a e = absurd (cc e)
take_ack-got setup resend t a e = absurd (cc e)
take_ack-got setup log t a e = absurd (cc e)
take_ack-got setup progress t a e = absurd (cc e)
take_ack-got setup pong t a e = absurd (cc e)
take_ack-got setup ping t a e = absurd (cc e)
take_ack-got setup (handshake_ack x) t a e = (ap handshake_ack (unwrap e), refl)
take_ack-got setup (set_protocol_version x) t a e = absurd (cc e)
take_ack-got setup (capabilities_response x) t a e = absurd (cc e)
take_ack-got setup (configure x y) t a e = absurd (cc e)
take_ack-got setup (configure_ack x) t a e = absurd (cc e)
take_ack-got setup (start x) t a e = absurd (cc e)
take_ack-got setup (credit x) t a e = absurd (cc e)
take_ack-got setup (finished x) t a e = absurd (cc e)
take_ack-got setup (schema x) t a e = absurd (cc e)
take_ack-got setup (parse_object x) t a e = absurd (cc e)
take_ack-got setup (cancel x) t a e = absurd (cc e)
take_ack-got setup (protocol_error x y) t a e = absurd (cc e)
take_ack-got setup (other x) t a e = absurd (cc e)

pub take_capabilities-got :
    (setup : Setup) (msg : Message) (t : Talk) (s : List String)
    → (take_capabilities setup msg t).1 ≡ got s
    → (msg ≡ capabilities_response s) × ((take_capabilities setup msg t).0 ≡ t)
unfolding take_capabilities
take_capabilities-got setup handshake t s e = absurd (cc e)
take_capabilities-got setup capabilities_request t s e = absurd (cc e)
take_capabilities-got setup ready t s e = absurd (cc e)
take_capabilities-got setup resend t s e = absurd (cc e)
take_capabilities-got setup log t s e = absurd (cc e)
take_capabilities-got setup progress t s e = absurd (cc e)
take_capabilities-got setup pong t s e = absurd (cc e)
take_capabilities-got setup ping t s e = absurd (cc e)
take_capabilities-got setup (handshake_ack x) t s e = absurd (cc e)
take_capabilities-got setup (set_protocol_version x) t s e = absurd (cc e)
take_capabilities-got setup (capabilities_response x) t s e =
    (ap capabilities_response (unwrap e), refl)
take_capabilities-got setup (configure x y) t s e = absurd (cc e)
take_capabilities-got setup (configure_ack x) t s e = absurd (cc e)
take_capabilities-got setup (start x) t s e = absurd (cc e)
take_capabilities-got setup (credit x) t s e = absurd (cc e)
take_capabilities-got setup (finished x) t s e = absurd (cc e)
take_capabilities-got setup (schema x) t s e = absurd (cc e)
take_capabilities-got setup (parse_object x) t s e = absurd (cc e)
take_capabilities-got setup (cancel x) t s e = absurd (cc e)
take_capabilities-got setup (protocol_error x y) t s e = absurd (cc e)
take_capabilities-got setup (other x) t s e = absurd (cc e)

pub take_configure_ack-got :
    (setup : Setup) (msg : Message) (t : Talk) (u : Unit)
    → (take_configure_ack setup msg t).1 ≡ got u
    → (msg ≡ configure_ack true) × ((take_configure_ack setup msg t).0 ≡ t)
unfolding take_configure_ack
take_configure_ack-got setup handshake t u e = absurd (cc e)
take_configure_ack-got setup capabilities_request t u e = absurd (cc e)
take_configure_ack-got setup ready t u e = absurd (cc e)
take_configure_ack-got setup resend t u e = absurd (cc e)
take_configure_ack-got setup log t u e = absurd (cc e)
take_configure_ack-got setup progress t u e = absurd (cc e)
take_configure_ack-got setup pong t u e = absurd (cc e)
take_configure_ack-got setup ping t u e = absurd (cc e)
take_configure_ack-got setup (handshake_ack x) t u e = absurd (cc e)
take_configure_ack-got setup (set_protocol_version x) t u e = absurd (cc e)
take_configure_ack-got setup (capabilities_response x) t u e = absurd (cc e)
take_configure_ack-got setup (configure x y) t u e = absurd (cc e)
take_configure_ack-got setup (configure_ack true) t u e = (refl, refl)
take_configure_ack-got setup (configure_ack false) t u e = absurd (cc e)
take_configure_ack-got setup (start x) t u e = absurd (cc e)
take_configure_ack-got setup (credit x) t u e = absurd (cc e)
take_configure_ack-got setup (finished x) t u e = absurd (cc e)
take_configure_ack-got setup (schema x) t u e = absurd (cc e)
take_configure_ack-got setup (parse_object x) t u e = absurd (cc e)
take_configure_ack-got setup (cancel x) t u e = absurd (cc e)
take_configure_ack-got setup (protocol_error x y) t u e = absurd (cc e)
take_configure_ack-got setup (other x) t u e = absurd (cc e)

kind_eq→eq : (a b : PluginKind) → kind_eq a b ≡ true → a ≡ b
unfolding kind_eq
kind_eq→eq source source e = refl
kind_eq→eq source destination e = absurd (cc e)
kind_eq→eq source sink e = absurd (cc e)
kind_eq→eq source parser e = absurd (cc e)
kind_eq→eq source provider e = absurd (cc e)
kind_eq→eq destination source e = absurd (cc e)
kind_eq→eq destination destination e = refl
kind_eq→eq destination sink e = absurd (cc e)
kind_eq→eq destination parser e = absurd (cc e)
kind_eq→eq destination provider e = absurd (cc e)
kind_eq→eq sink source e = absurd (cc e)
kind_eq→eq sink destination e = absurd (cc e)
kind_eq→eq sink sink e = refl
kind_eq→eq sink parser e = absurd (cc e)
kind_eq→eq sink provider e = absurd (cc e)
kind_eq→eq parser source e = absurd (cc e)
kind_eq→eq parser destination e = absurd (cc e)
kind_eq→eq parser sink e = absurd (cc e)
kind_eq→eq parser parser e = refl
kind_eq→eq parser provider e = absurd (cc e)
kind_eq→eq provider source e = absurd (cc e)
kind_eq→eq provider destination e = absurd (cc e)
kind_eq→eq provider sink e = absurd (cc e)
kind_eq→eq provider parser e = absurd (cc e)
kind_eq→eq provider provider e = refl

-- A version that was chosen is one that both sides support.
pub choose_common :
    (vs versions : List ℕ) (v : ℕ)
    → choose vs versions ≡ some v
    → (contains vs v ≡ true) × (contains versions v ≡ true)
unfolding choose contains
choose_common [] versions v e = absurd (cc e)
choose_common (w ∷ vs) versions v e = go (contains versions w) refl (choose_common vs versions v) e
  where
    go :
        (b : Bool)
        → contains versions w ≡ b
        → (choose vs versions ≡ some v → (contains vs v ≡ true) × (contains versions v ≡ true))
        → (if b then some w else choose vs versions) ≡ some v
        → (((w == v) || contains vs v) ≡ true) × (contains versions v ≡ true)
    go true e h f =
        let same : w ≡ v = some_inj f in
        (ground (arith, same), ap (contains versions) (sym same) ∙ e)
    go false e h f = ground (arith, h f)

-- The plugin is of the expected kind, and the version is one that both sides support.
pub IsMatch : Setup → HandshakeAck → ℕ → Type 0
IsMatch setup a v =
    (a.kind ≡ setup.expected_kind)
    × (contains supported_versions v ≡ true)
    × (contains a.protocol_supported_versions v ≡ true)

pub identify-IsMatch :
    (setup : Setup) (a : HandshakeAck) (t : Talk) (v : ℕ)
    → (identify setup a t).1 ≡ got v
    → IsMatch setup a v × ((identify setup a t).0 ≡ t)
unfolding identify IsMatch
identify-IsMatch setup a t v e =
    go (kind_eq a.kind setup.expected_kind) refl
      (choose supported_versions a.protocol_supported_versions) refl e
  where
    go :
        (b : Bool)
        → kind_eq a.kind setup.expected_kind ≡ b
        → (o : Option ℕ) → choose supported_versions a.protocol_supported_versions ≡ o
        → let r =
            (if◌then◌else◌ {A = Talk × Answer ℕ}
              (not b)
              (t, failed (by setup.label "WRONG_PLUGIN_KIND" (plugin_incompatible "kind")))
              (elim o as (λ _. Talk × Answer ℕ) [
                | none ↦ (
                  t,
                  failed (
                      by setup.label "UNSUPPORTED_PROTOCOL_VERSION"
                        (plugin_incompatible "version")),
                )
                | some v ↦ (t, got v)
              ])) in
          r.1 ≡ got v
          → ((a.kind ≡ setup.expected_kind)
              × (contains supported_versions v ≡ true)
              × (contains a.protocol_supported_versions v ≡ true))
            × (r.0 ≡ t)
    go false k o f e = absurd (cc e)
    go true k none f e = absurd (cc e)
    go true k (some w) f e =
        let (ours, theirs) = choose_common supported_versions a.protocol_supported_versions w f in
        let same : w ≡ v = unwrap e in
        (
          (
            kind_eq→eq a.kind setup.expected_kind k,
            subst (λ i. contains supported_versions i ≡ true) same ours,
            subst (λ i. contains a.protocol_supported_versions i ≡ true) same theirs,
          ),
          refl,
        )
