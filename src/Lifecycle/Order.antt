-- ===== src/Lifecycle/Order.antt =====
-- The order in which a plugin starts (crates/loadsmith-core/src/lifecycle.rs).
use loadsmith.Prelude.{ℕ, ◌≡◌, refl, sym, ap, subst, ◌∙◌, String, Bool, true, Option, List}
use loadsmith.Peer.{Message, HandshakeAck, handshake_ack, capabilities_response, configure_ack}
use loadsmith.Text.{Result, err, ok}
use loadsmith.Lifecycle.{
  Wait, Answer, got, failed, pending, Talk, Setup, PluginHandshake, and_then, say, hear,
  run_configure, run_capabilities, run_handshake_and_configure, of_result,
}
use loadsmith.Run.Failing.{Failure}
use loadsmith.Lifecycle.Matching.{
  take_ack-got, take_capabilities-got, take_configure_ack-got, IsMatch, identify-IsMatch,
}
use loadsmith.Lifecycle.Hearing.{Heard, hear-Heard}

-- What holds of the result of a step, and of what is left, if it has one.
abbrev pub Yields : {A : Type 0} → (A → Talk → Type 0) → Talk × Answer A → Type 0
Yields {A} P r = (a : A) → r.1 ≡ got a → P a r.0

got_inj : {A : Type 0} {a b : A} → got a ≡ got b → a ≡ b
got_inj {a} {b} e = cc e

-- A step behind another one starts from what that one yields.
pub and_then-Yields :
    {A B : Type 0} (P : A → Talk → Type 0) (Q : B → Talk → Type 0) (r : Talk × Answer A)
    (f : A → Talk → Talk × Answer B)
    → Yields P r
    → ((a : A) (t : Talk) → P a t → Yields Q (f a t))
    → Yields Q (and_then r f)
unfolding and_then
and_then-Yields P Q (t, got a) f h g = g a t (h a refl)
and_then-Yields P Q (t, failed x) f h g = λ b e. absurd (cc e)
and_then-Yields P Q (t, pending) f h g = λ b e. absurd (cc e)

say-Yields :
    (fails : ℕ → Bool) (msg : Message) (t : Talk)
    → Yields (λ _ u. u.coming ≡ t.coming) (say fails msg t)
unfolding say
say-Yields fails msg t u e = refl

of_result-Yields :
    {A : Type 0} (r : Result Failure A) (t : Talk)
    → Yields (λ _ u. u.coming ≡ t.coming) (of_result r t)
of_result-Yields (ok a) t b e = refl
of_result-Yields (err f) t b e = absurd (cc e)

hear-Yields :
    (fails : ℕ → Bool) (label : String) (limit : Option ℕ) (ws : List Wait) (t : Talk)
    → t.coming ≡ ws
    → Yields (λ msg u. Heard limit msg ws u.coming) (hear fails label limit t)
hear-Yields fails label limit ws t e msg f =
    subst (λ w. Heard limit msg w (hear fails label limit t).0.coming) e
      (hear-Heard fails label limit t msg f)

run_configure-Yields :
    (setup : Setup) (supports : List String) (ws : List Wait) (t : Talk)
    → t.coming ≡ ws
    → Yields
        (λ _ u. Heard setup.configure_limit (configure_ack true) ws u.coming)
        (run_configure setup supports t)
unfolding run_configure
run_configure-Yields setup supports ws t e =
    and_then-Yields (λ _ u. u.coming ≡ t.coming) Goal _ _
      (of_result-Yields (setup.config supports) t)
      λ config t1 e1.
        and_then-Yields (λ _ u. u.coming ≡ t1.coming) Goal _ _ (say-Yields setup.fails _ t1)
          λ _ t2 e2.
            and_then-Yields (λ msg u. Heard setup.configure_limit msg ws u.coming) Goal _ _
              (hear-Yields setup.fails setup.label setup.configure_limit ws t2 (e2 ∙ e1 ∙ e))
              λ msg t3 heard u f.
                let (m, left) = take_configure_ack-got setup msg t3 u f in
                subst (λ x. Heard setup.configure_limit (configure_ack true) ws x.coming) (sym left)
                  (subst (λ x. Heard setup.configure_limit x ws t3.coming) m heard)
  where
    Goal : Unit {0} → Talk → Type 0
    Goal _ u = Heard setup.configure_limit (configure_ack true) ws u.coming

pub run_capabilities-Yields :
    (setup : Setup) (a : HandshakeAck) (ws : List Wait) (t : Talk)
    → t.coming ≡ ws
    → Yields
        (λ agreed u.
          IsMatch setup a agreed.0
          × Heard setup.handshake_limit (capabilities_response agreed.1) ws u.coming)
        (run_capabilities setup a t)
unfolding run_capabilities
run_capabilities-Yields setup a ws t e =
    and_then-Yields (λ v u. IsMatch setup a v × (u ≡ t)) Goal _ _ (identify-IsMatch setup a t)
      λ v t1 k.
        and_then-Yields (λ _ u. u.coming ≡ t1.coming) Goal _ _ (say-Yields setup.fails _ t1)
          λ _ t2 e2.
            and_then-Yields (λ _ u. u.coming ≡ t2.coming) Goal _ _ (say-Yields setup.fails _ t2)
              λ _ t3 e3.
                and_then-Yields (λ msg u. Heard setup.handshake_limit msg ws u.coming) Goal _ _
                  (hear-Yields setup.fails setup.label setup.handshake_limit ws t3
                    (e3 ∙ e2 ∙ ap (λ x. x.coming) k.1 ∙ e))
                  λ msg t4 heard.
                    and_then-Yields
                      (λ s u. Heard setup.handshake_limit (capabilities_response s) ws u.coming)
                      Goal _ _
                      (λ s f.
                        let (m, left) = take_capabilities-got setup msg t4 s f in
                        subst
                          (λ x. Heard setup.handshake_limit (capabilities_response s) ws x.coming)
                          (sym left)
                          (subst (λ x. Heard setup.handshake_limit x ws t4.coming) m heard))
                      λ s t5 heard agreed f.
                        subst
                          (λ x.
                            IsMatch setup a x.0
                            × Heard setup.handshake_limit (capabilities_response x.1) ws t5.coming)
                          (got_inj f) (k.0, heard)
  where
    Goal : ℕ × List String → Talk → Type 0
    Goal agreed u =
        IsMatch setup a agreed.0
        × Heard setup.handshake_limit (capabilities_response agreed.1) ws u.coming

-- What a handshake that succeeded stands for: an acknowledgement, the capabilities and the
-- acceptance of the config, heard in this order.
pub record IsAgreed (setup : Setup) (coming rest : List Wait) (h : PluginHandshake) : Type 0 where
  pub ack : HandshakeAck
  pub behind_ack : List Wait
  pub behind_capabilities : List Wait
  pub acknowledged : Heard setup.handshake_limit (handshake_ack ack) coming behind_ack
  pub capable :
      Heard setup.handshake_limit (capabilities_response h.supports) behind_ack behind_capabilities
  pub configured : Heard setup.configure_limit (configure_ack true) behind_capabilities rest
  pub matching : IsMatch setup ack h.protocol_version
  pub named : (h.name ≡ ack.plugin_name) × (h.version ≡ ack.plugin_version)

-- If the start of a plugin succeeds, the plugin said in this order, each in time and with nothing
-- before it but logs, progress, pongs, requests to resend and malformed lines: an acknowledgement
-- of the handshake, of the expected kind and with a version that the core supports, the
-- capabilities, and that it accepts its config; and the result is made of these.
pub handshake_in_order :
    (setup : Setup) (t : Talk) (h : PluginHandshake)
    → (run_handshake_and_configure setup t).1 ≡ got h
    → IsAgreed setup t.coming (run_handshake_and_configure setup t).0.coming h
unfolding run_handshake_and_configure
handshake_in_order setup t =
    and_then-Yields (λ _ u. u.coming ≡ t.coming) Goal _ _ (say-Yields setup.fails _ t)
      λ _ t1 e1.
        and_then-Yields (λ msg u. Heard setup.handshake_limit msg t.coming u.coming) Goal _ _
          (hear-Yields setup.fails setup.label setup.handshake_limit t.coming t1 e1)
          λ msg t2 heard.
            and_then-Yields (λ a u. Heard setup.handshake_limit (handshake_ack a) t.coming u.coming)
              Goal _ _
              (λ a f.
                let (m, left) = take_ack-got setup msg t2 a f in
                subst (λ x. Heard setup.handshake_limit (handshake_ack a) t.coming x.coming)
                  (sym left)
                  (subst (λ x. Heard setup.handshake_limit x t.coming t2.coming) m heard))
              λ a t3 acknowledged.
                and_then-Yields
                  (λ agreed u.
                    IsMatch setup a agreed.0
                    × Heard setup.handshake_limit (capabilities_response agreed.1) t3.coming
                        u.coming)
                  Goal _ _ (run_capabilities-Yields setup a t3.coming t3 refl)
                  λ agreed t4 k.
                    and_then-Yields
                      (λ _ u. Heard setup.configure_limit (configure_ack true) t4.coming u.coming)
                      Goal _ _ (run_configure-Yields setup agreed.1 t4.coming t4 refl)
                      λ _ t5 configured h f.
                        subst (IsAgreed setup t.coming t5.coming) (got_inj f) (record {
                          ack = a;
                          behind_ack = t3.coming;
                          behind_capabilities = t4.coming;
                          acknowledged = acknowledged;
                          capable = k.1;
                          configured = configured;
                          matching = k.0;
                          named = (refl, refl);
                        })
  where
    Goal : PluginHandshake → Talk → Type 0
    Goal h u = IsAgreed setup t.coming u.coming h
