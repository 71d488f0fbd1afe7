-- ===== src/Tests/Starts.antt =====
-- Concrete starts of plugins, and object names (crates/loadsmith-core/src/lifecycle.rs,
-- crates/loadsmith-plugin-sdk/src/object_key.rs).
use loadsmith.Prelude.{ℕ, ◌++◌, ◌≡◌, refl, ◌⊎◌, true, false, none, some, List, [], ◌∷◌, All}
use loadsmith.Peer
use loadsmith.Peer.{
  source, HandshakeAck, handshake_ack, capabilities_response, configure_ack, log, line,
}
use loadsmith.Text.{codes, Result, ok, trim_start_matches}
use loadsmith.Lifecycle.{said, overdue, Talk, Setup, PluginHandshake, run_handshake_and_configure}
use loadsmith.Lifecycle.Order.{IsAgreed, handshake_in_order}
use loadsmith.Lifecycle.Secrecy.{IsNoConfig, IsKnown, config_stays_secret}
use loadsmith.ObjectKey.{RunInfo, Segment, KeyError, text, file, run_id, parse, render}
use loadsmith.ObjectKey.Keys.{printed, prefix_text, key_names_files, parse_ends}

abbrev setup : Setup
setup = record {
  fails = λ n. false;
  label = "source";
  config = λ supports. ok "{}";
  unknown_keys = true;
  expected_kind = source;
  handshake_limit = some 10;
  configure_limit = none;
  start_limit = none;
}

abbrev ack : HandshakeAck
ack = record {
  plugin_name = "csv";
  plugin_version = "1.2.0";
  protocol_supported_versions = 2 ∷ 1 ∷ [];
  kind = source;
}

abbrev talk : Talk
talk = record {
  peer = Peer.new;
  coming =
      said (line log)
      ∷ said (line (handshake_ack ack))
      ∷ said (line (capabilities_response ("flow_credit" ∷ [])))
      ∷ overdue
      ∷ said (line (configure_ack true))
      ∷ [];
}

abbrev agreed : PluginHandshake
agreed = record {
  name = "csv";
  version = "1.2.0";
  protocol_version = 1;
  supports = "flow_credit" ∷ [];
}

handshake_in_order_example :
    IsAgreed setup talk.coming (run_handshake_and_configure setup talk).0.coming agreed
unfolding run_handshake_and_configure
handshake_in_order_example = handshake_in_order setup talk agreed refl

config_stays_secret_example :
    All IsNoConfig (run_handshake_and_configure setup talk).0.peer.sent ⊎ IsKnown setup talk.coming
config_stays_secret_example =
    config_stays_secret setup talk (record { unsent = tt; unremembered = tt })

abbrev run : RunInfo
run = record { id = codes "r1"; pipeline_name = codes "p"; started_at_unix_ms = 951782400000 }

abbrev key : List ℕ
key = codes "/{run_id}-{file}"

abbrev segments : List Segment
segments = text (codes "a/") ∷ run_id ∷ text (codes "-") ∷ file ∷ []

parsed : parse (some (codes "/a/")) key (some run) ≡ some (ok segments)
unfolding parse
parsed = refl

key_names_files_example :
    (printed segments ≡ prefix_text (some (codes "/a/")) ++ trim_start_matches b'/' key)
    × ((f : List ℕ) → (k : List ℕ) × (render segments f (some run) ≡ some k))
    × ((f g : List ℕ) → render segments f (some run) ≡ render segments g (some run) → f ≡ g)
key_names_files_example = key_names_files (some (codes "/a/")) key (some run) segments parsed

parse_ends_example :
    (r : Result KeyError (List Segment)) × (parse none (codes "{date}") none ≡ some r)
parse_ends_example = parse_ends none (codes "{date}") none

named : render segments (codes "x.csv") (some run) ≡ some (codes "a/r1-x.csv")
unfolding render
named = refl
