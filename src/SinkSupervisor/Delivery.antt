-- ===== src/SinkSupervisor/Delivery.antt =====
-- The sink's delivery ledger and its delivered prefix
-- (crates/loadsmith-core/src/sink_supervisor.rs, `Ledger` and `DeliveredPrefix`). A path is the text
-- of a `PathBuf`, so that two texts of one path (`a//b` and `a/b`), which Rust compares as equal,
-- count as two.
use loadsmith.Prelude.{
  ℕ, ◌+◌, max, String, Bool, true, false, ◌&&◌, ◌||◌, Option, none, some, List, [], ◌∷◌, ltb, leb,
  str_eq, if◌then◌else◌, u64,
}
use loadsmith.StateSupervisor.{Delivered}

-- `StagedObject` of crates/loadsmith-core/src/events.rs
pub record StagedObject : Type 0 where
  pub path : String
  pub batches : Option (ℕ × ℕ)

-- `ranges` is the hash map, the latest entry of a path in front; `reports` is what went into `tx`,
-- the latest in front.
pub record DeliveredPrefix : Type 0 where
  pub ranges : List (String × (ℕ × ℕ))
  pub through : ℕ
  pub reports : List Delivered

-- `delivered` is a hash set, as the list of what was inserted.
pub record Ledger : Type 0 where
  pub emitted : List String
  pub delivered : List String
  pub prefix : DeliveredPrefix

unfoldable pub contains : List String → String → Bool
contains [] p = false
contains (x ∷ xs) p = str_eq x p || contains xs p

unfoldable pub insert : String → List String → List String
unfolding contains
insert p xs = if contains xs p then xs else p ∷ xs

unfoldable pub lookup : String → List (String × (ℕ × ℕ)) → Option (ℕ × ℕ)
lookup p [] = none
lookup p ((k, r) ∷ m) = if str_eq k p then some r else lookup p m

unfoldable pub without : List String → List String → List String
without delivered [] = []
without delivered (p ∷ ps) =
    let rest = without delivered ps in if contains delivered p then rest else p ∷ rest

-- `Ledger::pending`
unfoldable pub pending : Ledger → List String
unfolding without
pending l = without l.delivered l.emitted

unfoldable pub all_in : List String → List String → Bool
all_in delivered [] = true
all_in delivered (p ∷ ps) = contains delivered p && all_in delivered ps

-- `Ledger::all_delivered`
unfoldable pub all_delivered : Ledger → Bool
unfolding all_in
all_delivered l = all_in l.delivered l.emitted

record_range : Option (ℕ × ℕ) → String → DeliveredPrefix → DeliveredPrefix
record_range none path prefix = prefix
record_range (some range) path prefix = record prefix { ranges = (path, range) ∷ prefix.ranges }

-- `DeliveredPrefix::record`
unfoldable pub record_object : DeliveredPrefix → StagedObject → DeliveredPrefix
unfolding record_range
record_object prefix object = record_range object.batches object.path prefix

-- The loop of `DeliveredPrefix::update`, with its variables `through` and `objects`.
unfoldable pub scan : List (String × (ℕ × ℕ)) → List String → List String → ℕ → ℕ → Delivered
scan ranges delivered [] through objects = record { through = through; objects = objects }
scan ranges delivered (p ∷ ps) through objects = elim (lookup p ranges) [
  | none ↦ record { through = through; objects = objects }
  | some (first, last) ↦ elim (contains delivered p && leb first (u64 (through + 1))) [
    | true ↦ scan ranges delivered ps (max through last) (u64 (objects + 1))
    | false ↦ record { through = through; objects = objects }
  ]
]

-- `DeliveredPrefix::update`
unfoldable pub update : DeliveredPrefix → List String → List String → DeliveredPrefix
unfolding scan
update prefix emitted delivered =
    let d = scan prefix.ranges delivered emitted 0 0 in
    if ltb prefix.through d.through
    then record prefix { through = d.through; reports = d ∷ prefix.reports }
    else prefix

unfoldable pub acknowledge : Ledger → String → Ledger
unfolding insert update
acknowledge l path =
    let delivered = insert path l.delivered in
    record l { delivered = delivered; prefix = update l.prefix l.emitted delivered }
