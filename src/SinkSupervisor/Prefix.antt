-- ===== src/SinkSupervisor/Prefix.antt =====
-- What a reported prefix (crates/loadsmith-core/src/sink_supervisor.rs, `DeliveredPrefix`) stands for.
use loadsmith.Prelude.{
  ℕ, zero, suc, ◌+◌, ◌≤◌, ◌<◌, ◌^◌, max, ◌≡◌, refl, subst, ◌⊎◌, inl, inr, String, true, false, ◌&&◌,
  Option, none, some, List, [], ◌∷◌, length, arith, ltb, leb, u64, Bool-cases, Option-cases,
}
use loadsmith.StateSupervisor.{Delivered}
use loadsmith.SinkSupervisor.Delivery.{Ledger, contains, insert, lookup, scan, update, acknowledge}

module _ (ranges : List (String × (ℕ × ℕ))) (delivered : List String) where
  -- The file was acknowledged, and announced that it holds batch `b`.
  abbrev pub Lands : String → ℕ → Type 0
  Lands path b =
      (first last : ℕ) × (lookup path ranges ≡ some (first, last))
      × (contains delivered path ≡ true)
      × (first ≤ b)
      × (b ≤ last)

  -- One of the first `k` files landed batch `b`.
  abbrev pub LandsWithin : ℕ → List String → ℕ → Type 0
  LandsWithin zero ps b = ⊥
  LandsWithin (suc k) [] b = ⊥
  LandsWithin (suc k) (p ∷ ps) b = Lands p b ⊎ LandsWithin k ps b

  -- The first `k` files were acknowledged.
  abbrev pub FirstDelivered : ℕ → List String → Type 0
  FirstDelivered zero ps = Unit
  FirstDelivered (suc k) [] = ⊥
  FirstDelivered (suc k) (p ∷ ps) = (contains delivered p ≡ true) × FirstDelivered k ps

  -- From `through` and `objects` on, the scan of `ps` ended at `d`, past `k` more files.
  abbrev Scanned : List String → ℕ → ℕ → Delivered → Type 0
  Scanned ps through objects d =
      (k : ℕ) × (d.objects ≡ objects + k)
      × FirstDelivered k ps
      × ((b : ℕ) → through < b → b ≤ d.through → LandsWithin k ps b)

  scan_stops :
      (p : String) (ps : List String) (through objects : ℕ) (o : Option (ℕ × ℕ))
      → lookup p ranges ≡ o
      → (o ≡ none)
        ⊎ ((first last : ℕ) × (o ≡ some (first, last))
            × ((contains delivered p && leb first (u64 (through + 1))) ≡ false))
      → scan ranges delivered (p ∷ ps) through objects
        ≡ record { through = through; objects = objects }
  unfolding scan
  scan_stops p ps through objects none e h = rw (e, scan)
  scan_stops p ps through objects (some (first, last)) e (inl h) = cc
  scan_stops p ps through objects (some (first, last)) e (inr (f, l, same, off)) = ground arith

  scan_goes :
      (p : String) (ps : List String) (through objects first last : ℕ)
      → lookup p ranges ≡ some (first, last)
      → (contains delivered p && leb first (u64 (through + 1))) ≡ true
      → scan ranges delivered (p ∷ ps) through objects
        ≡ scan ranges delivered ps (max through last) (u64 (objects + 1))
  unfolding scan
  scan_goes p ps through objects first last e on = ground arith

  stopped :
      (ps : List String) (through objects : ℕ)
      → Scanned ps through objects (record { through = through; objects = objects })
  stopped ps through objects = (0, omega arith, tt, λ b lo hi. absurd (omega arith))

  scan_lands :
      (ps : List String) (through objects : ℕ)
      → objects + length ps < 2 ^ 64
      → Scanned ps through objects (scan ranges delivered ps through objects)
  unfolding scan
  scan_lands [] through objects fits = stopped [] through objects
  scan_lands (p ∷ ps) through objects fits = elim (Option-cases (lookup p ranges)) [
    | inl missing ↦
        rw (scan_stops p ps through objects none missing (inl refl))
          (stopped (p ∷ ps) through objects)
    | inr (r, found) ↦ elim (Bool-cases (contains delivered p && leb r.0 (u64 (through + 1)))) [
      | inl on ↦
          let (k, n, all, lands) =
            scan_lands ps (max through r.1) (u64 (objects + 1)) (omega arith) in
          let here : contains delivered p ≡ true = ground arith in
          let starts : r.0 ≤ through + 1 = ground arith in
          rw (scan_goes p ps through objects r.0 r.1 found on) (
            suc k,
            omega (arith, n),
            (here, all),
            λ b lo hi. elim (Bool-cases (leb b r.1)) [
              | inl y ↦ inl (r.0, r.1, found, here, omega arith, ground arith)
              | inr n' ↦ inr (lands b (ground arith) hi)
            ],
          )
      | inr off ↦
          rw (scan_stops p ps through objects (some r) found (inr (r.0, r.1, refl, off)))
            (stopped (p ∷ ps) through objects)
    ]
  ]

-- With fewer than 2^64 files, an acknowledgement leaves the prefix unchanged, or reports one that
-- is past the one before and sound: the first `objects` files that were emitted are all
-- acknowledged, and every batch from 1 through `through` is in the announced range of one of them.
pub acknowledge_reports :
    (l : Ledger) (path : String)
    → length l.emitted < 2 ^ 64
    → let l' = acknowledge l path in
      (l'.prefix ≡ l.prefix)
      ⊎ ((d : Delivered) × (l'.prefix.reports ≡ d ∷ l.prefix.reports)
          × (l'.prefix.through ≡ d.through)
          × (l.prefix.through < d.through)
          × FirstDelivered l.prefix.ranges l'.delivered d.objects l.emitted
          × ((b : ℕ)
              → 0 < b
              → b ≤ d.through
              → LandsWithin l.prefix.ranges l'.delivered d.objects l.emitted b))
unfolding acknowledge update
acknowledge_reports l path fits =
    let ranges = l.prefix.ranges in
    let delivered = insert path l.delivered in
    let d = scan ranges delivered l.emitted 0 0 in
    let (k, n, all, lands) = scan_lands ranges delivered l.emitted 0 0 (omega arith) in
    let same : k ≡ d.objects = omega (arith, n) in
    elim (Bool-cases (ltb l.prefix.through d.through)) [
      | inl grows ↦ inr (
        d,
        ground arith,
        ground arith,
        ground arith,
        subst (λ j. FirstDelivered ranges delivered j l.emitted) same all,
        λ b lo hi. subst (λ j. LandsWithin ranges delivered j l.emitted b) same (lands b lo hi),
      )
      | inr stays ↦ inl (ground arith)
    ]
