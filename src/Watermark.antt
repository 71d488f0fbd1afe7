-- ===== src/Watermark.antt =====
-- Tie-safe watermarks (crates/loadsmith-plugin-sdk/src/watermark.rs, `TieSafeCursor`). A type with
-- `PartialEq` is one whose equality is decided.
pub mod Safe
use mathlib.Core.Logic.{ite}
use loadsmith.Prelude.{Bool, true, false, Option, none, some, List, [], ◌∷◌, if◌then◌else◌}

pub record TieSafeCursor (T : Type 0) : Type 0 where
  pub complete : Option T
  pub last : Option T
  pub ended : Bool

module _ {T : Type 0} where
  abbrev pub new : TieSafeCursor T
  new = record { complete = none; last = none; ended = false }

  -- `newest_first.find(|v| *v != last)`
  pub find_other : Discrete T → T → List T → Option T
  find_other dec last [] = none
  find_other dec last (v ∷ vs) = ite (dec v last) (find_other dec last vs) (some v)

  -- `self.last`, if it is a value other than `last`, else `complete`
  pub passed : Discrete T → Option T → T → Option T → Option T
  passed dec none last complete = complete
  passed dec (some prev) last complete = ite (dec prev last) complete (some prev)

  pub choose : Option T → Option T → Option T
  choose none other = other
  choose (some earlier) other = some earlier

  -- One batch's values, newest first.
  pub batch : Discrete T → TieSafeCursor T → List T → TieSafeCursor T
  unfolding choose
  batch dec c [] = c
  batch dec c (last ∷ rest) = record c {
    complete = choose (find_other dec last rest) (passed dec c.last last c.complete);
    last = some last;
  }

  pub end : TieSafeCursor T → TieSafeCursor T
  end c = record c { ended = true }

  pub watermark : TieSafeCursor T → Option T
  unfolding choose
  watermark c = if c.ended then choose c.last c.complete else c.complete
