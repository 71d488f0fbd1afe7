-- ===== src/ObjectKey.antt =====
-- Object names for sinks (crates/loadsmith-plugin-sdk/src/object_key.rs).
pub mod Calendar
pub mod Names
pub mod Dates
pub mod Days
pub mod Keys
use loadsmith.Prelude.{
  ℕ, suc, zero, ◌+◌, ◌*◌, String, Bool, true, false, not, ◌&&◌, ◌||◌, Option, none, some, List, [],
  ◌∷◌, ◌++◌, length, if◌then◌else◌,
}
use loadsmith.Text.{codes, same, split, trim_start_matches, trim_end_matches, Result, err, ok}
use loadsmith.ObjectKey.Calendar.{utc, date, time}

pub data Segment : Type 0 where
  text : List ℕ → Segment
  file run_id run_date run_time pipeline : Segment

pub record RunInfo : Type 0 where
  pub id : List ℕ
  pub pipeline_name : List ℕ
  pub started_at_unix_ms : ℕ

-- The ways in which a key is refused.
pub data KeyError : Type 0 where
  unclosed without_file without_run : KeyError
  unknown_placeholder : List ℕ → KeyError

-- the `match` on a placeholder's name
unfoldable pub placeholder : List ℕ → Option Segment
unfolding same
placeholder name =
    if same name (codes "file")
    then some file
    else if same name (codes "run_id")
    then some run_id
    else if same name (codes "run_date")
    then some run_date
    else if same name (codes "run_time")
    then some run_time
    else if same name (codes "pipeline")
    then some pipeline
    else none

-- A text that is not empty, in front of other segments.
abbrev pub push_text : List ℕ → List Segment → List Segment
push_text [] segments = segments
push_text (c ∷ s) segments = text (c ∷ s) ∷ segments

abbrev pub push_found :
    List ℕ
    → Segment
    → Option (Result KeyError (List Segment))
    → Option (Result KeyError (List Segment))
push_found before segment none = none
push_found before segment (some (err e)) = some (err e)
push_found before segment (some (ok segments)) = some (ok (push_text before (segment ∷ segments)))

-- The loop over `rest`; `none` is a loop that has not ended within the fuel.
unfoldable pub parse_segments : ℕ → List ℕ → Option (Result KeyError (List Segment))
unfolding split placeholder
parse_segments zero rest = none
parse_segments (suc fuel) rest = elim (split b'{' rest) [
  | none ↦ some (ok (push_text rest []))
  | some (before, from_open) ↦ elim (split b'}' from_open) [
    | none ↦ some (err unclosed)
    | some (name, after) ↦ elim (placeholder name) [
      | none ↦ some (err (unknown_placeholder name))
      | some segment ↦ push_found before segment (parse_segments fuel after)
    ]
  ]
]

abbrev pub is_file : Segment → Bool
is_file file = true
is_file segment = false

abbrev pub names_run : Segment → Bool
names_run (text t) = false
names_run file = false
names_run run_id = true
names_run run_date = true
names_run run_time = true
names_run pipeline = true

-- `segments.contains(&Segment::File)`
unfoldable pub has_file : List Segment → Bool
has_file [] = false
has_file (s ∷ segments) = is_file s || has_file segments

-- `ObjectKey::needs_run`
unfoldable pub needs_run : List Segment → Bool
needs_run [] = false
needs_run (s ∷ segments) = names_run s || needs_run segments

-- the two checks behind the loop
unfoldable pub check : Option RunInfo → List Segment → Result KeyError (List Segment)
unfolding has_file needs_run
check run segments = if not (has_file segments) then err without_file else elim run [
  | some r ↦ ok segments
  | none ↦ if needs_run segments then err without_run else ok segments
]

-- the prefix, without the slashes around it
unfoldable pub with_prefix : Option (List ℕ) → List Segment → List Segment
unfolding trim_start_matches trim_end_matches
with_prefix none segments = segments
with_prefix (some p) segments = elim (trim_end_matches b'/' (trim_start_matches b'/' p)) [
  | [] ↦ segments
  | c ∷ s ↦ text ((c ∷ s) ++ (b'/' ∷ [])) ∷ segments
]

abbrev pub finish :
    Option (List ℕ)
    → Option RunInfo
    → Option (Result KeyError (List Segment))
    → Option (Result KeyError (List Segment))
finish prefix run none = none
finish prefix run (some (err e)) = some (err e)
finish prefix run (some (ok segments)) = some (check run (with_prefix prefix segments))

-- `ObjectKey::parse`, with fuel for each character
unfoldable pub parse :
    Option (List ℕ) → List ℕ → Option RunInfo → Option (Result KeyError (List Segment))
unfolding parse_segments check with_prefix trim_start_matches
parse prefix key run =
    finish prefix run (parse_segments (suc (length key)) (trim_start_matches b'/' key))

-- What a segment writes; `none` is the error of a key that names a run that the core did not send.
unfoldable pub segment_text : List ℕ → Option RunInfo → Segment → Option (List ℕ)
unfolding utc date time
segment_text name run (text t) = some t
segment_text name run file = some name
segment_text name none segment = none
segment_text name (some run) run_id = some run.id
segment_text name (some run) pipeline = some run.pipeline_name
segment_text name (some run) run_date = some (date (utc run.started_at_unix_ms))
segment_text name (some run) run_time = some (time (utc run.started_at_unix_ms))

abbrev pub append : Option (List ℕ) → Option (List ℕ) → Option (List ℕ)
append none rest = none
append (some t) none = none
append (some t) (some rest) = some (t ++ rest)

-- `ObjectKey::render`
unfoldable pub render : List Segment → List ℕ → Option RunInfo → Option (List ℕ)
unfolding segment_text
render [] name run = some []
render (s ∷ segments) name run = append (segment_text name run s) (render segments name run)
