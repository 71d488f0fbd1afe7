-- ===== src/Config/Mask.antt =====
-- Redaction of resolved values (crates/loadsmith-config/src/mask.rs). Texts are code points; `escaped`
-- is what serde_json makes of a text, without the quotes.
pub mod Replacing
pub mod Hiding
use loadsmith.Prelude.{
  ℕ, suc, zero, ◌+◌, ◌-◌, Bool, true, false, not, ◌&&◌, ◌||◌, Option, none, some, List, [], ◌∷◌,
  ◌++◌, length, leb, ltb, ◌==◌, if◌then◌else◌,
}
use loadsmith.Text.{codes, same}

-- `MASK`
abbrev pub mask : List ℕ
mask = codes "***"

-- `MIN_MASKED_LINE_CHARS`
abbrev pub min_masked_line_chars : ℕ
min_masked_line_chars = 8

abbrev pub starts_with : List ℕ → List ℕ → Bool
starts_with [] t = true
starts_with (c ∷ s) [] = false
starts_with (c ∷ s) (d ∷ t) = (c == d) && starts_with s t

-- `t.contains(s)`
unfoldable pub occurs : List ℕ → List ℕ → Bool
occurs s [] = starts_with s []
occurs s (c ∷ t) = starts_with s (c ∷ t) || occurs s t

-- `t.replace(s, MASK)`, of a text that is not empty, where so many characters belong to the
-- occurrence in front
unfoldable pub replace : List ℕ → ℕ → List ℕ → List ℕ
replace s skip [] = []
replace s (suc skip) (c ∷ t) = replace s skip t
replace s zero (c ∷ t) =
    let inside = replace s (length s - 1) t in
    let outside = replace s zero t in if starts_with s (c ∷ t) then mask ++ inside else c ∷ outside

-- `MaskList::apply`
unfoldable pub apply : List (List ℕ) → List ℕ → List ℕ
unfolding replace occurs
apply [] out = out
apply (secret ∷ list) out = apply list (if occurs secret out then replace secret 0 out else out)

-- `char::is_whitespace`
unfoldable pub is_whitespace : ℕ → Bool
is_whitespace c =
    (leb 9 c && leb c 13)
    || (c == 32)
    || (c == 133)
    || (c == 160)
    || (c == 5760)
    || (leb 8192 c && leb c 8202)
    || (c == 8232)
    || (c == 8233)
    || (c == 8239)
    || (c == 8287)
    || (c == 12288)

unfoldable pub trim_start : List ℕ → List ℕ
unfolding is_whitespace
trim_start [] = []
trim_start (c ∷ s) = if is_whitespace c then trim_start s else c ∷ s

unfoldable pub trim_end : List ℕ → List ℕ
unfolding is_whitespace
trim_end [] = []
trim_end (c ∷ s) =
    let rest = trim_end s in
    elim rest [ [] ↦ (if is_whitespace c then [] else c ∷ []) | d ∷ ds ↦ c ∷ d ∷ ds ]

abbrev pub trim : List ℕ → List ℕ
trim s = trim_end (trim_start s)

-- `s.lines()`: its last line is left out if it is empty; an end of line keeps its `\r` here, which
-- the trimming takes off.
unfoldable pub lines : List ℕ → List (List ℕ)
lines [] = []
lines (c ∷ s) =
    let rest = lines s in
    if c == 10 then [] ∷ rest else elim rest [ [] ↦ (c ∷ []) ∷ [] | l ∷ ls ↦ (c ∷ l) ∷ ls ]

unfoldable pub contains : List (List ℕ) → List ℕ → Bool
unfolding same
contains [] s = false
contains (t ∷ list) s = same t s || contains list s

-- the lines that are masked on their own
unfoldable pub long_lines : List (List ℕ) → List (List ℕ)
unfolding trim_start trim_end
long_lines [] = []
long_lines (l ∷ ls) =
    let rest = long_lines ls in
    if leb min_masked_line_chars (length (trim l)) then trim l ∷ rest else rest

-- the length in bytes, as UTF-8
unfoldable pub byte_length : List ℕ → ℕ
byte_length [] = 0
byte_length (c ∷ s) =
    (if ltb c 128 then 1 else if ltb c 2048 then 2 else if ltb c 65536 then 3 else 4)
    + byte_length s

-- `sort_by_key(Reverse(len))`, which is stable
unfoldable pub sort_in : List ℕ → List (List ℕ) → List (List ℕ)
unfolding byte_length
sort_in s [] = s ∷ []
sort_in s (t ∷ list) =
    let rest = sort_in s list in
    if leb (byte_length t) (byte_length s) then s ∷ t ∷ list else t ∷ rest

unfoldable pub sort : List (List ℕ) → List (List ℕ)
unfolding sort_in
sort [] = []
sort (s ∷ list) = sort_in s (sort list)

-- the loop over the parts
unfoldable pub push_new : List (List ℕ) → List (List ℕ) → List (List ℕ)
unfolding contains
push_new [] list = list
push_new (p ∷ parts) list = push_new parts (if contains list p then list else list ++ (p ∷ []))

unfoldable pub has_newline : List ℕ → Bool
has_newline [] = false
has_newline (c ∷ s) = (c == 10) || has_newline s

-- the parts of a value
unfoldable pub parts : (List ℕ → List ℕ) → List ℕ → List (List ℕ)
unfolding has_newline lines long_lines same
parts escaped s =
    (if has_newline s then long_lines (lines s) else [])
    ++ (if same (escaped s) s then [] else escaped s ∷ [])
    ++ (s ∷ [])

-- `MaskList::add`
unfoldable pub add : (List ℕ → List ℕ) → List ℕ → List (List ℕ) → List (List ℕ)
unfolding parts push_new sort
add escaped [] list = list
add escaped (c ∷ s) list = sort (push_new (parts escaped (c ∷ s)) list)
