-- ===== src/Tests/Configs.antt =====
-- Concrete templates, redactions and dates (crates/loadsmith-config/src,
-- crates/loadsmith-plugin-sdk/src/object_key.rs).
use loadsmith.Prelude.{
  ℕ, ◌+◌, ◌*◌, ◌/◌, arith, ◌≡◌, ◌≢◌, refl, true, false, none, some, List, [], if◌then◌else◌,
}
use loadsmith.Text.{codes, same, ok, err}
use loadsmith.Config.Mask.{apply, occurs}
use loadsmith.Config.Mask.Replacing.{IsPlain}
use loadsmith.Config.Mask.Hiding.{IsIn}
use loadsmith.Config.Template.{
  Machine, Secrets, values, Piece, unclosed, stuck, has_expr, parse_template, substitute_string,
}
use loadsmith.Config.Template.Ending.{parse_template_ends}
use loadsmith.ObjectKey.Calendar.{utc, date}
use loadsmith.ObjectKey.Days.{days_after, epoch, utc_is_calendar}
use loadsmith.Config.Template.Recording.{IsFilled, substituted_is_recorded}

abbrev plainly : List ℕ → List ℕ
plainly s = s

abbrev machine : Machine
machine = record {
  variable = λ name. if same name (codes "HOST") then some (codes "db1") else none;
  content = λ path. none;
}

abbrev answers : Secrets
answers = values (λ r. some (codes "hunter22"))

abbrev input : List ℕ
input = codes "{{ env('HOST') }}:{{ secret('creds', \"db\") }}!"

abbrev filled : List ℕ
filled = codes "db1:hunter22!"

substituted : (substitute_string plainly machine answers input []).0 ≡ ok filled
unfolding substitute_string same
substituted = refl

substituted_is_recorded_example :
    let recorded = (substitute_string plainly machine answers input []).1 in
    ((pieces : List Piece) × ((parse_template input ≡ ok pieces)
        × (has_expr pieces ≡ false → filled ≡ input)
        × (has_expr pieces ≡ true → IsFilled machine answers recorded pieces filled)))
    × ((v text : List ℕ) → IsPlain v → IsIn v recorded → occurs v (apply recorded text) ≡ false)
substituted_is_recorded_example =
    substituted_is_recorded plainly machine answers input [] filled substituted

redacted :
    apply (substitute_string plainly machine answers input []).1 (codes "at db1: hunter22")
    ≡ codes "at ***: ***"
unfolding substitute_string same apply
redacted = refl

parse_template_ends_example : parse_template (codes "a {{ env('X'") ≢ err stuck
parse_template_ends_example = parse_template_ends (codes "a {{ env('X'")

is_unclosed : parse_template (codes "a {{ env('X'") ≡ err unclosed
unfolding parse_template
is_unclosed = refl

utc_is_calendar_example :
    utc (11016 * 86400000 + 3600000) ≡ days_after 11016 (epoch (3600000 / 1000))
utc_is_calendar_example = utc_is_calendar 11016 3600000 (omega arith)

leap_day : date (utc (11016 * 86400000 + 3600000)) ≡ codes "2000-02-29"
unfolding date utc
leap_day = refl
