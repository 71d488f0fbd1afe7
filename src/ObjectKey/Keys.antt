-- ===== src/ObjectKey/Keys.antt =====
-- What a key is parsed to (crates/loadsmith-plugin-sdk/src/object_key.rs, `ObjectKey::parse`).
use loadsmith.Prelude.{
  ℕ, suc, zero, ◌≤◌, ◌<◌, ◌≡◌, refl, sym, ap, ap₂, subst, ◌∙◌, Bool, true, false, not, Option, none,
  some, List, [], ◌∷◌, ◌==◌, ◌++◌, append_assoc, append-nil, length, if◌then◌else◌, arith,
}
use loadsmith.Text.{
  codes, same, split, Result, err, ok, same→eq, split-IsSplit, split_shortens, IsSplit,
  trim_start_matches, trim_end_matches,
}
use loadsmith.ObjectKey.{
  Segment, text, file, run_id, run_date, run_time, pipeline, RunInfo, KeyError, unclosed,
  unknown_placeholder, without_file, without_run, placeholder, push_text, push_found, names_run,
  has_file, needs_run, segment_text, append, render, check, with_prefix, parse, finish,
  parse_segments,
}
use loadsmith.ObjectKey.Names.{render-Injective}

-- A segment as it stands in a key.
pub written : Segment → List ℕ
written (text t) = t
written file = codes "{file}"
written run_id = codes "{run_id}"
written run_date = codes "{run_date}"
written run_time = codes "{run_time}"
written pipeline = codes "{pipeline}"

pub printed : List Segment → List ℕ
unfolding written
printed [] = []
printed (s ∷ segments) = written s ++ printed segments

IsPlaceholder : List ℕ → Option Segment → Type 0
IsPlaceholder name none = Unit
IsPlaceholder name (some s) = written s ≡ b'{' ∷ name ++ (b'}' ∷ [])

placeholder-IsPlaceholder : (name : List ℕ) → IsPlaceholder name (placeholder name)
unfolding placeholder IsPlaceholder written
placeholder-IsPlaceholder name =
    go (same name (codes "file")) refl (same name (codes "run_id")) refl
      (same name (codes "run_date")) refl (same name (codes "run_time")) refl
      (same name (codes "pipeline")) refl
  where
    braced :
        (t : List ℕ) → same name t ≡ true → b'{' ∷ t ++ (b'}' ∷ []) ≡ b'{' ∷ name ++ (b'}' ∷ [])
    braced t e = ap (λ x. b'{' ∷ x ++ (b'}' ∷ [])) (sym (same→eq name t e))

    go :
        (a : Bool)
        → same name (codes "file") ≡ a
        → (b : Bool) → same name (codes "run_id") ≡ b
        → (c : Bool) → same name (codes "run_date") ≡ c
        → (d : Bool) → same name (codes "run_time") ≡ d
        → (e : Bool) → same name (codes "pipeline") ≡ e
        → IsPlaceholder name (
            if a
            then some file
            else if b
            then some run_id
            else if c
            then some run_date
            else if d
            then some run_time
            else if e
            then some pipeline
            else none)
    go true x b y c z d v e w = braced (codes "file") x
    go false x true y c z d v e w = braced (codes "run_id") y
    go false x false y true z d v e w = braced (codes "run_date") z
    go false x false y false z true v e w = braced (codes "run_time") v
    go false x false y false z false v true w = braced (codes "pipeline") w
    go false x false y false z false v false w = tt

-- The loop ends, and what it finds is what is written.
IsParsed : List ℕ → Option (Result KeyError (List Segment)) → Type 0
IsParsed s none = ⊥
IsParsed s (some (err e)) = Unit
IsParsed s (some (ok segments)) = printed segments ≡ s

printed-push_text :
    (t : List ℕ) (segments : List Segment) → printed (push_text t segments) ≡ t ++ printed segments
unfolding printed written
printed-push_text [] segments = refl
printed-push_text (c ∷ t) segments = refl

push_found-IsParsed :
    (before name after : List ℕ) (s : Segment) (o : Option (Result KeyError (List Segment)))
    → written s ≡ b'{' ∷ name ++ (b'}' ∷ [])
    → IsParsed after o
    → IsParsed (before ++ (b'{' ∷ (name ++ (b'}' ∷ after)))) (push_found before s o)
unfolding IsParsed printed
push_found-IsParsed before name after s none e h = absurd h
push_found-IsParsed before name after s (some (err f)) e h = tt
push_found-IsParsed before name after s (some (ok segments)) e h =
    let braced : written s ++ printed segments ≡ (b'{' ∷ (name ++ (b'}' ∷ []))) ++ after =
      ap (λ x. x ++ printed segments) e ∙ ap (λ x. (b'{' ∷ (name ++ (b'}' ∷ []))) ++ x) h in
    let joined : (b'{' ∷ (name ++ (b'}' ∷ []))) ++ after ≡ b'{' ∷ (name ++ (b'}' ∷ after)) =
      ap (λ x. b'{' ∷ x) (append_assoc name (b'}' ∷ []) after) in
    printed-push_text before (s ∷ segments) ∙ ap (λ x. before ++ x) (braced ∙ joined)

parse_segments-IsParsed :
    (fuel : ℕ) (s : List ℕ) → length s < fuel → IsParsed s (parse_segments fuel s)
unfolding parse_segments IsParsed printed
parse_segments-IsParsed zero s less = absurd (ground arith)
parse_segments-IsParsed (suc fuel) s less =
    opened (split b'{' s) (split-IsSplit b'{' s) (parse_segments-IsParsed fuel)
  where
    named :
        (before name after : List ℕ) (o : Option Segment)
        → IsPlaceholder name o
        → IsParsed after (parse_segments fuel after)
        → IsParsed
            (before ++ (b'{' ∷ (name ++ (b'}' ∷ after))))
            (elim o as (λ _. Option (Result KeyError (List Segment))) [
              | none ↦ some (err (unknown_placeholder name))
              | some segment ↦ push_found before segment (parse_segments fuel after)
            ])
    named before name after none e h = tt
    named before name after (some segment) e h =
        push_found-IsParsed before name after segment _ (unfold IsPlaceholder in e) h

    closed :
        (before from_open : List ℕ) (o : Option (List ℕ × List ℕ))
        → s ≡ before ++ b'{' ∷ from_open
        → IsSplit b'}' from_open o
        → ((t : List ℕ) → length t < fuel → IsParsed t (parse_segments fuel t))
        → IsParsed s (elim o as (λ _. Option (Result KeyError (List Segment))) [
          | none ↦ some (err unclosed)
          | some (name, after) ↦
              elim (placeholder name) as (λ _. Option (Result KeyError (List Segment))) [
                | none ↦ some (err (unknown_placeholder name))
                | some segment ↦ push_found before segment (parse_segments fuel after)
              ]
        ])
    closed before from_open none e f rec = tt
    closed before from_open (some (name, after)) e f rec =
        let shorter = split_shortens b'{' s before from_open e in
        let shortest = split_shortens b'}' from_open name after f in
        subst
          (λ t.
            IsParsed t (elim (placeholder name) as (λ _. Option (Result KeyError (List Segment))) [
              | none ↦ some (err (unknown_placeholder name))
              | some segment ↦ push_found before segment (parse_segments fuel after)
            ]))
          (ap (λ x. before ++ b'{' ∷ x) (sym f) ∙ sym e)
          (named before name after (placeholder name) (placeholder-IsPlaceholder name)
            (rec after (ground arith)))

    opened :
        (o : Option (List ℕ × List ℕ))
        → IsSplit b'{' s o
        → ((t : List ℕ) → length t < fuel → IsParsed t (parse_segments fuel t))
        → IsParsed s (elim o as (λ _. Option (Result KeyError (List Segment))) [
          | none ↦ some (ok (push_text s []))
          | some (before, from_open) ↦
              elim (split b'}' from_open) as (λ _. Option (Result KeyError (List Segment))) [
                | none ↦ some (err unclosed)
                | some (name, after) ↦
                    elim (placeholder name) as (λ _. Option (Result KeyError (List Segment))) [
                      | none ↦ some (err (unknown_placeholder name))
                      | some segment ↦ push_found before segment (parse_segments fuel after)
                    ]
              ]
        ])
    opened none e rec = printed-push_text s [] ∙ append-nil s
    opened (some (before, from_open)) e rec =
        closed before from_open (split b'}' from_open) e (split-IsSplit b'}' from_open) rec

-- What a key says in front of its files.
pub prefix_text : Option (List ℕ) → List ℕ
prefix_text none = []
prefix_text (some p) = elim (trim_end_matches b'/' (trim_start_matches b'/' p)) [
  | [] ↦ []
  | c ∷ s ↦ (c ∷ s) ++ (b'/' ∷ [])
]

with_prefix-printed :
    (prefix : Option (List ℕ)) (segments : List Segment)
    → printed (with_prefix prefix segments) ≡ prefix_text prefix ++ printed segments
unfolding with_prefix prefix_text printed written
with_prefix-printed none segments = refl
with_prefix-printed (some p) segments = go (trim_end_matches b'/' (trim_start_matches b'/' p))
  where
    go :
        (t : List ℕ)
        → printed (elim t as (λ _. List Segment) [
          | [] ↦ segments
          | c ∷ s ↦ text ((c ∷ s) ++ (b'/' ∷ [])) ∷ segments
        ])
          ≡ (elim t as (λ _. List ℕ) [ [] ↦ [] | c ∷ s ↦ (c ∷ s) ++ (b'/' ∷ []) ])
            ++ printed segments
    go [] = refl
    go (c ∷ s) = refl

trim_start_shortens : (c : ℕ) (s : List ℕ) → length (trim_start_matches c s) ≤ length s
unfolding trim_start_matches
trim_start_shortens c [] = ground arith
trim_start_shortens c (d ∷ s) = go (d == c) (trim_start_shortens c s)
  where
    go :
        (b : Bool)
        → length (trim_start_matches c s) ≤ length s
        → length (if b then trim_start_matches c s else d ∷ s) ≤ suc (length s)
    go true h = ground arith
    go false h = ground arith

-- What the checks let through.
check_ok :
    (run : Option RunInfo) (segments found : List Segment)
    → check run segments ≡ ok found
    → (found ≡ segments) × (has_file segments ≡ true) × ((run ≡ none) → needs_run segments ≡ false)
unfolding check
check_ok run segments found = go (has_file segments) refl run (needs_run segments) refl
  where
    go :
        (a : Bool)
        → has_file segments ≡ a
        → (run : Option RunInfo) (b : Bool) → needs_run segments ≡ b
        → (if not a then err without_file else elim run as (λ _. Result KeyError (List Segment)) [
          | some r ↦ ok segments
          | none ↦ if b then err without_run else ok segments
        ])
          ≡ ok found
        → (found ≡ segments)
          × (has_file segments ≡ true)
          × ((run ≡ none) → needs_run segments ≡ false)
    go false e run b f g = absurd (cc g)
    go true e (some r) b f g = (cc g, e, λ n. absurd (cc n))
    go true e none true f g = absurd (cc g)
    go true e none false f g = (cc g, e, λ _. f)

-- What is written where a key was accepted.
accepted :
    (prefix : Option (List ℕ)) (run : Option RunInfo) (s : List ℕ)
    (o : Option (Result KeyError (List Segment))) (segments : List Segment)
    → IsParsed s o
    → finish prefix run o ≡ some (ok segments)
    → (printed segments ≡ prefix_text prefix ++ s)
      × (has_file segments ≡ true)
      × ((run ≡ none) → needs_run segments ≡ false)
unfolding IsParsed
accepted prefix run s none segments h e = absurd h
accepted prefix run s (some (err f)) segments h e = absurd (cc e)
accepted prefix run s (some (ok found)) segments h e =
    let (same, has, needs) = check_ok run (with_prefix prefix found) segments (cc e) in
    (
      ap printed same ∙ with_prefix-printed prefix found ∙ ap (λ x. prefix_text prefix ++ x) h,
      ap has_file same ∙ has,
      λ n. ap needs_run same ∙ needs n,
    )

parse-accepted :
    (prefix : Option (List ℕ)) (key : List ℕ) (run : Option RunInfo) (segments : List Segment)
    → parse prefix key run ≡ some (ok segments)
    → (printed segments ≡ prefix_text prefix ++ trim_start_matches b'/' key)
      × (has_file segments ≡ true)
      × ((run ≡ none) → needs_run segments ≡ false)
unfolding parse
parse-accepted prefix key run segments e =
    accepted prefix run (trim_start_matches b'/' key) _ segments
      (parse_segments-IsParsed (suc (length key)) (trim_start_matches b'/' key)
        (ground (arith, trim_start_shortens b'/' key)))
      e

written_by :
    (name : List ℕ) (run : Option RunInfo) (s : Segment)
    → (run ≡ none → names_run s ≡ false)
    → (t : List ℕ) × (segment_text name run s ≡ some t)
unfolding segment_text
written_by name run (text t) h = (t, refl)
written_by name run file h = (name, refl)
written_by name none run_id h = absurd (cc (h refl))
written_by name none run_date h = absurd (cc (h refl))
written_by name none run_time h = absurd (cc (h refl))
written_by name none pipeline h = absurd (cc (h refl))
written_by name (some r) run_id h = (_, refl)
written_by name (some r) run_date h = (_, refl)
written_by name (some r) run_time h = (_, refl)
written_by name (some r) pipeline h = (_, refl)

rendered :
    (name : List ℕ) (run : Option RunInfo) (segments : List Segment)
    → (run ≡ none → needs_run segments ≡ false)
    → (k : List ℕ) × (render segments name run ≡ some k)
unfolding render needs_run
rendered name run [] h = ([], refl)
rendered name run (s ∷ segments) h =
    let (t, e) = written_by name run s (λ n. ground (arith, h n)) in
    let (k, f) = rendered name run segments (λ n. ground (arith, h n)) in (t ++ k, ap₂ append e f)

-- The parsing of a key always ends, with segments or an error.
pub parse_ends :
    (prefix : Option (List ℕ)) (key : List ℕ) (run : Option RunInfo)
    → (r : Result KeyError (List Segment)) × (parse prefix key run ≡ some r)
unfolding parse
parse_ends prefix key run = go _ (
    parse_segments-IsParsed (suc (length key)) (trim_start_matches b'/' key)
      (ground (arith, trim_start_shortens b'/' key)))
  where
    go :
        (o : Option (Result KeyError (List Segment)))
        → IsParsed (trim_start_matches b'/' key) o
        → (r : Result KeyError (List Segment)) × (finish prefix run o ≡ some r)
    go none h = absurd (unfold IsParsed in h)
    go (some (err e)) h = (err e, refl)
    go (some (ok segments)) h = (check run (with_prefix prefix segments), refl)

-- A key that is accepted is written out by its segments, behind the prefix; with the run that it was accepted for, it gives every file a name; and it gives no
-- two files the same name.
pub key_names_files :
    (prefix : Option (List ℕ)) (key : List ℕ) (run : Option RunInfo) (segments : List Segment)
    → parse prefix key run ≡ some (ok segments)
    → (printed segments ≡ prefix_text prefix ++ trim_start_matches b'/' key)
      × ((f : List ℕ) → (k : List ℕ) × (render segments f run ≡ some k))
      × ((f g : List ℕ) → render segments f run ≡ render segments g run → f ≡ g)
key_names_files prefix key run segments e =
    let (whole, has, needs) = parse-accepted prefix key run segments e in
    (
      whole,
      λ f. rendered f run segments needs,
      λ f g same.
          let (k, named) = rendered g run segments needs in
          render-Injective f g run segments k has (same ∙ named) named,
    )
