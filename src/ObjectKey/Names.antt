-- ===== src/ObjectKey/Names.antt =====
-- The names that a key gives to files (crates/loadsmith-plugin-sdk/src/object_key.rs,
-- `ObjectKey::render`).
use loadsmith.Prelude.{
  ℕ, ◌≤◌, ◌<◌, ◌≡◌, refl, sym, ap, subst, inl, inr, Bool, true, false, ◌||◌, Option, none, some,
  List, [], ◌∷◌, ◌++◌, length, length-append, ltb, ◌==◌, arith, Bool-cases,
}
use loadsmith.ObjectKey.{
  Segment, text, file, run_id, run_date, run_time, pipeline, RunInfo, is_file, has_file,
  segment_text, append, render,
}

-- What was appended.
IsAppended : Option (List ℕ) → Option (List ℕ) → List ℕ → Type 0
IsAppended none b k = ⊥
IsAppended (some x) none k = ⊥
IsAppended (some x) (some y) k = k ≡ x ++ y

unwrap : {A : Type 0} {a b : A} → some a ≡ some b → a ≡ b
unwrap {a} {b} e = cc e

appended : (a b : Option (List ℕ)) (k : List ℕ) → append a b ≡ some k → IsAppended a b k
unfolding IsAppended
appended none b k e = absurd (cc e)
appended (some x) none k e = absurd (cc e)
appended (some x) (some y) k e = sym (unwrap e)

-- A segment is the file's, or the same for every file.
IsNamed : Bool → List ℕ → List ℕ → Option (List ℕ) → Option (List ℕ) → Type 0
IsNamed true f g a b = (a ≡ some f) × (b ≡ some g)
IsNamed false f g a b = a ≡ b

segment_text-IsNamed :
    (f g : List ℕ) (run : Option RunInfo) (s : Segment)
    → IsNamed (is_file s) f g (segment_text f run s) (segment_text g run s)
unfolding IsNamed segment_text
segment_text-IsNamed f g run (text t) = refl
segment_text-IsNamed f g run file = (refl, refl)
segment_text-IsNamed f g none run_id = refl
segment_text-IsNamed f g none run_date = refl
segment_text-IsNamed f g none run_time = refl
segment_text-IsNamed f g none pipeline = refl
segment_text-IsNamed f g (some r) run_id = refl
segment_text-IsNamed f g (some r) run_date = refl
segment_text-IsNamed f g (some r) run_time = refl
segment_text-IsNamed f g (some r) pipeline = refl

-- Two names of the same segments, for two files.
AreNames : List ℕ → List ℕ → Bool → Option (List ℕ) → Option (List ℕ) → Type 0
AreNames f g b none l = Unit
AreNames f g b (some k) none = ⊥
AreNames f g b (some k) (some l) =
    (length f ≤ length g → length k ≤ length l)
    × (length f < length g → b ≡ true → length k < length l)
    × (length f ≡ length g → (length k ≡ length l) × (k ≡ l → b ≡ true → f ≡ g))

-- Lists that are equal in front of others of the same length.
append_cancel : (x y u v : List ℕ) → length x ≡ length y → x ++ u ≡ y ++ v → (x ≡ y) × (u ≡ v)
append_cancel [] [] u v l e = (refl, e)
append_cancel [] (d ∷ y) u v l e = absurd (ground (arith, l))
append_cancel (c ∷ x) [] u v l e = absurd (ground (arith, l))
append_cancel (c ∷ x) (d ∷ y) u v l e =
    let (h, t) = append_cancel x y u v (ground (arith, l)) (cc e) in (cc (e, h), t)

names_append :
    (f g : List ℕ) (p b : Bool) (a a' o o' : Option (List ℕ))
    → IsNamed p f g a a'
    → AreNames f g b o o'
    → AreNames f g (p || b) (append a o) (append a' o')
unfolding IsNamed AreNames
names_append f g true b a a' o o' (e, e') h =
    subst (λ x. AreNames f g true (append x o) (append a' o')) (sym e)
      (subst (λ x. AreNames f g true (append (some f) o) (append x o')) (sym e') (go o o' h))
  where
    go :
        (o o' : Option (List ℕ))
        → AreNames f g b o o'
        → AreNames f g true (append (some f) o) (append (some g) o')
    go none o' h = tt
    go (some k) none h = absurd h
    go (some k) (some l) h = (
      λ le. ground (arith, length-append f k, length-append g l, h.0),
      λ lt _. ground (arith, length-append f k, length-append g l, h.0),
      λ eq. (
        ground (arith, length-append f k, length-append g l, h.2),
        λ same _. (append_cancel f g k l eq same).0,
      ),
    )
names_append f g false b a a' o o' e h =
    subst (λ x. AreNames f g b (append a o) (append x o')) e (go a o o' h)
  where
    go :
        (a o o' : Option (List ℕ)) → AreNames f g b o o' → AreNames f g b (append a o) (append a o')
    go none o o' h = tt
    go (some x) none o' h = tt
    go (some x) (some k) none h = absurd h
    go (some x) (some k) (some l) h = (
      λ le. ground (arith, length-append x k, length-append x l, h.0),
      λ lt has. ground (arith, length-append x k, length-append x l, h.1 lt has),
      λ eq. (
        ground (arith, length-append x k, length-append x l, h.2),
        λ same has. (h.2 eq).1 ((append_cancel x x k l refl same).1) has,
      ),
    )

render-AreNames :
    (f g : List ℕ) (run : Option RunInfo) (segments : List Segment)
    → AreNames f g (has_file segments) (render segments f run) (render segments g run)
unfolding render has_file AreNames
render-AreNames f g run [] =
    (λ _. ground arith, λ _ e. absurd (cc e), λ _. (refl, λ _ e. absurd (cc e)))
render-AreNames f g run (s ∷ segments) =
    names_append f g (is_file s) (has_file segments) _ _ _ _ (segment_text-IsNamed f g run s)
      (render-AreNames f g run segments)

apart :
    (f g : List ℕ) (b : Bool) (k l : List ℕ)
    → AreNames f g b (some k) (some l)
    → AreNames g f b (some l) (some k)
    → b ≡ true
    → k ≡ l
    → f ≡ g
unfolding AreNames
apart f g b k l h h' has same = elim (Bool-cases (length f == length g)) [
  | inl eq ↦ (h.2 (ground (arith, eq))).1 same has
  | inr ne ↦ elim (Bool-cases (ltb (length f) (length g))) [
    | inl lt ↦ absurd (ground (arith, h.1 (ground (arith, lt)) has, ap length same))
    | inr ge ↦ absurd (ground (arith, h'.1 (ground (arith, ge, ne)) has, ap length same))
  ]
]

-- Files that a key with `{file}` gives the same name are the same.
pub render-Injective :
    (f g : List ℕ) (run : Option RunInfo) (segments : List Segment) (k : List ℕ)
    → has_file segments ≡ true
    → render segments f run ≡ some k
    → render segments g run ≡ some k
    → f ≡ g
render-Injective f g run segments k has e e' =
    apart f g (has_file segments) k k (at f g e e' (render-AreNames f g run segments))
      (at g f e' e (render-AreNames g f run segments)) has refl
  where
    at :
        (f g : List ℕ) {o o' : Option (List ℕ)}
        → o ≡ some k
        → o' ≡ some k
        → AreNames f g (has_file segments) o o'
        → AreNames f g (has_file segments) (some k) (some k)
    at f g {o} {o'} e e' h =
        subst (λ x. AreNames f g (has_file segments) x (some k)) e
          (subst (λ x. AreNames f g (has_file segments) o x) e' h)
