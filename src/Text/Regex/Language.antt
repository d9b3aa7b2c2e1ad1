-- ===== src/Text/Regex/Language.antt =====
-- The texts that a regular expression matches, and that the matcher finds exactly those.
use bke_console_service.Prelude.{
  ℕ, ◌≡◌, ◌↔◌, ◌⊎◌, inl, inr, refl, sym, ap, ◌∙◌, subst, true, [], ◌∷◌, ◌++◌, arith, Bool-cases,
}
use bke_console_service.Text.{Text}
use bke_console_service.Text.Regex.{
  Regex, nothing, empty, class, seq, alt, star, nullable, derive, matches_prefix, match_string,
}

-- A text made of any number of texts with a property.
pub data Repeats (P : Text → Type 0) : Text → Type 0 where
  stop : (s : Text) → s ≡ [] → Repeats P s
  more : (s t u : Text) → u ≡ s ++ t → P s → Repeats P t → Repeats P u

pub Matches : Regex → Text → Type 0
Matches nothing s = ⊥
Matches empty s = s ≡ []
Matches (class p) s = (c : ℕ) × (s ≡ c ∷ []) × (p c ≡ true)
Matches (seq a b) u = (s : Text) × (t : Text) × (u ≡ s ++ t) × Matches a s × Matches b t
Matches (alt a b) s = Matches a s ⊎ Matches b s
Matches (star a) s = Repeats (Matches a) s

nullable_sound : (re : Regex) → nullable re ≡ true → Matches re []
unfolding nullable Matches
nullable_sound nothing h = cc
nullable_sound empty h = refl
nullable_sound (class p) h = cc
nullable_sound (seq a b) h =
    ([], [], refl, nullable_sound a (ground arith), nullable_sound b (ground arith))
nullable_sound (alt a b) h = elim (Bool-cases (nullable a)) [
  | inl e ↦ inl (nullable_sound a e)
  | inr e ↦ inr (nullable_sound b (ground arith))
]
nullable_sound (star a) h = stop [] refl

nullable_complete : (re : Regex) → Matches re [] → nullable re ≡ true
unfolding nullable Matches
nullable_complete nothing m = absurd m
nullable_complete empty m = refl
nullable_complete (class p) (c, e, h) = cc
nullable_complete (seq a b) ([], t, e, ma, mb) =
    rw (nullable_complete a ma) (nullable_complete b (subst (Matches b) (sym e) mb))
nullable_complete (seq a b) (d ∷ s, t, e, ma, mb) = cc
nullable_complete (alt a b) (inl m) = rw (nullable_complete a m) refl
nullable_complete (alt a b) (inr m) = ground (arith, nullable_complete b m)
nullable_complete (star a) m = refl

derive_sound : (c : ℕ) (re : Regex) (s : Text) → Matches (derive c re) s → Matches re (c ∷ s)
unfolding derive Matches
derive_sound c nothing s m = absurd m
derive_sound c empty s m = absurd m
derive_sound c (class p) s m = elim (Bool-cases (p c)) [
  | inl e ↦ (c, ap (λ t. c ∷ t) (rw e at m), e)
  | inr e ↦ absurd (rw e at m)
]
derive_sound c (seq a b) s m = elim (Bool-cases (nullable a)) [
  | inl e ↦ elim (rw e at m) [
    | inl (u, v, split, ma, mb) ↦ (c ∷ u, v, ap (λ t. c ∷ t) split, derive_sound c a u ma, mb)
    | inr mb ↦ ([], c ∷ s, refl, nullable_sound a e, derive_sound c b s mb)
  ]
  | inr e ↦
      let (u, v, split, ma, mb) = rw e at m in
      (c ∷ u, v, ap (λ t. c ∷ t) split, derive_sound c a u ma, mb)
]
derive_sound c (alt a b) s (inl m) = inl (derive_sound c a s m)
derive_sound c (alt a b) s (inr m) = inr (derive_sound c b s m)
derive_sound c (star a) s (u, v, e, ma, ms) =
    more (c ∷ u) v (c ∷ s) (ap (λ t. c ∷ t) e) (derive_sound c a u ma) ms

-- A repetition that is not empty begins with a text that is not.
Repeats-cons :
    (P : Text → Type 0) (c : ℕ) (s u : Text)
    → u ≡ c ∷ s
    → Repeats P u
    → (v : Text) × (w : Text) × (s ≡ v ++ w) × P (c ∷ v) × Repeats P w
Repeats-cons P c s u e (stop u' h) = cc
Repeats-cons P c s u e (more [] t u' h m rest) = Repeats-cons P c s t (sym h ∙ e) rest
Repeats-cons P c s u e (more (d ∷ v) t u' h m rest) =
    let whole : c ∷ s ≡ d ∷ (v ++ t) = sym e ∙ h in
    (v, t, ground arith, subst (λ k. P (k ∷ v)) (ground arith) m, rest)

derive_complete : (c : ℕ) (re : Regex) (s : Text) → Matches re (c ∷ s) → Matches (derive c re) s
unfolding derive Matches
derive_complete c nothing s m = m
derive_complete c empty s m = cc
derive_complete c (class p) s (d, e, h) =
    let low : p c ≡ true = ground arith in rw low (ground arith)
derive_complete c (seq a b) s ([], v, e, ma, mb) =
    rw (nullable_complete a ma) (inr (derive_complete c b s (subst (Matches b) (sym e) mb)))
derive_complete c (seq a b) s (d ∷ u, v, e, ma, mb) =
    let split : s ≡ u ++ v = ground arith in
    let here : Matches (derive c a) u =
      derive_complete c a u (subst (λ k. Matches a (k ∷ u)) (ground arith) ma) in
    elim (Bool-cases (nullable a)) [
      | inl n ↦ rw n (inl (u, v, split, here, mb))
      | inr n ↦ rw n (u, v, split, here, mb)
    ]
derive_complete c (alt a b) s (inl m) = inl (derive_complete c a s m)
derive_complete c (alt a b) s (inr m) = inr (derive_complete c b s m)
derive_complete c (star a) s m =
    let (v, w, e, ma, ms) = Repeats-cons (Matches a) c s (c ∷ s) refl m in
    (v, w, e, derive_complete c a v ma, ms)

-- A text with a beginning that matches.
abbrev pub HasPrefix : Regex → Text → Type 0
HasPrefix re s = (m : Text) × (after : Text) × (s ≡ m ++ after) × Matches re m

matches_prefix_sound : (re : Regex) (s : Text) → matches_prefix re s ≡ true → HasPrefix re s
unfolding matches_prefix
matches_prefix_sound re [] h = ([], [], refl, nullable_sound re h)
matches_prefix_sound re (c ∷ s) h = elim (Bool-cases (nullable re)) [
  | inl e ↦ ([], c ∷ s, refl, nullable_sound re e)
  | inr e ↦
      let (m, after, split, found) = matches_prefix_sound (derive c re) s (rw e at h) in
      (c ∷ m, after, ap (λ t. c ∷ t) split, derive_sound c re m found)
]

matches_prefix-nullable : (re : Regex) (s : Text) → nullable re ≡ true → matches_prefix re s ≡ true
unfolding matches_prefix
matches_prefix-nullable re [] h = h
matches_prefix-nullable re (c ∷ s) h = rw h refl

matches_prefix_complete :
    (m after : Text) (re : Regex) → Matches re m → matches_prefix re (m ++ after) ≡ true
unfolding matches_prefix
matches_prefix_complete [] after re found =
    matches_prefix-nullable re after (nullable_complete re found)
matches_prefix_complete (c ∷ m) after re found =
    ground (arith, matches_prefix_complete m after (derive c re) (derive_complete c re m found))

-- A text with a part that matches.
abbrev pub Contains : Regex → Text → Type 0
Contains re s =
    (before : Text) × (m : Text) × (after : Text) × (s ≡ before ++ (m ++ after)) × Matches re m

match_string_sound : (re : Regex) (s : Text) → match_string re s ≡ true → Contains re s
unfolding match_string
match_string_sound re [] h =
    let (m, after, split, found) = matches_prefix_sound re [] h in ([], m, after, split, found)
match_string_sound re (c ∷ s) h = elim (Bool-cases (matches_prefix re (c ∷ s))) [
  | inl e ↦
      let (m, after, split, found) = matches_prefix_sound re (c ∷ s) e in
      ([], m, after, split, found)
  | inr e ↦
      let (before, m, after, split, found) = match_string_sound re s (rw e at h) in
      (c ∷ before, m, after, ap (λ t. c ∷ t) split, found)
]

match_string-prefix :
    (re : Regex) (s : Text) → matches_prefix re s ≡ true → match_string re s ≡ true
unfolding match_string
match_string-prefix re [] h = h
match_string-prefix re (c ∷ s) h = rw h refl

match_string_complete :
    (before m after : Text) (re : Regex)
    → Matches re m
    → match_string re (before ++ (m ++ after)) ≡ true
unfolding match_string
match_string_complete [] m after re found =
    match_string-prefix re (m ++ after) (matches_prefix_complete m after re found)
match_string_complete (c ∷ before) m after re found =
    ground (arith, match_string_complete before m after re found)

-- MatchString holds exactly of the texts with a part that matches.
pub match_string_iff : (re : Regex) (s : Text) → (match_string re s ≡ true) ↔ Contains re s
match_string_iff re s = (
  match_string_sound re s,
  λ (before, m, after, split, found).
      ap (match_string re) split ∙ match_string_complete before m after re found,
)
