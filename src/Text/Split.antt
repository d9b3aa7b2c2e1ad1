-- ===== src/Text/Split.antt =====
-- strings.Split against strings.Join.
use bke_console_service.Prelude.{
  ℕ, ◌∙◌, ◌≡◌, ◌≢◌, refl, ap, Bool-cases, List, [], ◌∷◌, ◌++◌, arith, ◌==◌, inl, inr, All,
}
use bke_console_service.Text.{Text, split, join, cons_head}

-- No byte of the text is the separator.
abbrev pub Lacks : ℕ → Text → Type 0
Lacks sep s = All (λ c. c ≢ sep) s

join-cons_head :
    (sep c : ℕ) (parts : List Text) → parts ≢ [] → join sep (cons_head c parts) ≡ c ∷ join sep parts
unfolding join cons_head
join-cons_head sep c [] h = absurd (h refl)
join-cons_head sep c (p ∷ []) h = refl
join-cons_head sep c (p ∷ q ∷ ps) h = refl

cons_head-ne-nil : (c : ℕ) (parts : List Text) → cons_head c parts ≢ []
unfolding cons_head
cons_head-ne-nil c [] = λ e. cc e
cons_head-ne-nil c (p ∷ ps) = λ e. cc e

pub split-ne-nil : (sep : ℕ) (s : Text) → split sep s ≢ []
unfolding split
split-ne-nil sep [] = λ e. cc e
split-ne-nil sep (c ∷ s) = ground (arith, cons_head-ne-nil c (split sep s))

join-nil-cons :
    (sep : ℕ) (parts : List Text) → parts ≢ [] → join sep ([] ∷ parts) ≡ sep ∷ join sep parts
unfolding join
join-nil-cons sep [] h = absurd (h refl)
join-nil-cons sep (p ∷ ps) h = refl

-- Joining the parts of a text gives the text back.
pub join-split : (sep : ℕ) (s : Text) → join sep (split sep s) ≡ s
unfolding split
join-split sep [] = unfold join in refl
join-split sep (c ∷ s) = ground (
  arith,
  join-split sep s,
  split-ne-nil sep s,
  join-cons_head sep c (split sep s),
  join-nil-cons sep (split sep s),
)

-- No part of a split text holds the separator.
Lacks-cons_head :
    (sep c : ℕ) (parts : List Text)
    → c ≢ sep
    → All (Lacks sep) parts
    → All (Lacks sep) (cons_head c parts)
unfolding cons_head
Lacks-cons_head sep c [] n h = ((n, tt), tt)
Lacks-cons_head sep c (p ∷ ps) n (hp, h) = ((n, hp), h)

pub split-Lacks : (sep : ℕ) (s : Text) → All (Lacks sep) (split sep s)
unfolding split
split-Lacks sep [] = (tt, tt)
split-Lacks sep (c ∷ s) = elim (Bool-cases (c == sep)) [
  | inl same ↦ rw same (tt, split-Lacks sep s)
  | inr other ↦ rw other (Lacks-cons_head sep c _ (ground arith) (split-Lacks sep s))
]

split-append : (sep : ℕ) (p s : Text) → Lacks sep p → split sep (p ++ sep ∷ s) ≡ p ∷ split sep s
unfolding split cons_head
split-append sep [] s h = ground arith
split-append sep (c ∷ p) s (n, h) = ground (arith, split-append sep p s h)

split_alone : (sep : ℕ) (p : Text) → Lacks sep p → split sep p ≡ p ∷ []
unfolding split cons_head
split_alone sep [] h = refl
split_alone sep (c ∷ p) (n, h) = ground (arith, split_alone sep p h)

-- Splitting the joined parts gives the parts back.
pub split-join :
    (sep : ℕ) (p : Text) (ps : List Text)
    → All (Lacks sep) (p ∷ ps)
    → split sep (join sep (p ∷ ps)) ≡ p ∷ ps
unfolding join
split-join sep p [] (h, _) = split_alone sep p h
split-join sep p (q ∷ ps) (h, hs) =
    split-append sep p _ h ∙ ap (λ r. p ∷ r) (split-join sep q ps hs)
