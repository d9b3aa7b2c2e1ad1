-- ===== src/Text/Paths/Climb.antt =====
-- path.Join on a rooted base and a path that begins with "..".
use mathlib.Core.List.{reverse, reverse-reverse}
use bke_console_service.Prelude.{
  ℕ, zero, suc, ◌≤◌, ◌≡◌, ◌≢◌, refl, ap, ◌∙◌, true, false, List, [], ◌∷◌, ◌++◌, arith, append-nil,
  All, length,
}
use bke_console_service.Text.{Text, split, join}
use bke_console_service.Text.Equality.{text_eq_iff}
use bke_console_service.Text.Split.{Lacks, split-join}
use bke_console_service.Text.Paths.{dot_dot, is_void, resolve, walk, path_join}
use bke_console_service.Text.Paths.Under.{walk-append, walk_plain, path_join_rooted, kept}

-- No part is "..".
abbrev pub HasNoClimb : List Text → Type 0
HasNoClimb parts = All (λ p. p ≢ dot_dot) parts

resolve-HasNoClimb :
    (stack : List Text) (part : Text) → HasNoClimb stack → HasNoClimb (resolve true stack part)
unfolding resolve
resolve-HasNoClimb [] part h = ground (arith, text_eq_iff part dot_dot)
resolve-HasNoClimb (top ∷ stack) part (n, h) =
    ground (arith, text_eq_iff part dot_dot, text_eq_iff top dot_dot)

-- Resolving a rooted path leaves no "..".
pub walk-HasNoClimb :
    (stack parts : List Text) → HasNoClimb stack → HasNoClimb (walk true stack parts)
unfolding walk
walk-HasNoClimb stack [] h = h
walk-HasNoClimb stack (p ∷ ps) h =
    walk-HasNoClimb (resolve true stack p) ps (resolve-HasNoClimb stack p h)

-- n times ".."
unfoldable pub climbs : ℕ → List Text
climbs zero = []
climbs (suc n) = dot_dot ∷ climbs n

walk-climbs :
    (n : ℕ) (stack : List Text)
    → HasNoClimb stack
    → length stack ≤ n
    → walk true stack (climbs n) ≡ []
unfolding walk climbs resolve
walk-climbs zero [] h l = refl
walk-climbs zero (top ∷ stack) h l = absurd (omega arith)
walk-climbs (suc n) [] h l = walk-climbs n [] tt (omega arith)
walk-climbs (suc n) (top ∷ stack) (t, h) l =
    ground (arith, text_eq_iff top dot_dot, walk-climbs n stack h)

-- A part that names an entry of a directory.
abbrev pub IsEntry : Text → Type 0
IsEntry p = (p ≢ dot_dot) × (is_void p ≡ false) × Lacks b'/' p

IsEntry-plain : (ps : List Text) → All IsEntry ps → HasNoClimb ps
IsEntry-plain [] h = tt
IsEntry-plain (p ∷ ps) ((n, _, _), h) = (n, IsEntry-plain ps h)

kept-entries : (ps : List Text) → All IsEntry ps → kept ps ≡ ps
unfolding kept
kept-entries [] h = refl
kept-entries (p ∷ ps) ((_, full, _), h) = rw full (ap (λ r. p ∷ r) (kept-entries ps h))

climbs-Lacks : (n : ℕ) (ps : List Text) → All IsEntry ps → All (Lacks b'/') (climbs n ++ ps)
unfolding climbs
climbs-Lacks zero [] h = tt
climbs-Lacks zero (p ∷ ps) ((_, _, l), h) = (l, climbs-Lacks zero ps h)
climbs-Lacks (suc n) ps h = ((omega arith, (omega arith, tt)), climbs-Lacks n ps h)

-- The request path "/../../…/target" with n times "..".
abbrev pub escape_path : ℕ → List Text → Text
escape_path n target = join b'/' ([] ∷ (climbs n ++ target))

walk_escape :
    (stack : List Text) (n : ℕ) (target : List Text)
    → HasNoClimb stack
    → length stack ≤ n
    → All IsEntry target
    → walk true stack ([] ∷ (climbs n ++ target)) ≡ reverse target
unfolding walk resolve
walk_escape stack n target c l h =
    walk-append true stack (climbs n) target
    ∙ ap (λ st. walk true st target) (walk-climbs n stack c l)
    ∙ walk_plain true [] target (IsEntry-plain target h)
    ∙ append-nil (reverse (kept target))
    ∙ ap reverse (kept-entries target h)

-- Joined to a rooted base of at most n parts, the path with n times ".." before a target resolves
-- to the target alone: nothing of the base is left.
pub path_join_escape :
    (base : Text) (n : ℕ) (target : List Text)
    → length (walk true [] (split b'/' (b'/' ∷ base))) ≤ n
    → All IsEntry target
    → path_join ((b'/' ∷ base) ∷ escape_path n target ∷ []) ≡ b'/' ∷ join b'/' target
path_join_escape base n target l h =
    let stack = walk true [] (split b'/' (b'/' ∷ base)) in
    path_join_rooted base (escape_path n target)
    ∙ ap (λ st. b'/' ∷ join b'/' (reverse st))
        (ap (walk true stack)
            (split-join b'/' [] (climbs n ++ target) (tt, climbs-Lacks n target h))
          ∙ walk_escape stack n target (walk-HasNoClimb [] (split b'/' (b'/' ∷ base)) tt) l h)
    ∙ ap (λ r. b'/' ∷ join b'/' r) (reverse-reverse target)
