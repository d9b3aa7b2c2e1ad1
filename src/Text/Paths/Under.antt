-- ===== src/Text/Paths/Under.antt =====
-- path.Join on a rooted base and a path without "..".
use mathlib.Core.List.{reverse, reverse-cons, reverse-append, reverse-reverse}
use bke_console_service.Prelude.{
  ℕ, ◌≡◌, ◌≢◌, refl, sym, ap, ◌∙◌, ◌≡⟨◌⟩◌, ◌∎, Bool, true, List, [], ◌∷◌, ◌++◌, arith, append_assoc,
  if◌then◌else◌, All, Bool-cases, inl, inr,
}
use bke_console_service.Text.{Text, split, join, cons_head}
use bke_console_service.Text.Equality.{text_eq_iff}
use bke_console_service.Text.Split.{split-ne-nil}
use bke_console_service.Text.Paths.{dot_dot, is_void, resolve, walk, path_join}

-- The parts that resolution keeps where no part is "..".
unfoldable pub kept : List Text → List Text
kept [] = []
kept (part ∷ parts) = let rest = kept parts in if is_void part then rest else part ∷ rest

cons_head-append :
    (c : ℕ) (ps qs : List Text) → ps ≢ [] → cons_head c (ps ++ qs) ≡ cons_head c ps ++ qs
unfolding cons_head
cons_head-append c [] qs h = absurd (h refl)
cons_head-append c (p ∷ ps) qs h = refl

pub split-append_sep :
    (sep : ℕ) (s t : Text) → split sep (s ++ sep ∷ t) ≡ split sep s ++ split sep t
unfolding split
split-append_sep sep [] t = ground arith
split-append_sep sep (c ∷ s) t = ground (
  arith,
  split-append_sep sep s t,
  split-ne-nil sep s,
  cons_head-append c (split sep s) (split sep t),
)

pub walk-append :
    (rooted : Bool) (stack ps qs : List Text)
    → walk rooted stack (ps ++ qs) ≡ walk rooted (walk rooted stack ps) qs
unfolding walk
walk-append rooted stack [] qs = refl
walk-append rooted stack (p ∷ ps) qs = walk-append rooted (resolve rooted stack p) ps qs

resolve_plain :
    (rooted : Bool) (stack : List Text) (part : Text)
    → part ≢ dot_dot
    → resolve rooted stack part ≡ (if is_void part then stack else part ∷ stack)
unfolding resolve
resolve_plain rooted stack part h = ground (arith, text_eq_iff part dot_dot)

pub walk_plain :
    (rooted : Bool) (stack parts : List Text)
    → All (λ p. p ≢ dot_dot) parts
    → walk rooted stack parts ≡ reverse (kept parts) ++ stack
unfolding walk kept
walk_plain rooted stack [] h = refl
walk_plain rooted stack (p ∷ ps) (n, h) = elim (Bool-cases (is_void p)) [
  | inl void ↦ rw (resolve_plain rooted stack p n) (rw (void) (walk_plain rooted stack ps h))
  | inr full ↦ rw (resolve_plain rooted stack p n) (
      rw (full) (
        walk_plain rooted (p ∷ stack) ps h
        ∙ sym (
            ap (λ r. r ++ stack) (reverse-cons p (kept ps))
            ∙ append_assoc (reverse (kept ps)) (p ∷ []) stack)))
]

-- The parts of a rooted path after resolution.
abbrev pub segments : Text → List Text
segments base = reverse (walk true [] (split b'/' base))

pub path_join_rooted :
    (base p : Text)
    → path_join ((b'/' ∷ base) ∷ p ∷ [])
      ≡ b'/'
        ∷ join b'/' (reverse (walk true (walk true [] (split b'/' (b'/' ∷ base))) (split b'/' p)))
unfolding path_join
path_join_rooted base p =
    ap (λ st. b'/' ∷ join b'/' (reverse st))
      (ap (walk true []) (split-append_sep b'/' base p)
        ∙ walk-append true [] (split b'/' base) (split b'/' p))

-- Joined to a rooted base, a path without a part ".." adds its parts to those of the base, the
-- empty ones and "." left out, and takes none away.
pub path_join_under :
    (base p : Text)
    → All (λ part. part ≢ dot_dot) (split b'/' p)
    → path_join ((b'/' ∷ base) ∷ p ∷ [])
      ≡ b'/' ∷ join b'/' (segments (b'/' ∷ base) ++ kept (split b'/' p))
path_join_under base p h =
    let stack = walk true [] (split b'/' (b'/' ∷ base)) in
    let more = kept (split b'/' p) in
    path_join ((b'/' ∷ base) ∷ p ∷ [])
    ≡⟨ path_join_rooted base p ⟩ b'/' ∷ join b'/' (reverse (walk true stack (split b'/' p)))
    ≡⟨ ap (λ st. b'/' ∷ join b'/' (reverse st)) (walk_plain true stack (split b'/' p) h) ⟩
      b'/' ∷ join b'/' (reverse (reverse more ++ stack))
    ≡⟨ ap (λ r. b'/' ∷ join b'/' r)
        (reverse-append (reverse more) stack
          ∙ ap (λ r. reverse stack ++ r) (reverse-reverse more)) ⟩
      b'/' ∷ join b'/' (reverse stack ++ more) ∎
