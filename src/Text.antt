-- ===== src/Text.antt =====
-- Go strings as lists of bytes, with the functions of `strings` that the service calls.
pub mod Equality
pub mod Split
pub mod Decimal
pub mod Paths
pub mod Suffix
pub mod Regex
pub mod FilePath
use Prim.Native.Char.{code}
use Prim.Native.String
use bke_console_service.Prelude.{
  ℕ, String, Bool, true, false, ◌&&◌, List, [], ◌∷◌, ◌++◌, ◌==◌, if◌then◌else◌, length, drop,
}

abbrev pub Text : Type 0
Text = List ℕ

-- The bytes of an ASCII literal.
abbrev pub codes : String → Text
codes String.[] = []
codes (String.◌∷◌ c s) = code c ∷ codes s

-- s == t
unfoldable pub text_eq : Text → Text → Bool
text_eq [] [] = true
text_eq [] (d ∷ t) = false
text_eq (c ∷ s) [] = false
text_eq (c ∷ s) (d ∷ t) = c == d && text_eq s t

-- strings.HasPrefix(s, prefix)
unfoldable pub has_prefix : Text → Text → Bool
has_prefix s [] = true
has_prefix [] (p ∷ ps) = false
has_prefix (c ∷ s) (p ∷ ps) = c == p && has_prefix s ps

-- strings.TrimPrefix(s, prefix)
unfoldable pub trim_prefix : Text → Text → Text
unfolding has_prefix
trim_prefix s p = if has_prefix s p then drop (length p) s else s

-- strings.TrimLeft(s, "/")
unfoldable pub trim_left_slash : Text → Text
trim_left_slash [] = []
trim_left_slash (c ∷ s) = let rest = trim_left_slash s in if c == b'/' then rest else c ∷ s

-- What is kept of a slash or another byte before what is kept of the rest.
unfoldable pub keep_right : ℕ → Text → Text
keep_right c [] = if c == b'/' then [] else c ∷ []
keep_right c (d ∷ t) = c ∷ d ∷ t

-- strings.TrimRight(s, "/")
unfoldable pub trim_right_slash : Text → Text
unfolding keep_right
trim_right_slash [] = []
trim_right_slash (c ∷ s) = keep_right c (trim_right_slash s)

-- strings.Trim(s, "/")
unfoldable pub trim_slash : Text → Text
unfolding trim_left_slash trim_right_slash
trim_slash s = trim_right_slash (trim_left_slash s)

-- The byte before the first part.
unfoldable pub cons_head : ℕ → List Text → List Text
cons_head c [] = (c ∷ []) ∷ []
cons_head c (part ∷ parts) = (c ∷ part) ∷ parts

-- strings.Split(s, sep) for a separator of one byte
unfoldable pub split : ℕ → Text → List Text
unfolding cons_head
split sep [] = [] ∷ []
split sep (c ∷ s) = let parts = split sep s in if c == sep then [] ∷ parts else cons_head c parts

-- strings.Join(parts, sep) for a separator of one byte
unfoldable pub join : ℕ → List Text → Text
join sep [] = []
join sep (part ∷ []) = part
join sep (part ∷ next ∷ parts) = part ++ sep ∷ join sep (next ∷ parts)

-- strings.Replace(s, old, new, 1)
unfoldable pub replace_first : Text → Text → Text → Text
unfolding has_prefix
replace_first old new [] = if has_prefix [] old then new else []
replace_first old new (c ∷ s) =
    let later = c ∷ replace_first old new s in
    if has_prefix (c ∷ s) old then new ++ drop (length old) (c ∷ s) else later
