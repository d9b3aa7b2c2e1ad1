-- ===== src/Text/Regex.antt =====
-- Regular expressions of package regexp. MatchString asks for a match anywhere in a text; the matcher
-- works with derivatives.
pub mod Language
use bke_console_service.Prelude.{ℕ, Bool, true, false, ◌&&◌, ◌||◌, [], ◌∷◌, if◌then◌else◌}
use bke_console_service.Text.{Text}

-- Nothing, the empty text, a class of bytes, a sequence, an alternative, and a repetition.
pub data Regex : Type 0 where
  nothing empty : Regex
  class : (ℕ → Bool) → Regex
  seq : Regex → Regex → Regex
  alt : Regex → Regex → Regex
  star : Regex → Regex

-- (re)?
abbrev pub optional : Regex → Regex
optional re = alt empty re

-- The empty text matches.
unfoldable pub nullable : Regex → Bool
nullable nothing = false
nullable empty = true
nullable (class p) = false
nullable (seq a b) = nullable a && nullable b
nullable (alt a b) = nullable a || nullable b
nullable (star a) = true

-- What is left to match behind one byte.
unfoldable pub derive : ℕ → Regex → Regex
unfolding nullable
derive c nothing = nothing
derive c empty = nothing
derive c (class p) = if p c then empty else nothing
derive c (seq a b) =
    let da = derive c a in let db = derive c b in if nullable a then alt (seq da b) db else seq da b
derive c (alt a b) = alt (derive c a) (derive c b)
derive c (star a) = seq (derive c a) (star a)

-- Some beginning of the text matches.
unfoldable pub matches_prefix : Regex → Text → Bool
unfolding nullable derive
matches_prefix re [] = nullable re
matches_prefix re (c ∷ s) = let later = matches_prefix (derive c re) s in nullable re || later

-- re.MatchString(s), for an expression without anchors
unfoldable pub match_string : Regex → Text → Bool
unfolding matches_prefix
match_string re [] = matches_prefix re []
match_string re (c ∷ s) = let later = match_string re s in matches_prefix re (c ∷ s) || later
