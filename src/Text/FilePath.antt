-- ===== src/Text/FilePath.antt =====
-- filepath.Base, filepath.Ext and strings.ToLower, on bytes.
use bke_console_service.Prelude.{
  ℕ, ◌+◌, Bool, false, not, ◌&&◌, ◌||◌, List, [], ◌∷◌, map, leb, ◌==◌, if◌then◌else◌,
}
use bke_console_service.Text.{Text, codes, split, trim_right_slash}

unfoldable pub last_part : List Text → Text
last_part [] = []
last_part (part ∷ []) = part
last_part (part ∷ next ∷ parts) = last_part (next ∷ parts)

abbrev or_root : Text → Text
or_root [] = codes "/"
or_root (c ∷ s) = c ∷ s

-- filepath.Base
unfoldable pub base : Text → Text
unfolding last_part split trim_right_slash
base [] = codes "."
base (c ∷ s) = or_root (last_part (split b'/' (trim_right_slash (c ∷ s))))

unfoldable pub has_slash : Text → Bool
has_slash [] = false
has_slash (c ∷ s) = let later = has_slash s in c == b'/' || later

unfoldable pub ext_at : ℕ → Text → Text → Text
unfolding has_slash
ext_at c s [] = if c == b'.' && not (has_slash s) then c ∷ s else []
ext_at c s (d ∷ later) = d ∷ later

-- filepath.Ext: from the last dot of the last part on
unfoldable pub ext : Text → Text
unfolding ext_at
ext [] = []
ext (c ∷ s) = ext_at c s (ext s)

-- strings.ToLower on an ASCII text
unfoldable pub to_lower : Text → Text
to_lower s = map (λ c. if leb b'A' c && leb c b'Z' then c + 32 else c) s
