-- ===== src/Text/Suffix.antt =====
-- strings.HasSuffix and strings.TrimSuffix.
use bke_console_service.Prelude.{◌-◌, Bool, ◌||◌, [], ◌∷◌, if◌then◌else◌, length, take}
use bke_console_service.Text.{Text, text_eq}

-- strings.HasSuffix(s, suffix)
unfoldable pub has_suffix : Text → Text → Bool
unfolding text_eq
has_suffix [] suffix = text_eq [] suffix
has_suffix (c ∷ s) suffix = let later = has_suffix s suffix in text_eq (c ∷ s) suffix || later

-- strings.TrimSuffix(s, suffix)
unfoldable pub trim_suffix : Text → Text → Text
unfolding has_suffix
trim_suffix s suffix = if has_suffix s suffix then take (length s - length suffix) s else s
