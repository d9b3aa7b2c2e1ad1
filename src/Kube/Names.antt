-- ===== src/Kube/Names.antt =====
-- Which names ResourceMetadataRegexValid accepts. MetadataNameRegExPattern has no anchors.
use bke_console_service.Prelude.{
  ℕ, ◌≡◌, if◌then◌else◌, ◌↔◌, inl, inr, refl, Bool, true, false, ◌||◌, [], ◌∷◌, Bool-cases,
}
use bke_console_service.Text.{Text, codes}
use bke_console_service.Text.Regex.{
  Regex, nothing, empty, seq, nullable, matches_prefix, match_string,
}
use bke_console_service.Text.Regex.Language.{Contains, match_string_iff}
use bke_console_service.World.{ok, err}
use bke_console_service.Kube.{
  is_lower_or_digit, metadata_name_pattern, regex_error, resource_metadata_regex_valid,
}

-- Some byte of the text is a lowercase letter or a digit.
abbrev pub has_lower_or_digit : Text → Bool
has_lower_or_digit [] = false
has_lower_or_digit (c ∷ s) = is_lower_or_digit c || has_lower_or_digit s

-- What is left of a first byte that no label begins with matches nothing.
matches_prefix-nothing : (a b : Regex) (s : Text) → matches_prefix (seq (seq nothing a) b) s ≡ false
unfolding matches_prefix
matches_prefix-nothing a b [] = refl
matches_prefix-nothing a b (c ∷ s) = matches_prefix-nothing a b s

matches_prefix-empty :
    (a b : Regex) (s : Text)
    → nullable a ≡ true
    → nullable b ≡ true
    → matches_prefix (seq (seq empty a) b) s ≡ true
unfolding matches_prefix
matches_prefix-empty a b [] h k = rw h k
matches_prefix-empty a b (c ∷ s) h k = rw h (rw k refl)

-- The pattern matches at a place exactly if a lowercase letter or a digit stands there.
matches_prefix-pattern :
    (c : ℕ) (s : Text) → matches_prefix metadata_name_pattern (c ∷ s) ≡ is_lower_or_digit c
unfolding matches_prefix
matches_prefix-pattern c s = elim (Bool-cases (is_lower_or_digit c)) [
  | inl low ↦ rw low (matches_prefix-empty _ _ s refl refl)
  | inr other ↦ rw other (matches_prefix-nothing _ _ s)
]

match_string-pattern : (s : Text) → match_string metadata_name_pattern s ≡ has_lower_or_digit s
unfolding match_string
match_string-pattern [] = refl
match_string-pattern (c ∷ s) = rw (matches_prefix-pattern c s) (rw (match_string-pattern s) refl)

valid_iff-match :
    (name : Text)
    → (resource_metadata_regex_valid name ≡ ok true)
      ↔ (match_string metadata_name_pattern name ≡ true)
unfolding resource_metadata_regex_valid
valid_iff-match name = elim (Bool-cases (match_string metadata_name_pattern name)) [
  | inl e ↦ rw e ((λ _. refl), (λ _. refl))
  | inr e ↦ rw e ((λ h. cc h), (λ h. cc h))
]

-- A name is accepted exactly if some part of it matches the pattern, which is the case exactly if it
-- has a lowercase letter or a digit anywhere, whatever else stands in it; any other name is refused
-- with an error.
pub resource_metadata_regex_valid_lem :
    (name : Text)
    → ((resource_metadata_regex_valid name ≡ ok true) ↔ Contains metadata_name_pattern name)
      × (resource_metadata_regex_valid name ≡ (
          if has_lower_or_digit name
          then ok true
          else err (codes "RegexError: Input does not match metadata.name regex pattern")))
unfolding resource_metadata_regex_valid regex_error
resource_metadata_regex_valid_lem name =
    let (sound, complete) = valid_iff-match name in
    let (finds, found) = match_string_iff metadata_name_pattern name in
    ((λ h. finds (sound h), λ h. complete (found h)), rw (match_string-pattern name) refl)
