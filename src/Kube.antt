-- ===== src/Kube.antt =====
-- pkg/utils/k8sutil/k8sutil.go: the check of names, and the helpers that only other calls use.
-- GetSecret, ListSecret, CreateSecret, DeleteSecret and GetConfigMap are in World/Steps.
pub mod Names
use bke_console_service.Prelude.{
  ℕ, Bool, true, false, ◌&&◌, ◌||◌, [], ◌∷◌, ◌++◌, leb, ◌==◌, if◌then◌else◌,
}
use bke_console_service.Text.{Text, codes}
use bke_console_service.Text.Regex.{Regex, class, seq, star, optional, match_string}
use bke_console_service.World.{Outcome, ok, err, panic}

-- [a-z0-9]
unfoldable pub is_lower_or_digit : ℕ → Bool
is_lower_or_digit c = leb b'a' c && leb c b'z' || leb b'0' c && leb c b'9'

-- [-a-z0-9]
unfoldable pub is_name_byte : ℕ → Bool
unfolding is_lower_or_digit
is_name_byte c = c == b'-' || is_lower_or_digit c

-- [a-z0-9]([-a-z0-9]*[a-z0-9])?
abbrev pub name_label : Regex
name_label =
    seq (class is_lower_or_digit)
      (optional (seq (star (class is_name_byte)) (class is_lower_or_digit)))

-- MetadataNameRegExPattern: a label, then any number of labels behind a dot
abbrev pub metadata_name_pattern : Regex
metadata_name_pattern = seq name_label (star (seq (class (λ c. c == b'.')) name_label))

-- Error of RegexError
unfoldable pub regex_error : Text → Text
regex_error message = codes "RegexError: " ++ message

-- ResourceMetadataRegexValid; the pattern compiles
unfoldable pub resource_metadata_regex_valid : Text → Outcome Bool
unfolding match_string is_name_byte regex_error
resource_metadata_regex_valid metadata_name =
    if match_string metadata_name_pattern metadata_name
    then ok true
    else err (regex_error (codes "Input does not match metadata.name regex pattern"))

-- What the dynamic client's Get returns, with its test errors.IsNotFound.
pub data Lookup : Type 0 where
  found not_found : Lookup
  failed : Text → Lookup

-- CrExists
unfoldable pub cr_exists : Lookup → Outcome Bool
cr_exists found = ok true
cr_exists not_found = ok false
cr_exists (failed e) = err e

module _ {C R : Type 0} (parse : Text → Outcome C) (client_config : C → Outcome R) where
  unfoldable pub config_of_client : Outcome C → Outcome R
  config_of_client (ok c) = client_config c
  config_of_client (err e) = err e
  config_of_client panic = panic

  -- LoadKubeConfigFromBytes
  unfoldable pub load_kube_config_from_bytes : Text → Outcome R
  unfolding config_of_client
  load_kube_config_from_bytes kubeconfig = config_of_client (parse kubeconfig)
