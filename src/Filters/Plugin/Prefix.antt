-- ===== src/Filters/Plugin/Prefix.antt =====
-- The path prefix of a plugin's service.
use bke_console_service.Prelude.{
  ◌≡◌, ◌↔◌, ◌⊎◌, refl, sym, ap, ◌∙◌, arith, Bool, true, false, [], ◌∷◌, ◌++◌, some, if◌then◌else◌,
}
use bke_console_service.Constants.{service_proxy_url}
use bke_console_service.Text.{Text, codes, text_eq, replace_first}
use bke_console_service.Prelude.Int.{ℤ, pos, negsuc}
use bke_console_service.Text.Equality.{text_eq_iff}
use bke_console_service.Text.Split.{Lacks}
use bke_console_service.Text.Decimal.{format_int}
use bke_console_service.Text.Paths.{path_join}
use bke_console_service.World.{ok}
use bke_console_service.Filters.Host.Print.{IsLabel, service_below, fill, label-Lacks, https-Lacks}
use bke_console_service.Filters.Plugin.{
  ConsolePlugin, ConsolePluginBackend, ConsolePluginService, is_https_port, is_https_service,
  service_prefix, prefix_of_service, prefix_of_backend, get_console_plugin_proxy_path_prefix,
}

-- The name of a service with the scheme that goes before it.
abbrev pub named : Bool → Text → Text
named true name = codes "https:" ++ name
named false name = name

named-Lacks : (secure : Bool) (name : Text) → IsLabel name → Lacks b'{' (named secure name)
named-Lacks true name n = https-Lacks name n
named-Lacks false name n = label-Lacks name n.bytes

if-named :
    (secure : Bool) (name : Text)
    → (if secure then (codes "https" ++ codes ":") ++ name else name) ≡ named secure name
if-named true name = refl
if-named false name = refl

service_prefix-below :
    (s : ConsolePluginService)
    → IsLabel s.name
    → IsLabel s.namespace
    → service_prefix s
      ≡ path_join (
          service_below s.namespace (named (is_https_service s) s.name) (format_int s.port)
          ∷ s.base_path
          ∷ [])
unfolding service_prefix
service_prefix-below s n ns =
    ap
      (λ name. path_join (
        replace_first (codes "{port}") (format_int s.port) (
          replace_first (codes "{service}") name
            (replace_first (codes "{namespace}") s.namespace service_proxy_url))
        ∷ s.base_path
        ∷ []))
      (if-named (is_https_service s) s.name)
    ∙ ap (λ p. path_join (p ∷ s.base_path ∷ []))
        (fill s.namespace (named (is_https_service s) s.name) (format_int s.port)
          (label-Lacks s.namespace ns.bytes) (named-Lacks (is_https_service s) s.name n))

-- When a service is spoken to over https.
abbrev pub UsesHttps : ConsolePluginService → Type 0
UsesHttps s = (s.port ≡ pos 443) ⊎ (s.name ≡ codes "https") ⊎ (s.name ≡ codes "proxy")

is_https_port_iff : (port : ℤ) → (is_https_port port ≡ true) ↔ (port ≡ pos 443)
unfolding is_https_port
is_https_port_iff (pos n) = (λ e. ap pos (ground arith), λ e. ap is_https_port e)
is_https_port_iff (negsuc n) = (λ e. cc e, λ e. cc e)

is_https_service_iff : (s : ConsolePluginService) → (is_https_service s ≡ true) ↔ UsesHttps s
unfolding is_https_service
is_https_service_iff s = ground (
  arith,
  is_https_port_iff s.port,
  text_eq_iff s.name (codes "https"),
  text_eq_iff s.name (codes "proxy"),
)

-- Two Boolean tests of one thing are the same.
same_test : {P : Type 0} (a b : Bool) → (a ≡ true) ↔ P → (b ≡ true) ↔ P → a ≡ b
same_test true true h k = refl
same_test false false h k = refl
same_test true false h k = sym (k.1 (h.0 refl))
same_test false true h k = h.1 (k.0 refl)

-- The prefix of a plugin with a service, whose name and namespace are of letters, digits and dashes,
-- is the path of that service below the API server, joined with the service's base path; "https:"
-- goes before the name exactly where the port is 443 or the name is "https" or "proxy".
pub get_console_plugin_proxy_path_prefix-below :
    (cp : ConsolePlugin) (b : ConsolePluginBackend) (s : ConsolePluginService) (secure : Bool)
    → cp.spec.backend ≡ some b
    → b.kind ≡ codes "Service"
    → b.service ≡ some s
    → IsLabel s.name
    → IsLabel s.namespace
    → (secure ≡ true) ↔ UsesHttps s
    → get_console_plugin_proxy_path_prefix (some cp)
      ≡ ok (
          path_join (
            service_below s.namespace (named secure s.name) (format_int s.port) ∷ s.base_path ∷ []))
unfolding get_console_plugin_proxy_path_prefix prefix_of_backend prefix_of_service text_eq
get_console_plugin_proxy_path_prefix-below cp b s secure backend kind service n ns rule =
    rw backend (rw kind (rw service (ap ok (service_prefix-below s n ns))))
    ∙ ap
        (λ https. ok (
          path_join (
            service_below s.namespace (named https s.name) (format_int s.port) ∷ s.base_path ∷ [])))
        (same_test (is_https_service s) secure (is_https_service_iff s) rule)
