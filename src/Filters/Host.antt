-- ===== src/Filters/Host.antt =====
-- pkg/server/filters/proxycomponentrequest.go: convertToServiceProxyPath, with its regular
-- expression written out as a parser. No class of the expression holds a byte that may follow it,
-- so that the greedy match is the only one.
pub mod Print
use bke_console_service.Prelude.{
  ℕ, Bool, true, false, ◌&&◌, ◌||◌, List, [], ◌∷◌, ◌++◌, Option, none, some, leb, ◌==◌,
  if◌then◌else◌, drop,
}
use bke_console_service.Constants.{service_proxy_url}
use bke_console_service.Text.{Text, codes, text_eq, has_prefix, trim_prefix, replace_first}

-- The four groups of the expression.
pub record HostParts : Type 0 where
  pub protocol : Text
  pub svc : Text
  pub ns : Text
  pub port : Text

-- \d
unfoldable pub is_digit : ℕ → Bool
is_digit c = leb b'0' c && leb c b'9'

-- [a-zA-Z0-9-]
unfoldable pub is_label_byte : ℕ → Bool
unfolding is_digit
is_label_byte c = leb b'a' c && leb c b'z' || leb b'A' c && leb c b'Z' || is_digit c || c == b'-'

-- The longest prefix of label bytes, and what follows it.
unfoldable pub label : Text → Text × Text
unfolding is_label_byte
label [] = ([], [])
label (c ∷ s) =
    let (bytes, rest) = label s in if is_label_byte c then (c ∷ bytes, rest) else ([], c ∷ s)

unfoldable pub all_digits : Text → Bool
unfolding is_digit
all_digits [] = true
all_digits (c ∷ s) = let rest = all_digits s in is_digit c && rest

-- (?::(\d+))?$
unfoldable pub parse_port : Text → Option Text
unfolding all_digits
parse_port [] = some []
parse_port (c ∷ []) = none
parse_port (c ∷ d ∷ s) = if c == b':' && all_digits (d ∷ s) then some (d ∷ s) else none

unfoldable pub with_port : Text → Text → Text → Option Text → Option HostParts
with_port protocol svc ns none = none
with_port protocol svc ns (some port) =
    some (record { protocol = protocol; svc = svc; ns = ns; port = port })

abbrev pub cluster_suffix : Text
cluster_suffix = codes ".svc.cluster.local"

-- The second label and what follows it.
unfoldable pub namespace_part : Text → Text → Text × Text → Option HostParts
unfolding with_port parse_port trim_prefix
namespace_part protocol svc ([], rest) = none
namespace_part protocol svc (c ∷ ns, rest) =
    with_port protocol svc (c ∷ ns) (parse_port (trim_prefix rest cluster_suffix))

-- The first label and what follows it.
unfoldable pub service_part : Text → Text × Text → Option HostParts
unfolding namespace_part label
service_part protocol ([], rest) = none
service_part protocol (c ∷ svc, []) = none
service_part protocol (c ∷ svc, d ∷ rest) =
    if d == b'.' then namespace_part protocol (c ∷ svc) (label rest) else none

-- re.FindStringSubmatch(host)
unfoldable pub match_host : Text → Option HostParts
unfolding service_part has_prefix
match_host host =
    if has_prefix host (codes "https://")
    then service_part (codes "https") (label (drop 8 host))
    else if has_prefix host (codes "http://")
    then service_part (codes "http") (label (drop 7 host))
    else none

abbrev pub port_or : Text → Text → Text
port_or default [] = default
port_or default (c ∷ port) = c ∷ port

unfoldable pub service_path : Option HostParts → Text
unfolding text_eq replace_first
service_path none = []
service_path (some h) =
    let proxy_path = replace_first (codes "{namespace}") h.ns service_proxy_url in
    let secure =
      replace_first (codes "{port}") (port_or (codes "443") h.port)
        (replace_first (codes "{service}") (h.protocol ++ codes ":" ++ h.svc) proxy_path) in
    let plain =
      replace_first (codes "{port}") (port_or (codes "80") h.port)
        (replace_first (codes "{service}") h.svc proxy_path) in
    if text_eq h.protocol (codes "https") then secure else plain

-- convertToServiceProxyPath
unfoldable pub convert_to_service_proxy_path : Text → Text
unfolding match_host service_path
convert_to_service_proxy_path host = service_path (match_host host)
