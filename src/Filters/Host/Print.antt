-- ===== src/Filters/Host/Print.antt =====
-- The service path of a well-formed host.
use bke_console_service.Prelude.{
  ℕ, ◌≡◌, ◌≢◌, refl, ap, ◌∙◌, Bool, true, false, [], ◌∷◌, ◌++◌, some, arith, drop-append, All, ◌==◌,
}
use bke_console_service.Constants.{service_proxy_url}
use bke_console_service.Text.{Text, codes, text_eq, has_prefix, trim_prefix, replace_first}
use bke_console_service.Text.Equality.{has_prefix-append, trim_prefix-append}
use bke_console_service.Text.Split.{Lacks}
use bke_console_service.Filters.Host.{
  is_digit, is_label_byte, label, all_digits, parse_port, with_port, cluster_suffix, namespace_part,
  service_part, match_host, port_or, service_path, convert_to_service_proxy_path,
}

-- A non-empty text of letters, digits and dashes.
pub record IsLabel (s : Text) : Type 0 where
  pub first : ℕ
  pub others : Text
  pub whole : s ≡ first ∷ others
  pub bytes : All (λ c. is_label_byte c ≡ true) s

-- No port, or one of digits.
abbrev pub IsPort : Text → Type 0
IsPort port = all_digits port ≡ true

-- "http://" or "https://"
abbrev pub scheme : Bool → Text
scheme true = codes "https"
scheme false = codes "http"

abbrev pub suffix : Bool → Text
suffix true = cluster_suffix
suffix false = []

abbrev pub port_text : Text → Text
port_text [] = []
port_text (c ∷ port) = b':' ∷ c ∷ port

-- A host as the configuration writes it.
abbrev pub print_host : Bool → Bool → Text → Text → Text → Text
print_host secure long svc ns port =
    scheme secure ++ (codes "://" ++ (svc ++ (b'.' ∷ (ns ++ (suffix long ++ port_text port)))))

abbrev pub service_below : Text → Text → Text → Text
service_below ns svc port =
    codes "/api/v1/namespaces/"
    ++ (ns ++ (codes "/services/" ++ (svc ++ (b':' ∷ (port ++ codes "/proxy")))))

-- The path of a service below the API server.
abbrev pub print_path : Bool → Text → Text → Text → Text
print_path true svc ns port = service_below ns (codes "https:" ++ svc) (port_or (codes "443") port)
print_path false svc ns port = service_below ns svc (port_or (codes "80") port)

label-append :
    (s rest : Text)
    → All (λ c. is_label_byte c ≡ true) s
    → label rest ≡ ([], rest)
    → label (s ++ rest) ≡ (s, rest)
unfolding label
label-append [] rest h stop = stop
label-append (c ∷ s) rest (l, h) stop = rw (label-append s rest h stop) (rw l refl)

replace_first-skip :
    (old new s t : Text)
    → Lacks b'{' s
    → replace_first (b'{' ∷ old) new (s ++ t) ≡ s ++ replace_first (b'{' ∷ old) new t
unfolding replace_first has_prefix
replace_first-skip old new [] t h = refl
replace_first-skip old new (c ∷ s) t (n, h) =
    let other : (c == b'{') ≡ false = ground arith in
    rw other (ap (λ r. c ∷ r) (replace_first-skip old new s t h))

replace_first-here :
    (c : ℕ) (old new t : Text) → replace_first (c ∷ old) new (c ∷ old ++ t) ≡ new ++ t
unfolding replace_first
replace_first-here c old new t =
    rw (has_prefix-append (c ∷ old) t) (ap (λ r. new ++ r) (drop-append (c ∷ old) t))

label_byte-plain : (c : ℕ) → is_label_byte c ≡ true → c ≢ b'{'
unfolding is_label_byte is_digit
label_byte-plain c h = ground arith

pub label-Lacks : (s : Text) → All (λ c. is_label_byte c ≡ true) s → Lacks b'{' s
label-Lacks [] h = tt
label-Lacks (c ∷ s) (l, h) = (label_byte-plain c l, label-Lacks s h)

parse_port-print : (port : Text) → IsPort port → parse_port (port_text port) ≡ some port
unfolding parse_port
parse_port-print [] h = refl
parse_port-print (c ∷ port) h = rw h refl

trim_suffix :
    (long : Bool) (port : Text)
    → trim_prefix (suffix long ++ port_text port) cluster_suffix ≡ port_text port
trim_suffix true port = trim_prefix-append cluster_suffix (port_text port)
trim_suffix false [] = unfold trim_prefix has_prefix in refl
trim_suffix false (c ∷ port) = unfold trim_prefix has_prefix in refl

label-stop :
    (long : Bool) (port : Text)
    → label (suffix long ++ port_text port) ≡ ([], suffix long ++ port_text port)
unfolding label is_label_byte is_digit
label-stop true port = refl
label-stop false [] = refl
label-stop false (c ∷ port) = refl

label-dot : (s : Text) → label (b'.' ∷ s) ≡ ([], b'.' ∷ s)
unfolding label is_label_byte is_digit
label-dot s = refl

namespace-print :
    (protocol svc ns port : Text) (long : Bool)
    → IsLabel ns
    → IsPort port
    → namespace_part protocol svc (label (ns ++ (suffix long ++ port_text port)))
      ≡ some (record { protocol = protocol; svc = svc; ns = ns; port = port })
unfolding namespace_part with_port
namespace-print protocol svc ns port long l p =
    rw (label-append ns (suffix long ++ port_text port) l.bytes (label-stop long port))
      (rw (l.whole) (rw (trim_suffix long port) (rw (parse_port-print port p) refl)))

service-print :
    (protocol svc ns port : Text) (long : Bool)
    → IsLabel svc
    → IsLabel ns
    → IsPort port
    → service_part protocol (label (svc ++ (b'.' ∷ (ns ++ (suffix long ++ port_text port)))))
      ≡ some (record { protocol = protocol; svc = svc; ns = ns; port = port })
unfolding service_part
service-print protocol svc ns port long s n p =
    rw (label-append svc (b'.' ∷ (ns ++ (suffix long ++ port_text port))) s.bytes (label-dot _))
      (rw (s.whole) (namespace-print protocol (s.first ∷ s.others) ns port long n p))

match_host-print :
    (secure long : Bool) (svc ns port : Text)
    → IsLabel svc
    → IsLabel ns
    → IsPort port
    → match_host (print_host secure long svc ns port)
      ≡ some (record { protocol = scheme secure; svc = svc; ns = ns; port = port })
unfolding match_host has_prefix
match_host-print true long svc ns port s n p = service-print (codes "https") svc ns port long s n p
match_host-print false long svc ns port s n p = service-print (codes "http") svc ns port long s n p

pub fill :
    (ns svc port : Text)
    → Lacks b'{' ns
    → Lacks b'{' svc
    → replace_first (codes "{port}") port (
        replace_first
          (codes "{service}")
          svc
          (replace_first (codes "{namespace}") ns service_proxy_url))
      ≡ service_below ns svc port
unfolding replace_first has_prefix
fill ns svc port n s =
    let base = codes "/api/v1/namespaces/" in
    let middle = codes "/services/" in
    let rest = codes ":{port}/proxy" in
    ap (λ r. replace_first (codes "{port}") port (base ++ r))
      (replace_first-skip (codes "service}") svc ns (codes "/services/{service}:{port}/proxy") n)
    ∙ ap (λ r. base ++ r)
        (replace_first-skip (codes "port}") port ns (middle ++ (svc ++ rest)) n
          ∙ ap (λ r. ns ++ (middle ++ r)) (replace_first-skip (codes "port}") port svc rest s))

pub https-Lacks : (svc : Text) → IsLabel svc → Lacks b'{' (codes "https:" ++ svc)
https-Lacks svc l = let rest = label-Lacks svc l.bytes in ground (arith, rest)

service_path-print :
    (secure : Bool) (svc ns port : Text)
    → IsLabel svc
    → IsLabel ns
    → service_path (some (record { protocol = scheme secure; svc = svc; ns = ns; port = port }))
      ≡ print_path secure svc ns port
unfolding service_path text_eq
service_path-print true svc ns port s n =
    fill ns (codes "https:" ++ svc) (port_or (codes "443") port) (label-Lacks ns n.bytes)
      (https-Lacks svc s)
service_path-print false svc ns port s n =
    fill ns svc (port_or (codes "80") port) (label-Lacks ns n.bytes) (label-Lacks svc s.bytes)

-- A host "http(s)://service.namespace", with ".svc.cluster.local" or not and with a port of digits
-- or not, is turned into the path of that service below the API server: the scheme "https" goes
-- before the service's name, and a missing port is 443 or 80.
pub convert_to_service_proxy_path-print :
    (secure long : Bool) (svc ns port : Text)
    → IsLabel svc
    → IsLabel ns
    → IsPort port
    → convert_to_service_proxy_path (print_host secure long svc ns port)
      ≡ print_path secure svc ns port
unfolding convert_to_service_proxy_path
convert_to_service_proxy_path-print secure long svc ns port s n p =
    ap service_path (match_host-print secure long svc ns port s n p)
    ∙ service_path-print secure svc ns port s n
