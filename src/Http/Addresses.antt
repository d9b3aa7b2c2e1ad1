-- ===== src/Http/Addresses.antt =====
-- pkg/utils/iputil/iputils.go. net.SplitHostPort and strings.TrimSpace are parameters; the keys of
-- the headers are in the canonical form in which net/http keeps them.
use bke_console_service.Prelude.{not, List, [], ◌∷◌, if◌then◌else◌}
use bke_console_service.Text.{Text, codes, text_eq, split}
use bke_console_service.World.{Outcome, ok, err, panic, Dict, get_bytes}

-- An address of the loopback interface is given in the form of IPv4.
unfoldable pub as_ipv4 : Text → Text
unfolding text_eq
as_ipv4 address = if text_eq address (codes "::1") then codes "127.0.0.1" else address

-- The host that net.SplitHostPort returns, which is empty beside an error
unfoldable pub remote_host : Outcome Text → Text
unfolding as_ipv4
remote_host (ok host) = as_ipv4 host
remote_host (err e) = []
remote_host panic = []

module _ (split_host_port : Text → Outcome Text) (trim_space : Text → Text) where
  unfoldable pub first_forwarded : Text → List Text → Text
  first_forwarded address [] = address
  first_forwarded address (ip ∷ ips) = trim_space ip

  -- RemoteIp
  unfoldable pub remote_ip : Text → Dict Text → Text
  unfolding get_bytes text_eq split first_forwarded as_ipv4 remote_host
  remote_ip remote_addr headers =
      let client = get_bytes (codes "X-Client-Ip") headers in
      let real = get_bytes (codes "X-Real-Ip") headers in
      let forwarded = get_bytes (codes "X-Forwarded-For") headers in
      if not (text_eq client [])
      then as_ipv4 client
      else if not (text_eq real [])
      then as_ipv4 real
      else if not (text_eq forwarded [])
      then as_ipv4 (first_forwarded remote_addr (split b',' forwarded))
      else remote_host (split_host_port remote_addr)
