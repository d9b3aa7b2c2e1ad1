-- ===== src/Http.antt =====
-- Cookies and pages of pkg/auth/handler.go, and the TLS set-up of pkg/utils/httputil/util.go.
pub mod Escape
pub mod Bodies
pub mod Addresses
use bke_console_service.Prelude.{
  ℕ, Bool, true, false, List, [], ◌∷◌, ◌++◌, Option, none, some, ◌==◌, if◌then◌else◌, ◌≡◌,
}
use bke_console_service.Prelude.Int.{ℤ, pos, ltb_ℤ}
use bke_console_service.Constants.{ca_path, tls_cert_path, tls_key_path}
use bke_console_service.Text.{Text, codes}
use bke_console_service.World.{
  Outcome, ok, err, panic, Cookie, Action, set_cookie, Time, from_unix, zero_time, Go, Env,
  FileStatus, there, missing, unreadable, get_bytes, get?, Request, Dict,
}
use bke_console_service.World.Steps.{stat_of, key_pair_of, content_of, act, lift, ◌>>=◌, ◌>>◌, pure}

-- t.IsZero()
unfoldable pub is_zero : Time → Bool
is_zero t =
    if ltb_ℤ t.nanos zero_time.nanos
    then false
    else if ltb_ℤ zero_time.nanos t.nanos
    then false
    else true

abbrev pub cookie : Text → Text → Option Time → Cookie
cookie name value expires = record {
  name = name;
  value = value;
  expires = expires;
  path = codes "/";
  http_only = true;
  secure = true;
  same_site_lax = true;
}

-- setCookie
unfoldable pub set_cookie_to : {S : Type 0} → Text → Text → Time → Go S (Unit {0})
unfolding is_zero
set_cookie_to name value expires =
    act (set_cookie (cookie name value (if is_zero expires then none else some expires)))

-- clearCookie
unfoldable pub clear_cookie : {S : Type 0} → Text → Go S (Unit {0})
clear_cookie name = act (set_cookie (cookie name [] (some (from_unix (pos 1)))))

-- One character of html.EscapeString
unfoldable pub escape_char : ℕ → Text
escape_char c =
    if c == b'&'
    then codes "&amp;"
    else if c == b'<'
    then codes "&lt;"
    else if c == b'>'
    then codes "&gt;"
    else if c == 34
    then codes "&#34;"
    else if c == 39
    then codes "&#39;"
    else c ∷ []

-- html.EscapeString
unfoldable pub escape_string : Text → Text
unfolding escape_char
escape_string [] = []
escape_string (c ∷ s) = escape_char c ++ escape_string s

abbrev pub page_head : Text
page_head =
    codes "\n\t<!DOCTYPE html>\n\t<html lang=\"zh\">\n\t<head>\n\t\t<meta charset=\"UTF-8\">\n\t\t"
    ++ codes "<title>openFuyao</title>\n\t</head>\n\t<body>\n\t\t<h1>"

abbrev pub page_middle : Text
page_middle = codes "</h1>\n\t\t<p>"

abbrev pub page_tail : Text
page_tail = codes "</p>\n\t</body>\n\t</html>\n"

-- renderHTML, with responseTemplate cut at its two verbs
unfoldable pub render_html : Text → Text → Text
render_html header text = page_head ++ header ++ page_middle ++ text ++ page_tail

-- IsHttpsEnabled
unfoldable pub is_https_enabled : FileStatus → Outcome Bool
is_https_enabled there = ok true
is_https_enabled missing = ok false
is_https_enabled (unreadable e) = err e

-- tls.Config, as far as GetHttpConfig fills it
pub record TlsConfig : Type 0 where
  pub insecure_skip_verify : Bool
  pub has_certificate : Bool
  pub min_tls13 : Bool
  pub root_cas : Text

module _ {S : Type 0} (env : Env S) where
  -- GetHttpConfig
  unfoldable pub get_http_config : Bool → Go S TlsConfig
  get_http_config false = pure (record {
    insecure_skip_verify = true;
    has_certificate = false;
    min_tls13 = false;
    root_cas = [];
  })
  get_http_config true = do
    key_pair_of env tls_cert_path tls_key_path
    ca_cert ← content_of env ca_path
    pure (record {
      insecure_skip_verify = false;
      has_certificate = true;
      min_tls13 = true;
      root_cas = ca_cert;
    })

  -- prepareOAuth2Context
  unfoldable pub prepare_oauth2_context : Go S TlsConfig
  unfolding is_https_enabled get_http_config
  prepare_oauth2_context = do
    status ← stat_of env tls_cert_path
    enable_tls ← lift (is_https_enabled status)
    get_http_config enable_tls
