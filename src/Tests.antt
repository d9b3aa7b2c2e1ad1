-- ===== src/Tests.antt =====
-- A small world on which the definitions run: a cluster that is a list of secrets, a cipher that
-- only prepends the nonce, and an OAuth server that always gives the same tokens.
pub mod Kube
pub mod Sessions
pub mod Handlers
pub mod Requests
pub mod Proxies
pub mod Chain
pub mod Startup
pub mod Responses
pub mod Samples
pub mod Journey
use bke_console_service.Prelude.{
  ℕ, zero, suc, Bool, true, false, ◌&&◌, List, [], ◌∷◌, ◌++◌, Option, none, some, if◌then◌else◌,
}
use bke_console_service.Prelude.Int.{pos}
use bke_console_service.Constants.{
  console_service_token_key, console_service_default_namespace, symmetric_key,
}
use bke_console_service.Text.{Text, codes, text_eq}
use bke_console_service.World.{
  Outcome, ok, err, Env, World, Secret, Request, OauthToken, AccessRefreshToken, missing, from_unix,
}

-- The secrets of a namespace.
unfoldable pub in_namespace : Text → List Secret → List Secret
unfolding text_eq
in_namespace ns [] = []
in_namespace ns (s ∷ ss) =
    let later = in_namespace ns ss in if text_eq s.namespace ns then s ∷ later else later

unfoldable pub secret_named : Text → Text → List Secret → Outcome Secret
unfolding text_eq
secret_named ns name [] = err (codes "not found")
secret_named ns name (s ∷ ss) =
    let later = secret_named ns name ss in
    if text_eq s.namespace ns && text_eq s.name name then ok s else later

unfoldable pub without_secret : Text → Text → List Secret → List Secret
unfolding text_eq
without_secret ns name [] = []
without_secret ns name (s ∷ ss) =
    let later = without_secret ns name ss in
    if text_eq s.namespace ns && text_eq s.name name then later else s ∷ later

-- n zero bytes
unfoldable pub zeros : ℕ → Text
zeros zero = []
zeros (suc n) = 0 ∷ zeros n

abbrev pub server_token : OauthToken
server_token = record {
  access_token = codes "access";
  refresh_token = codes "refresh";
  expiry = from_unix (pos 2000);
  refresh_expires_in = some (pos 3600);
}

-- The clock stands at 1000 seconds.
abbrev pub test_env : Env (List Secret)
test_env = record {
  get_secret = secret_named;
  list_secrets = λ ns c. ok (in_namespace ns c);
  create_secret = λ s c. (ok tt, c ++ s ∷ []);
  delete_secret = λ ns name c. (ok tt, without_secret ns name c);
  get_config_map = λ ns name c. err (codes "not found");
  random = λ i n. ok (zeros n);
  uuid = λ i. i ∷ [];
  clock = λ i. from_unix (pos 1000);
  seal = λ key nonce plain. plain;
  unseal = λ key nonce sealed. ok sealed;
  exchange = λ i code. ok server_token;
  refresh = λ i token. ok server_token;
  stat = λ i file. missing;
  load_key_pair = λ i cert key. ok tt;
  read_file = λ i file. ok [];
  jwt_subject = λ token. ok (codes "admin");
  auth_code_url = λ state provider. codes "/oauth2/oauth/authorize";
  ws_upgrade = λ i. ok i;
  ws_write = λ i conn text. ok tt;
  ws_close = λ i conn. ok tt;
  reply_write = λ i text. ok tt;
}

abbrev pub test_key : Text
test_key = codes "0123456789abcdef"

abbrev pub key_secret : Secret
key_secret = record {
  name = console_service_token_key;
  namespace = console_service_default_namespace;
  contents = (symmetric_key, test_key) ∷ [];
}

-- A state whose cluster has these secrets beside that of the key.
abbrev pub world_with : List Secret → World (List Secret)
world_with secrets = record {
  cluster = key_secret ∷ secrets;
  calls = 0;
  key_buffer = [];
  token_cache = [];
  ws_store = [];
  reply = [];
}

abbrev pub test_request : Request
test_request = record {
  method = codes "GET";
  path = codes "/console";
  headers = [];
  cookies = [];
  query = [];
  body = ok [];
}

abbrev pub test_pair : AccessRefreshToken
test_pair = record {
  access_token = codes "access";
  access_token_expiry = from_unix (pos 2000);
  refresh_token = codes "refresh";
  refresh_token_expiry = from_unix (pos 4600);
}
