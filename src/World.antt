-- ===== src/World.antt =====
-- What the handlers run on: Go's results, the state that a request reads and writes, and the
-- outside world (the kubernetes API, the OAuth server, random bytes, the clock, files, the cipher
-- and the JWT parser), which is a parameter.
pub mod Steps
pub mod Laws
pub mod Dicts
use bke_console_service.Prelude.{
  ℕ, suc, ◌+◌, ◌-◌, ◌*◌, ◌/◌, ◌^◌, ◌%◌, ◌≡◌, refl, ◌⊎◌, inl, inr, Bool, true, false, List, [], ◌∷◌,
  ◌++◌, Option, none, some, ltb, if◌then◌else◌,
}
use bke_console_service.Prelude.Int.{ℤ, pos, negsuc, pos_part, neg_part, ◌+ℤ◌, ltb_ℤ}
use bke_console_service.Text.{Text, text_eq}

-- A call returns a value, returns a non-nil error with its message, or panics.
pub data Outcome {ℓ} (A : Type ℓ) : Type ℓ where
  ok : A → Outcome A
  err : Text → Outcome A
  panic : Outcome A

pub Outcome-cases {ℓ} :
    {A : Type ℓ} (o : Outcome A)
    → ((a : A) × (o ≡ ok a)) ⊎ (((e : Text) × (o ≡ err e)) ⊎ (o ≡ panic))
Outcome-cases (ok a) = inl (a, refl)
Outcome-cases (err e) = inr (inl (e, refl))
Outcome-cases panic = inr (inr refl)

-- What a caller that inspects the error sees.
pub data Returned {ℓ} (A : Type ℓ) : Type ℓ where
  value : A → Returned A
  error : Text → Returned A

-- The value of a call that returned one.
abbrev pub payload : Outcome Text → Text
payload (ok a) = a
payload (err e) = []
payload panic = []

-- map[string]V as an association list; the first entry of a key counts
abbrev pub Dict {ℓ} : Type ℓ → Type ℓ
Dict V = List (Text × V)

module _ {ℓ} {V : Type ℓ} where
  -- v, ok := m[k]
  unfoldable pub get? : Text → Dict V → Option V
  unfolding text_eq
  get? k [] = none
  get? k ((j, v) ∷ m) = let later = get? k m in if text_eq j k then some v else later

  -- m[k] = v
  unfoldable pub put : Text → V → Dict V → Dict V
  unfolding text_eq
  put k v [] = (k, v) ∷ []
  put k v ((j, u) ∷ m) = let later = (j, u) ∷ put k v m in if text_eq j k then (k, v) ∷ m else later

  -- delete(m, k)
  unfoldable pub without : Text → Dict V → Dict V
  unfolding text_eq
  without k [] = []
  without k ((j, u) ∷ m) = let later = without k m in if text_eq j k then later else (j, u) ∷ later

abbrev pub or_nil : Option Text → Text
or_nil none = []
or_nil (some v) = v

-- m[k] on a map of byte slices
unfoldable pub get_bytes : Text → Dict Text → Text
unfolding get?
get_bytes k m = or_nil (get? k m)

-- An instant, in nanoseconds since the Unix epoch.
pub record Time : Type 0 where
  pub nanos : ℤ

abbrev pub second : ℕ
second = 1_000_000_000

-- t.Unix(), which rounds down
abbrev pub unix : Time → ℤ
unix t = elim t.nanos [ pos n ↦ pos (n / second) | negsuc n ↦ negsuc (n / second) ]

abbrev pub seconds : ℤ → ℤ
seconds (pos n) = pos (n * second)
seconds (negsuc n) = negsuc (n * second + (second - 1))

-- time.Unix(s, 0)
abbrev pub from_unix : ℤ → Time
from_unix s = record { nanos = seconds s }

-- t.After(u)
abbrev pub is_after : Time → Time → Bool
is_after t u = ltb_ℤ u.nanos t.nanos

-- time.Time{}
abbrev pub zero_time : Time
zero_time = from_unix (negsuc (62_135_596_800 - 1))

-- corev1.Secret
pub record Secret : Type 0 where
  pub name : Text
  pub namespace : Text
  pub contents : Dict Text

-- oauth2.Token; the last field is the extra "refresh_token_expires_in", truncated to an integer
pub record OauthToken : Type 0 where
  pub access_token : Text
  pub refresh_token : Text
  pub expiry : Time
  pub refresh_expires_in : Option ℤ

-- AccessRefreshToken of pkg/auth/types.go
pub record AccessRefreshToken : Type 0 where
  pub access_token : Text
  pub access_token_expiry : Time
  pub refresh_token : Text
  pub refresh_token_expiry : Time

-- os.Stat
pub data FileStatus : Type 0 where
  there missing : FileStatus
  unreadable : Text → FileStatus

-- The code that is not in this repository. Calls whose answer may change from one time to the
-- next take the number of such calls so far; the files of a directory are read at one number.
pub record Env (S : Type 0) : Type 0 where
  pub get_secret : Text → Text → S → Outcome Secret
  pub list_secrets : Text → S → Outcome (List Secret)
  pub create_secret : Secret → S → Outcome (Unit {0}) × S
  pub delete_secret : Text → Text → S → Outcome (Unit {0}) × S
  pub get_config_map : Text → Text → S → Outcome (Dict Text)
  pub random : ℕ → ℕ → Outcome Text
  pub uuid : ℕ → Text
  pub clock : ℕ → Time
  pub seal : Text → Text → Text → Text
  pub unseal : Text → Text → Text → Outcome Text
  pub exchange : ℕ → Text → Outcome OauthToken
  pub refresh : ℕ → Text → Outcome OauthToken
  pub stat : ℕ → Text → FileStatus
  pub load_key_pair : ℕ → Text → Text → Outcome (Unit {0})
  pub read_file : ℕ → Text → Outcome Text
  pub jwt_subject : Text → Outcome Text
  pub auth_code_url : Text → Text → Text
  pub ws_upgrade : ℕ → Outcome ℕ
  pub ws_write : ℕ → ℕ → Text → Outcome (Unit {0})
  pub ws_close : ℕ → ℕ → Outcome (Unit {0})
  pub reply_write : ℕ → Text → Outcome (Unit {0})

-- http.Cookie, with the fields that the service sets
pub record Cookie : Type 0 where
  pub name : Text
  pub value : Text
  pub expires : Option Time
  pub path : Text
  pub http_only : Bool
  pub secure : Bool
  pub same_site_lax : Bool

-- http.Request
pub record Request : Type 0 where
  pub method : Text
  pub path : Text
  pub headers : Dict Text
  pub cookies : Dict Text
  pub query : Dict Text
  pub body : Outcome Text

-- What is done to a response, in order.
pub data Action : Type 0 where
  set_cookie : Cookie → Action
  set_header : Text → Text → Action
  write_header : ℕ → Action
  write_body : Text → Action
  redirect : Text → ℕ → Action
  write_entity : ℕ → Text → Option Text → Action
  http_error : Text → ℕ → Action
  write_error : ℕ → Text → Action

-- The state: the cluster's objects, the calls made so far, the bytes of the key that was fetched
-- last, the handler's token cache, the websocket store, and the response under way.
pub record World (S : Type 0) : Type 0 where
  pub cluster : S
  pub calls : ℕ
  pub key_buffer : Text
  pub token_cache : Dict AccessRefreshToken
  pub ws_store : Dict ℕ
  pub reply : List Action

-- Effectful code: what it returns, and the state that it leaves, after an error or a panic too.
abbrev pub Go : Type 0 → Type 0 → Type 0
Go S A = World S → Outcome A × World S
