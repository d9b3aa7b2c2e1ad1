-- ===== src/Auth/Tokens/Cache.antt =====
-- The token cache of exchangeRefreshTokenForNewToken in pkg/auth/handler.go.
use bke_console_service.Prelude.{
  suc, ◌≡◌, ◌⊎◌, refl, sym, ap, ◌∙◌, Bool, true, false, Option, none, some, arith, inl, inr,
  Option-cases,
}
use bke_console_service.Text.{Text}
use bke_console_service.Text.Equality.{text_eq-cases}
use bke_console_service.World.{
  Outcome, Outcome-cases, ok, err, panic, AccessRefreshToken, World, Env, get?, put, FileStatus,
  there, missing, unreadable,
}
use bke_console_service.Constants.{tls_cert_path}
use bke_console_service.World.Dicts.{get?-put, get?-put_self}
use bke_console_service.World.Steps.{continue, ◌>>=◌, count_call, lift}
use bke_console_service.Http.{TlsConfig, prepare_oauth2_context, is_https_enabled, get_http_config}
use bke_console_service.Auth.Tokens.{
  exchange_refresh_token_for_new_token, exchange_locked, exchange_uncached, cache_token,
  retrieve_refresh_token_expiry, refresh_expiry, token_pair, add_duration, duration_of_seconds,
}

module _ {S : Type 0} (env : Env S) where
  -- The state behind the preparation of the context: some files were read.
  abbrev pub prepared : World S → World S
  prepared w = record w { calls = (prepare_oauth2_context env w).1.calls }

  config-kept :
      (tls : Bool) (v : World S)
      → (get_http_config env tls v).1 ≡ record v { calls = (get_http_config env tls v).1.calls }
  unfolding get_http_config
  config-kept true v = ground arith
  config-kept false v = refl

  prepare-prepared : (w : World S) → (prepare_oauth2_context env w).1 ≡ prepared w
  unfolding prepare_oauth2_context is_https_enabled get_http_config
  prepare-prepared w = go (env.stat w.calls tls_cert_path)
    where
      go :
          (status : FileStatus)
          → let r = (lift (is_https_enabled status) >>= get_http_config env) (count_call env w) in
            r.1 ≡ record w { calls = r.1.calls }
      go there = config-kept true (count_call env w)
      go missing = config-kept false (count_call env w)
      go (unreadable e) = refl

  -- The exchange is what happens under the lock, behind a context.
  exchange-locked :
      (rt : Text) (w : World S)
      → exchange_refresh_token_for_new_token env rt w
        ≡ continue
            (prepare_oauth2_context env w).0
            (λ (c : TlsConfig) (v : World S). exchange_locked env rt (get? rt v.token_cache) v)
            (prepared w)
  unfolding exchange_refresh_token_for_new_token
  exchange-locked rt w =
      ap
        (continue (prepare_oauth2_context env w).0
          (λ (c : TlsConfig) (v : World S). exchange_locked env rt (get? rt v.token_cache) v))
        (prepare-prepared w)

  -- A refresh that succeeds is cached; any other leaves the cache alone.
  uncached-cases :
      (rt : Text) (w : World S)
      → ((pair : AccessRefreshToken) × ((exchange_uncached env rt w).0 ≡ ok (pair, false))
          × ((exchange_uncached env rt w).1.token_cache ≡ put rt pair w.token_cache))
        ⊎ (((x : AccessRefreshToken × Bool) → ¬ ((exchange_uncached env rt w).0 ≡ ok x))
            × ((exchange_uncached env rt w).1.token_cache ≡ w.token_cache))
  unfolding exchange_uncached retrieve_refresh_token_expiry refresh_expiry cache_token token_pair
  uncached-cases rt w = elim (Outcome-cases (env.refresh w.calls rt)) [
    | inl (token, got) ↦ elim (Option-cases token.refresh_expires_in) [
      | inl without ↦ inr (rw (got, without) (λ x e. cc e), rw (got, without) refl)
      | inr (seconds, has) ↦ inl (
        token_pair token (add_duration (env.clock (suc w.calls)) (duration_of_seconds seconds)),
        rw (got, has) refl,
        rw (got, has) refl,
      )
    ]
    | inr (inl (e, failed)) ↦ inr (rw failed (λ x e. cc e), rw failed refl)
    | inr (inr lost) ↦ inr (rw lost (λ x e. cc e), rw lost refl)
  ]

  locked-keeps :
      (rt other : Text) (kept : AccessRefreshToken) (o : Option AccessRefreshToken) (v : World S)
      → get? rt v.token_cache ≡ o
      → get? other v.token_cache ≡ some kept
      → get? other (exchange_locked env rt o v).1.token_cache ≡ some kept
  unfolding exchange_locked
  locked-keeps rt other kept (some pair) v at hit = hit
  locked-keeps rt other kept none v at hit = elim (uncached-cases rt v) [
    | inl (pair, _, stored) ↦
        ap (get? other) stored
        ∙ get?-put rt other pair v.token_cache
        ∙ elim (text_eq-cases rt other) [
          | inl same ↦ absurd (cc (ap (λ k. get? k v.token_cache) same))
          | inr differ ↦ rw differ hit
        ]
    | inr (_, stored) ↦ ap (get? other) stored ∙ hit
  ]

  -- An exchange keeps an entry of the cache, whatever it returns.
  exchange-keeps :
      (rt other : Text) (kept : AccessRefreshToken) (w : World S)
      → get? other w.token_cache ≡ some kept
      → get? other (exchange_refresh_token_for_new_token env rt w).1.token_cache ≡ some kept
  exchange-keeps rt other kept w hit =
      ap (λ (r : Outcome (AccessRefreshToken × Bool) × World S). get? other r.1.token_cache)
        (exchange-locked rt w)
      ∙ go (prepare_oauth2_context env w).0
    where
      go :
          (r : Outcome TlsConfig)
          → get? other
              (continue r
                (λ (c : TlsConfig) (v : World S). exchange_locked env rt (get? rt v.token_cache) v)
                (prepared w)).1.token_cache
            ≡ some kept
      go (ok c) = locked-keeps rt other kept _ (prepared w) refl hit
      go (err e) = hit
      go panic = hit

  -- A later state: exchanges went on, of any refresh tokens and with any outcome, and so did
  -- whatever leaves the cache alone.
  pub data Later (w : World S) : World S → Type 0 where
    now : Later w w
    exchanging :
        {v v' : World S} (rt : Text)
        → Later w v
        → (exchange_refresh_token_for_new_token env rt v).1 ≡ v'
        → Later w v'
    elsewhere : {v v' : World S} → Later w v → v'.token_cache ≡ v.token_cache → Later w v'

  -- What the cache holds for a refresh token it holds in every later state, whatever exchanges of
  -- any refresh tokens come between, whether they succeed, fail or panic, and whatever else that
  -- leaves the cache alone.
  pub exchange_keeps_cache :
      {w v : World S} (rt : Text) (kept : AccessRefreshToken)
      → Later w v
      → get? rt w.token_cache ≡ some kept
      → get? rt v.token_cache ≡ some kept
  exchange_keeps_cache rt kept now hit = hit
  exchange_keeps_cache rt kept (exchanging {v} other later at) hit =
      ap (λ (v : World S). get? rt v.token_cache) (sym at)
      ∙ exchange-keeps other rt kept v (exchange_keeps_cache rt kept later hit)
  exchange_keeps_cache rt kept (elsewhere later same) hit =
      ap (get? rt) same ∙ exchange_keeps_cache rt kept later hit

  locked-caches :
      (rt : Text) (pair : AccessRefreshToken) (again : Bool) (o : Option AccessRefreshToken)
      (v w' : World S)
      → get? rt v.token_cache ≡ o
      → exchange_locked env rt o v ≡ (ok (pair, again), w')
      → get? rt w'.token_cache ≡ some pair
  unfolding exchange_locked
  locked-caches rt pair again (some p) v w' at e =
      let same : p ≡ pair = ground arith in
      ap (λ (r : Outcome (AccessRefreshToken × Bool) × World S). get? rt r.1.token_cache) (sym e)
      ∙ at
      ∙ ap some same
  locked-caches rt pair again none v w' at e = elim (uncached-cases rt v) [
    | inl (made, got, stored) ↦
        let back = sym got ∙ ap (λ (r : Outcome (AccessRefreshToken × Bool) × World S). r.0) e in
        let same : made ≡ pair = cc back in
        ap (λ (r : Outcome (AccessRefreshToken × Bool) × World S). get? rt r.1.token_cache) (sym e)
        ∙ ap (get? rt) stored
        ∙ get?-put_self rt made v.token_cache
        ∙ ap some same
    | inr (refused, _) ↦
        absurd (
          refused (pair, again) (ap (λ (r : Outcome (AccessRefreshToken × Bool) × World S). r.0) e))
  ]

  -- An exchange that succeeded has cached its pair.
  exchange-caches :
      (rt : Text) (pair : AccessRefreshToken) (again : Bool) (w w' : World S)
      → exchange_refresh_token_for_new_token env rt w ≡ (ok (pair, again), w')
      → get? rt w'.token_cache ≡ some pair
  exchange-caches rt pair again w w' e =
      go (prepare_oauth2_context env w).0 (sym (exchange-locked rt w) ∙ e)
    where
      go :
          (r : Outcome TlsConfig)
          → continue r
              (λ (c : TlsConfig) (v : World S). exchange_locked env rt (get? rt v.token_cache) v)
              (prepared w)
            ≡ (ok (pair, again), w')
          → get? rt w'.token_cache ≡ some pair
      go (ok c) q = locked-caches rt pair again _ (prepared w) w' refl q
      go (err x) q = cc
      go panic q = cc

  -- Once a refresh token has been exchanged, its exchange in every later state in which the
  -- certificate's files can be read returns the same pair from the cache. It does no more than read
  -- those files: the OAuth server is not asked, and nothing else changes. Between the two there may
  -- be exchanges of any refresh tokens, with any outcome, and whatever leaves the cache alone.
  pub exchange_once :
      (rt : Text) (pair : AccessRefreshToken) (again : Bool) (config : TlsConfig) (w w' v : World S)
      → exchange_refresh_token_for_new_token env rt w ≡ (ok (pair, again), w')
      → Later w' v
      → (prepare_oauth2_context env v).0 ≡ ok config
      → exchange_refresh_token_for_new_token env rt v ≡ (ok (pair, true), prepared v)
  unfolding exchange_locked
  exchange_once rt pair again config w w' v first later ready =
      let hit = exchange_keeps_cache rt pair later (exchange-caches rt pair again w w' first) in
      exchange-locked rt v ∙ rw ready (rw hit refl)
