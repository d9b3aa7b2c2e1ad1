-- ===== src/Session/Expiry.antt =====
-- What GetTokenFromSessionID returns, by the two expiry times of the session.
use bke_console_service.Prelude.{
  suc, [], ◌⊎◌, inl, inr, ◌≡◌, refl, ap, ◌∙◌, true, false, none, some, if◌then◌else◌,
}
use bke_console_service.Constants.{only_access_token_expired}
use bke_console_service.Text.{Text, codes, text_eq}
use bke_console_service.Text.Decimal.{format_int, FitsInt64, parse_int-format_int}
use bke_console_service.World.{
  Outcome, Outcome-cases, ok, err, panic, World, Env, Secret, Time, unix, from_unix, is_after, get?,
  get_bytes,
}
use bke_console_service.World.Steps.{count_call}
use bke_console_service.World.Laws.{IsKube}
use bke_console_service.Session.{
  session_secret_namespace, items, SessionStore, TokenResult, no_token, get_expiry,
  get_access_token, get_refresh_token, is_past, check_expiry, after_delete, live_token,
  live_session, delete_expired, delete_session, get_session, token_of, get_token_from_session_id,
}
use bke_console_service.Session.Deleted.{IsStored, deletes, gone}
use bke_console_service.Secure.{clear_byte}

module _ {S : Type 0} (env : Env S) where
  -- An instant that was written in decimal has passed if the clock is behind it.
  check_expiry-format_int :
      (t : Time) (w : World S)
      → FitsInt64 (unix t)
      → check_expiry env (format_int (unix t)) w
        ≡ (ok (is_after (env.clock w.calls) (from_unix (unix t))), count_call env w)
  unfolding check_expiry is_past
  check_expiry-format_int t w h = rw (parse_int-format_int (unix t) h) refl

  module _ (access refresh id : Text) (access_expiry refresh_expiry : Time) (w w₁ : World S)
      (fits_access : FitsInt64 (unix access_expiry))
      (fits_refresh : FitsInt64 (unix refresh_expiry))
      (got : get_session env id w ≡ (
        ok (
            items access refresh id
              (format_int (unix access_expiry))
              (format_int (unix refresh_expiry))),
        w₁,
      )) where
    abbrev session : SessionStore
    session =
        items access refresh id (format_int (unix access_expiry)) (format_int (unix refresh_expiry))

    -- While the refresh token has not expired, both tokens are returned, with the error of an
    -- expired access token exactly if the clock is behind the access token's expiry.
    pub get_token-live :
        is_after (env.clock w₁.calls) (from_unix (unix refresh_expiry)) ≡ false
        → get_token_from_session_id env id w ≡ (
          ok (record {
            access = access;
            refresh = refresh;
            error =
                if is_after (env.clock (suc w₁.calls)) (from_unix (unix access_expiry))
                then some only_access_token_expired
                else none;
          }),
          count_call env (count_call env w₁),
        )
    unfolding get_token_from_session_id token_of live_session live_token get_expiry get_access_token
        get_refresh_token get_bytes get? text_eq
    get_token-live fresh = rw got (
        rw (check_expiry-format_int refresh_expiry w₁ fits_refresh) (
          rw fresh
            (rw (check_expiry-format_int access_expiry (count_call env w₁) fits_access) refl)))

    expires :
        is_after (env.clock w₁.calls) (from_unix (unix refresh_expiry)) ≡ true
        → get_token_from_session_id env id w ≡ delete_expired env id (count_call env w₁)
    unfolding get_token_from_session_id token_of get_expiry get_bytes get? text_eq
    expires expired =
        rw got (rw (check_expiry-format_int refresh_expiry w₁ fits_refresh) (rw expired refl))

    -- What GetTokenFromSessionID returns, by what the deletion of the session returned.
    abbrev refused : Outcome (Unit {0}) → Outcome TokenResult
    refused (ok _) = ok (no_token (codes "session expired"))
    refused (err e) = ok (no_token e)
    refused panic = panic

    delete_expired-run :
        (r : Outcome (Unit {0})) (v v' : World S)
        → delete_session env id v ≡ (r, v')
        → delete_expired env id v ≡ (refused r, v')
    unfolding delete_expired after_delete
    delete_expired-run (ok _) v v' ran = rw ran refl
    delete_expired-run (err e) v v' ran = rw ran refl
    delete_expired-run panic v v' ran = rw ran refl

    -- Once the refresh token of a stored session has expired no token is returned, and the cluster
    -- is asked to delete the session's secret. Where it does, the error says that the session has
    -- expired, and the session is no longer found; where it returns an error, that is the error;
    -- and a panic of it is passed on. What is left is the state behind the deletion, with the key
    -- cleared and the clock read once.
    pub get_token-expired :
        (kube : IsKube env) (key : Text) (s : Secret) (deletion : Outcome (Unit {0})) (c' : S)
        → is_after (env.clock w₁.calls) (from_unix (unix refresh_expiry)) ≡ true
        → IsStored env key id s w₁.cluster
        → env.delete_secret session_secret_namespace s.name w₁.cluster ≡ (deletion, c')
        → let (result, after) = get_token_from_session_id env id w in
          (after ≡ record w₁ { calls = suc w₁.calls; key_buffer = clear_byte key; cluster = c' })
          × (((deletion ≡ ok tt)
                × (result
                    ≡ ok (record {
                      access = [];
                      refresh = [];
                      error = some (codes "session expired");
                    }))
                × ((get_session env id after).0 ≡ err (codes "session not found")))
              ⊎ ((e : Text) × (deletion ≡ err e)
                  × (result ≡ ok (record { access = []; refresh = []; error = some e })))
              ⊎ ((deletion ≡ panic) × (result ≡ panic)))
    get_token-expired kube key s deletion c' expired h deleted =
        let v : World S = count_call env w₁ in
        let v' : World S = record v { key_buffer = clear_byte key; cluster = c' } in
        let stored : IsStored env key id s v.cluster = record {
          keyed = h.keyed;
          before = h.before;
          after = h.after;
          lists = h.lists;
          holds = h.holds;
          others_before = h.others_before;
          others_after = h.others_after;
        } in
        let whole : get_token_from_session_id env id w ≡ (refused deletion, v') =
          expires expired
          ∙ delete_expired-run deletion v v'
              (deletes env kube key id s deletion v c' stored deleted) in
        let result = ap (λ (r : Outcome TokenResult × World S). r.0) whole in
        (
          ap (λ (r : Outcome TokenResult × World S). r.1) whole,
          elim (Outcome-cases deletion) [
            | inl (_, done) ↦ inl (
              done,
              result ∙ ap refused done,
              ap (λ (r : Outcome TokenResult × World S). (get_session env id r.1).0) whole
                  ∙ ap (λ (r : Outcome SessionStore × World S). r.0)
                      (gone env kube key id s v.cluster v' stored
                        (deleted ∙ ap (λ (r : Outcome (Unit {0})). (r, c')) done)),
            )
            | inr (inl (e, failed)) ↦ inr (inl (e, failed, result ∙ ap refused failed))
            | inr (inr lost) ↦ inr (inr (lost, result ∙ ap refused lost))
          ],
        )
