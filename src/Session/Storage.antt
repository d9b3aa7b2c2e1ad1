-- ===== src/Session/Storage.antt =====
-- Storing a session and getting it back.
use bke_console_service.Prelude.{◌≡◌, ◌≢◌, refl, sym, ap, ◌∙◌, List, ◌∷◌, ◌++◌, arith, some, All}
use bke_console_service.Constants.{
  console_service_token_key, console_service_default_namespace, symmetric_key,
}
use bke_console_service.Text.{Text, text_eq}
use bke_console_service.Text.Equality.{text_eq_iff}
use bke_console_service.World.{ok, payload, World, Env, Secret, get?, get_bytes}
use bke_console_service.World.Laws.{IsCipher}
use bke_console_service.Secure.{
  encrypt, decrypt, clear_byte, clear_key, key_field, hold_key, get_secret_symmetric_encrypt_key,
}
use bke_console_service.Secure.RoundTrip.{decrypt-encrypt}
use bke_console_service.Session.{
  session_id_name, access_token_name, session_secret_namespace, refresh_token_name,
  access_token_expiry_name, refresh_token_expiry_name, items, require_secret, find_secret,
  write_session, get_session, get_secret_from_session_id,
}
use bke_console_service.Session.Lookup.{IsOther, find_secret-append, find_secret-here}

pub namespaces_differ : console_service_default_namespace ≢ session_secret_namespace
unfolding text_eq
namespaces_differ e =
    cc ((text_eq_iff console_service_default_namespace session_secret_namespace).1 e)

module _ {S : Type 0} (env : Env S) where
  -- The key secret of the service is there, and holds this key.
  pub record IsKeyed (key : Text) (c : S) : Type 0 where
    pub holder : Secret
    pub fetched :
        env.get_secret console_service_default_namespace console_service_token_key c ≡ ok holder
    pub held : get? symmetric_key holder.contents ≡ some key

  pub fetch_key :
      (key : Text) (w : World S)
      → IsKeyed key w.cluster
      → get_secret_symmetric_encrypt_key env console_service_token_key w
        ≡ (ok key, record w { key_buffer = key })
  unfolding get_secret_symmetric_encrypt_key key_field hold_key
  fetch_key key w k = rw (k.fetched) (rw (k.held) refl)

  -- A secret with the five items of a session, three of them encrypted.
  pub record Seals (key access refresh id access_expiry refresh_expiry : Text) (s : Secret)
      : Type 0 where
    pub token : decrypt env (get_bytes access_token_name s.contents) key ≡ ok access
    pub refresh_token : decrypt env (get_bytes refresh_token_name s.contents) key ≡ ok refresh
    pub session_id : decrypt env (get_bytes session_id_name s.contents) key ≡ ok id
    pub stored :
        (sealed : Text) × (get? session_id_name s.contents ≡ some sealed)
        × (decrypt env sealed key ≡ ok id)
    pub access_at : get_bytes access_token_expiry_name s.contents ≡ access_expiry
    pub refresh_at : get_bytes refresh_token_expiry_name s.contents ≡ refresh_expiry

  -- Where the first matching secret of the list seals a session, getting that session returns its
  -- items, and the key is cleared.
  pub get_session_sealed :
      (key access refresh id access_expiry refresh_expiry : Text) (w : World S) (s : Secret)
      (before after : List Secret)
      → IsKeyed key w.cluster
      → env.list_secrets session_secret_namespace w.cluster ≡ ok (before ++ s ∷ after)
      → All (IsOther env id key) before
      → Seals key access refresh id access_expiry refresh_expiry s
      → get_session env id w ≡ (
        ok (items access refresh id access_expiry refresh_expiry),
        record w { key_buffer = clear_byte key },
      )
  unfolding get_session get_secret_from_session_id require_secret clear_key
  get_session_sealed key access refresh id ae re w s before after k listed others seals =
      let found : find_secret env id key (before ++ s ∷ after) ≡ ok (some s) =
        find_secret-append env id key before (s ∷ after) others
        ∙ find_secret-here env id key s after seals.stored in
      rw (fetch_key key w k) (
        rw listed (
          rw found (
            rw (seals.token) (
              rw (seals.refresh_token)
                (rw (seals.session_id) (rw (seals.access_at, seals.refresh_at) refl))))))

  -- The world behind one encryption.
  abbrev after_encrypt : Text → Text → World S → World S
  after_encrypt plain key w = (encrypt env plain key w).1

  -- The secret that is written for five items.
  abbrev written : Text → Text → Text → Text → Text → Text → Text → World S → Secret
  written key name access refresh id access_expiry refresh_expiry w =
      let w₁ = after_encrypt access key w in
      let w₂ = after_encrypt refresh key w₁ in
      record {
        name = name;
        namespace = session_secret_namespace;
        contents =
            items (payload (encrypt env access key w).0) (payload (encrypt env refresh key w₁).0)
              (payload (encrypt env id key w₂).0) access_expiry refresh_expiry;
      }

  write_session-eq-ok :
      (key name access refresh id access_expiry refresh_expiry : Text) (w w' : World S)
      → write_session env name (items access refresh id access_expiry refresh_expiry) key w
        ≡ (ok tt, w')
      → let w₁ = after_encrypt access key w in
        let w₂ = after_encrypt refresh key w₁ in
        let w₃ = after_encrypt id key w₂ in
        (encrypt env access key w ≡ (ok (payload (encrypt env access key w).0), w₁))
        × (encrypt env refresh key w₁ ≡ (ok (payload (encrypt env refresh key w₁).0), w₂))
        × (encrypt env id key w₂ ≡ (ok (payload (encrypt env id key w₂).0), w₃))
        × (env.create_secret
              (written key name access refresh id access_expiry refresh_expiry w)
              w₃.cluster
            ≡ (ok tt, w'.cluster))
  unfolding write_session get_bytes get? text_eq clear_key
  write_session-eq-ok key name access refresh id ae re w w' e = ground arith

  module _ (cipher : IsCipher env) where
    -- A session that was written is sealed in the created secret, and encrypting it left the
    -- cluster alone.
    pub write_session-Seals :
        (key name access refresh id access_expiry refresh_expiry : Text) (w w' : World S)
        → write_session env name (items access refresh id access_expiry refresh_expiry) key w
          ≡ (ok tt, w')
        → (s : Secret) × (s.namespace ≡ session_secret_namespace)
          × (s.name ≡ name)
          × Seals key access refresh id access_expiry refresh_expiry s
          × (env.create_secret s w.cluster ≡ (ok tt, w'.cluster))
    unfolding get_bytes get? text_eq
    write_session-Seals key name access refresh id ae re w w' e =
        let (e₁, e₂, e₃, made) = write_session-eq-ok key name access refresh id ae re w w' e in
        let (d₁, c₁) = decrypt-encrypt env cipher access key _ w _ e₁ in
        let (d₂, c₂) = decrypt-encrypt env cipher refresh key _ _ _ e₂ in
        let (d₃, c₃) = decrypt-encrypt env cipher id key _ _ _ e₃ in
        let same =
          ap (λ (v : World S). v.cluster) c₃
          ∙ ap (λ (v : World S). v.cluster) c₂
          ∙ ap (λ (v : World S). v.cluster) c₁ in
        (
          written key name access refresh id ae re w,
          refl,
          refl,
          record {
            token = d₁;
            refresh_token = d₂;
            session_id = d₃;
            stored = (_, refl, d₃);
            access_at = refl;
            refresh_at = refl;
          },
          ap (env.create_secret (written key name access refresh id ae re w)) (sym same) ∙ made,
        )
