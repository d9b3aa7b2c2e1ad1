-- ===== src/Session/Update.antt =====
-- An update of a session whose creation is refused after the deletion.
use bke_console_service.Prelude.{suc, ℕ, ◌≡◌, refl, sym, ap, ◌∙◌, true, ◌++◌}
use bke_console_service.Text.{Text, codes}
use bke_console_service.World.{Outcome, ok, err, World, Env, Secret, get_bytes}
use bke_console_service.World.Steps.{count_call}
use bke_console_service.World.Laws.{IsKube}
use bke_console_service.Secure.{encrypt, nonce_size, clear_byte, clear_key}
use bke_console_service.Secure.RoundTrip.{IsKey}
use bke_console_service.Session.{
  access_token_name, refresh_token_name, access_token_expiry_name, refresh_token_expiry_name,
  session_id_name, session_secret_namespace, items, SessionStore, get_session_id, write_session,
  store_session, get_session, secret_name_for,
}
use bke_console_service.Session.Deleted.{IsStored, found_stored, gone}
use bke_console_service.Session.Storage.{fetch_key}

module _ {S : Type 0} (env : Env S) where
  encrypt_total :
      (plain key : Text) (v : World S)
      → IsKey key
      → ((i n : ℕ) → (bytes : Text) × (env.random i n ≡ ok bytes))
      → (sealed : Text) × (encrypt env plain key v ≡ (ok sealed, count_call env v))
  unfolding encrypt
  encrypt_total plain key v keyed draws =
      let (nonce, drawn) = draws v.calls nonce_size in
      (nonce ++ env.seal key nonce plain, rw keyed (rw drawn refl))

  -- Writing a session where the cluster refuses every secret returns an error and leaves the
  -- cluster as it is.
  write_session_refused :
      (name key : Text) (session : SessionStore) (v : World S)
      → IsKey key
      → ((i n : ℕ) → (bytes : Text) × (env.random i n ≡ ok bytes))
      → ((t : Secret) → (e : Text) × (env.create_secret t v.cluster ≡ (err e, v.cluster)))
      → (e : Text) × (v' : World S) × (write_session env name session key v ≡ (err e, v'))
        × (v'.cluster ≡ v.cluster)
  unfolding write_session clear_key
  write_session_refused name key session v keyed draws refused =
      let (t₁, e₁) = encrypt_total (get_bytes access_token_name session) key v keyed draws in
      let (t₂, e₂) =
        encrypt_total (get_bytes refresh_token_name session) key (count_call env v) keyed draws in
      let (t₃, e₃) =
        encrypt_total (get_bytes session_id_name session) key (count_call env (count_call env v))
          keyed draws in
      let (e, denied) = refused (record {
        name = name;
        namespace = session_secret_namespace;
        contents =
            items t₁ t₂ t₃ (get_bytes access_token_expiry_name session)
              (get_bytes refresh_token_expiry_name session);
      }) in
      (
        e,
        record v { calls = suc (suc (suc v.calls)); key_buffer = clear_byte v.key_buffer },
        rw e₁ (rw e₂ (rw e₃ (rw denied refl))),
        refl,
      )

  -- StoreSession with the update flag, up to the writing.
  pub store_session-update :
      (key id : Text) (s : Secret) (session : SessionStore) (w : World S) (c' : S)
      → IsStored env key id s w.cluster
      → get_session_id session ≡ id
      → env.delete_secret session_secret_namespace s.name w.cluster ≡ (ok tt, c')
      → store_session env session true w
        ≡ write_session env s.name session key
            (record w { calls = suc w.calls; key_buffer = key; cluster = c' })
  unfolding store_session secret_name_for
  store_session-update key id s session w c' h named deleted =
      rw (fetch_key env key (count_call env w) h.keyed) (
        rw named (
          rw
            (found_stored env key id s (record (count_call env w) { key_buffer = key })
              (record {
                keyed = h.keyed;
                before = h.before;
                after = h.after;
                lists = h.lists;
                holds = h.holds;
                others_before = h.others_before;
                others_after = h.others_after;
              }))
            (rw deleted refl)))

  -- An update deletes the old secret first: where the cluster then refuses to create secrets, the
  -- update returns an error and the session, which was stored before, is no longer found.
  pub store_session-loses :
      (kube : IsKube env) (key id : Text) (s : Secret) (session : SessionStore) (w : World S)
      (c' : S)
      → IsStored env key id s w.cluster
      → get_session_id session ≡ id
      → IsKey key
      → env.delete_secret session_secret_namespace s.name w.cluster ≡ (ok tt, c')
      → ((i n : ℕ) → (bytes : Text) × (env.random i n ≡ ok bytes))
      → ((t : Secret) → (e : Text) × (env.create_secret t c' ≡ (err e, c')))
      → ((e : Text) × ((store_session env session true w).0 ≡ err e))
        × ((get_session env id (store_session env session true w).1).0
            ≡ err (codes "session not found"))
  store_session-loses kube key id s session w c' h named keyed deleted draws refused =
      let w₂ : World S = record w { calls = suc w.calls; key_buffer = key; cluster = c' } in
      let (e, v', ran, same) = write_session_refused s.name key session w₂ keyed draws refused in
      let whole = store_session-update key id s session w c' h named deleted ∙ ran in
      (
        (e, ap (λ (r : Outcome (Unit {0}) × World S). r.0) whole),
        ap (λ (r : Outcome (Unit {0}) × World S). (get_session env id r.1).0) whole
            ∙ ap (λ (r : Outcome SessionStore × World S). r.0)
                (gone env kube key id s w.cluster v' h (deleted ∙ ap (λ c. (ok tt, c)) (sym same))),
      )
