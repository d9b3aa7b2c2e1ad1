-- ===== src/Session/Renewed.antt =====
-- An update of a session, UpdateSession and StoreSession of pkg/auth/session.go, that succeeds.
use bke_console_service.Prelude.{suc, ◌≡◌, refl, sym, ◌∙◌, true}
use bke_console_service.Text.{Text, text_eq}
use bke_console_service.Text.Decimal.{format_int}
use bke_console_service.World.{
  ok, World, Env, Secret, AccessRefreshToken, unix, get?, put, get_bytes,
}
use bke_console_service.World.Laws.{IsCipher, IsKube}
use bke_console_service.Secure.{clear_byte}
use bke_console_service.Session.{
  session_secret_namespace, items, SessionStore, update, get_session_id, store_session, get_session,
  update_session,
}
use bke_console_service.Session.Storage.{Seals, get_session_sealed}
use bke_console_service.Session.Stored.{write_session-read}
use bke_console_service.Session.Deleted.{IsStored, remains}
use bke_console_service.Session.Update.{store_session-update}

-- The items of a session that is updated with these tokens.
abbrev pub renewed : AccessRefreshToken → Text → SessionStore
renewed token id =
    items token.access_token token.refresh_token id (format_int (unix token.access_token_expiry))
      (format_int (unix token.refresh_token_expiry))

module _ {S : Type 0} (env : Env S) (key id : Text) (s : Secret) where
  -- UpdateSession of a stored session that its secret seals returns the new tokens and the old ID.
  pub update_session-renewed :
      (access refresh access_expiry refresh_expiry : Text) (token : AccessRefreshToken)
      (w : World S)
      → IsStored env key id s w.cluster
      → Seals env key access refresh id access_expiry refresh_expiry s
      → update_session env id token w
        ≡ (ok (renewed token id), record w { key_buffer = clear_byte key })
  unfolding update_session update put text_eq
  update_session-renewed access refresh ae re token w h seals =
      rw
        (get_session_sealed env key access refresh id ae re w s h.before h.after h.keyed h.lists
          h.others_before seals)
        refl

  module _ (cipher : IsCipher env) (kube : IsKube env) where
    -- A stored session that StoreSession updates with success is read back with its new items.
    pub store_session-renews :
        (token : AccessRefreshToken) (w w' v : World S) (c' : S)
        → IsStored env key id s w.cluster
        → env.delete_secret session_secret_namespace s.name w.cluster ≡ (ok tt, c')
        → store_session env (renewed token id) true w ≡ (ok tt, w')
        → v.cluster ≡ w'.cluster
        → get_session env id v ≡ (ok (renewed token id), record v { key_buffer = clear_byte key })
    unfolding get_session_id get_bytes get? text_eq
    store_session-renews token w w' v c' h deleted stored same =
        let w₂ : World S = record w { calls = suc w.calls; key_buffer = key; cluster = c' } in
        let left = remains env kube key id s w.cluster c' h deleted in
        write_session-read env cipher kube key s.name token.access_token token.refresh_token id
          (format_int (unix token.access_token_expiry))
          (format_int (unix token.refresh_token_expiry)) w₂ w' v
          (record {
            keyed = left.keyed;
            listed = left.listed;
            lists = left.lists;
            others = left.others;
          })
          (sym (store_session-update env key id s (renewed token id) w c' h refl deleted) ∙ stored)
          same
