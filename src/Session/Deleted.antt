-- ===== src/Session/Deleted.antt =====
-- DeleteSession of pkg/auth/session.go, followed by GetSession.
use bke_console_service.Prelude.{
  ◌≡◌, refl, ap, ◌∙◌, List, [], ◌∷◌, ◌++◌, some, All, inl, inr, Bool-cases,
}
use bke_console_service.Constants.{console_service_token_key, console_service_default_namespace}
use bke_console_service.Text.{Text, codes, text_eq}
use bke_console_service.Text.Equality.{text_eq_refl}
use bke_console_service.World.{Outcome, ok, err, World, Env, Secret}
use bke_console_service.World.Laws.{IsKube, remove_named}
use bke_console_service.Secure.{clear_byte, clear_key}
use bke_console_service.Session.{
  session_secret_namespace, SessionStore, require_secret, find_secret, get_session,
  get_secret_from_session_id, delete_session,
}
use bke_console_service.Session.Lookup.{
  Holds, IsOther, find_secret-append, find_secret-here, find_secret-none_iff,
}
use bke_console_service.Session.Stored.{CanStore}
use bke_console_service.Session.Storage.{namespaces_differ, IsKeyed, fetch_key}

module _ {S : Type 0} (env : Env S) where
  -- The key is there, and exactly one of the listed secrets holds the session.
  pub record IsStored (key id : Text) (s : Secret) (c : S) : Type 0 where
    pub keyed : IsKeyed env key c
    pub before : List Secret
    pub after : List Secret
    pub lists : env.list_secrets session_secret_namespace c ≡ ok (before ++ s ∷ after)
    pub holds : Holds env id key s
    pub others_before : All (IsOther env id key) before
    pub others_after : All (IsOther env id key) after

  pub found_stored :
      (key id : Text) (s : Secret) (w : World S)
      → IsStored key id s w.cluster
      → get_secret_from_session_id env id key w ≡ (ok s, w)
  unfolding get_secret_from_session_id require_secret
  found_stored key id s w h =
      let found : find_secret env id key (h.before ++ s ∷ h.after) ≡ ok (some s) =
        find_secret-append env id key h.before (s ∷ h.after) h.others_before
        ∙ find_secret-here env id key s h.after h.holds in
      rw (h.lists) (rw found refl)

  -- Where every listed secret is passed over, the session is not found, and the key stays.
  pub get_session-missing :
      (key id : Text) (w : World S) (secrets : List Secret)
      → IsKeyed env key w.cluster
      → env.list_secrets session_secret_namespace w.cluster ≡ ok secrets
      → All (IsOther env id key) secrets
      → get_session env id w ≡ (err (codes "session not found"), record w { key_buffer = key })
  unfolding get_session get_secret_from_session_id require_secret
  get_session-missing key id w secrets k lists others =
      rw (fetch_key env key w k)
        (rw lists (rw ((find_secret-none_iff env id key secrets).1 others) refl))

  pub remove_named-All :
      (key id name : Text) (secrets : List Secret)
      → All (IsOther env id key) secrets
      → All (IsOther env id key) (remove_named name secrets)
  unfolding remove_named
  remove_named-All key id name [] h = tt
  remove_named-All key id name (s ∷ ss) (o, h) = elim (Bool-cases (text_eq s.name name)) [
    | inl same ↦ rw same (remove_named-All key id name ss h)
    | inr other ↦ rw other (o, remove_named-All key id name ss h)
  ]

  remove_named-stored :
      (key id : Text) (before : List Secret) (s : Secret) (after : List Secret)
      → All (IsOther env id key) before
      → All (IsOther env id key) after
      → All (IsOther env id key) (remove_named s.name (before ++ s ∷ after))
  unfolding remove_named
  remove_named-stored key id [] s after h k =
      rw (text_eq_refl s.name) (remove_named-All key id s.name after k)
  remove_named-stored key id (t ∷ before) s after (o, h) k =
      elim (Bool-cases (text_eq t.name s.name)) [
        | inl same ↦ rw same (remove_named-stored key id before s after h k)
        | inr other ↦ rw other (o, remove_named-stored key id before s after h k)
      ]

  module _ (kube : IsKube env) where
    -- What the deletion leaves: the key, and the listed secrets without that of the session.
    pub remains :
        (key id : Text) (s : Secret) (c c' : S)
        → IsStored key id s c
        → env.delete_secret session_secret_namespace s.name c ≡ (ok tt, c')
        → CanStore env key id c'
    remains key id s c c' h deleted = record {
      keyed = record {
        holder = h.keyed.holder;
        fetched =
            kube.deleted_elsewhere session_secret_namespace s.name console_service_default_namespace
              console_service_token_key c c' deleted namespaces_differ
            ∙ h.keyed.fetched;
        held = h.keyed.held;
      };
      listed = remove_named s.name (h.before ++ s ∷ h.after);
      lists = kube.deleted_listed session_secret_namespace s.name c c' _ deleted h.lists;
      others = remove_named-stored key id h.before s h.after h.others_before h.others_after;
    }

    -- In any state whose cluster is the one that the deletion left, the session is not found.
    pub gone :
        (key id : Text) (s : Secret) (c : S) (w' : World S)
        → IsStored key id s c
        → env.delete_secret session_secret_namespace s.name c ≡ (ok tt, w'.cluster)
        → get_session env id w' ≡ (err (codes "session not found"), record w' { key_buffer = key })
    gone key id s c w' h deleted =
        let left = remains key id s c w'.cluster h deleted in
        get_session-missing key id w' left.listed left.keyed left.lists left.others

    -- Deleting a stored session returns what the cluster's deletion of its secret returns.
    pub deletes :
        (key id : Text) (s : Secret) (r : Outcome (Unit {0})) (w : World S) (c' : S)
        → IsStored key id s w.cluster
        → env.delete_secret session_secret_namespace s.name w.cluster ≡ (r, c')
        → delete_session env id w ≡ (r, record w { key_buffer = clear_byte key; cluster = c' })
    unfolding delete_session clear_key
    deletes key id s r w c' h deleted =
        rw (fetch_key env key w h.keyed)
          (rw (found_stored key id s (record w { key_buffer = key }) h) (rw deleted refl))

    -- Deleting a stored session succeeds if the cluster deletes its secret; then the session is no
    -- longer found, and the key is cleared.
    pub delete_session-get_session :
        (key id : Text) (s : Secret) (w : World S) (c' : S)
        → IsStored key id s w.cluster
        → env.delete_secret session_secret_namespace s.name w.cluster ≡ (ok tt, c')
        → (delete_session env id w
            ≡ (ok tt, record w { key_buffer = clear_byte key; cluster = c' }))
          × ((get_session env id (delete_session env id w).1).0 ≡ err (codes "session not found"))
    delete_session-get_session key id s w c' h deleted =
        let ran = deletes key id s (ok tt) w c' h deleted in
        (
          ran,
          rw ran (
              ap (λ (r : Outcome SessionStore × World S). r.0)
                (gone key id s w.cluster _ h deleted)),
        )
