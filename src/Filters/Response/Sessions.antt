-- ===== src/Filters/Response/Sessions.antt =====
-- Password changes by several requests: whose session ends.
use bke_console_service.Prelude.{
  ◌≡◌, ◌≢◌, sym, ap, ◌∙◌, true, List, [], ◌∷◌, ◌++◌, some, subst, arith,
}
use bke_console_service.Constants.{console_service_token_key, console_service_default_namespace}
use bke_console_service.Text.{Text, codes}
use bke_console_service.Text.Equality.{text_eq_iff}
use bke_console_service.World.{ok, err, get?, World, Env, Secret, Request}
use bke_console_service.World.Laws.{IsKube, remove_named}
use bke_console_service.Http.{clear_cookie}
use bke_console_service.Session.{session_secret_namespace, get_session, delete_session}
use bke_console_service.Session.Storage.{namespaces_differ}
use bke_console_service.Session.Deleted.{IsStored, remove_named-All, delete_session-get_session}
use bke_console_service.Auth.Instance.{Handler}
use bke_console_service.Auth.Tokens.{cookie_name_session_id}
use bke_console_service.Auth.User.Logout.{cleared, logout-deletes}
use bke_console_service.Auth.User.{logout_core}
use bke_console_service.Filters.Response.{Answer}
use bke_console_service.Filters.Response.Shared.{
  Step, forward, answered, latest, Shared, made, ends_session, run_steps, run_steps-latest,
}

remove_named-append :
    (name : Text) (before : List Secret) (s : Secret) (after : List Secret)
    → s.name ≢ name
    → remove_named name (before ++ s ∷ after)
      ≡ remove_named name before ++ s ∷ remove_named name after
unfolding remove_named
remove_named-append name [] s after h = ground (arith, text_eq_iff s.name name)
remove_named-append name (t ∷ before) s after h =
    ground (arith, remove_named-append name before s after h)

module _ {S : Type 0} (env : Env S) (kube : IsKube env) where
  -- A stored session stays stored when the secret of another one is deleted.
  pub kept_stored :
      (key id name : Text) (s : Secret) (c c' : S)
      → IsStored env key id s c
      → s.name ≢ name
      → env.delete_secret session_secret_namespace name c ≡ (ok tt, c')
      → IsStored env key id s c'
  kept_stored key id name s c c' h differ deleted = record {
    keyed = record {
      holder = h.keyed.holder;
      fetched =
          kube.deleted_elsewhere session_secret_namespace name console_service_default_namespace
            console_service_token_key c c' deleted namespaces_differ
          ∙ h.keyed.fetched;
      held = h.keyed.held;
    };
    before = remove_named name h.before;
    after = remove_named name h.after;
    lists =
        kube.deleted_listed session_secret_namespace name c c' _ deleted h.lists
        ∙ ap ok (remove_named-append name h.before s h.after differ);
    holds = h.holds;
    others_before = remove_named-All env key id name h.before h.others_before;
    others_after = remove_named-All env key id name h.after h.others_after;
  }

  -- The answer to a request of the OAuth proxy with 200 or 302 ends the session of the request that
  -- was sent on last: it is no longer found, if it was stored and the cluster deletes its secret.
  -- Every other session with a secret of another name stays stored, that of the request that is
  -- answered included, where another request was sent on in between.
  pub run_steps-session :
      (handler : Handler) (req : Request) (between : List Step) (answer : Answer)
      (s before : Shared S) (key last other : Text) (last_secret other_secret : Secret) (c' : S)
      → before ≡ run_steps env (made handler) (forward req ∷ between) s
      → ends_session answer ≡ true
      → get? cookie_name_session_id (latest req between).cookies ≡ some last
      → IsStored env key last last_secret before.world.cluster
      → IsStored env key other other_secret before.world.cluster
      → other_secret.name ≢ last_secret.name
      → env.delete_secret session_secret_namespace last_secret.name before.world.cluster
        ≡ (ok tt, c')
      → let after =
          run_steps env (made handler) (forward req ∷ between ++ answered req answer ∷ []) s in
        ((get_session env last after.world).0 ≡ err (codes "session not found"))
        × IsStored env key other other_secret after.world.cluster
  unfolding clear_cookie
  run_steps-session handler req between answer s before key last other ls os c' at ends has h k
        differ deleted =
      let (ran, missing) =
        delete_session-get_session env kube key last ls (cleared before.world) c' h deleted in
      let world_after : (run_steps env (made handler)
            (forward req ∷ between ++ answered req answer ∷ []) s).world
          ≡ (delete_session env last (cleared before.world)).1 =
        ap (λ (t : Shared S). t.world) (run_steps-latest env handler req between answer s)
        ∙ rw ends (
            ap (λ (t : Shared S). (logout_core env (latest req between) t.world).1) (sym at)
            ∙ logout-deletes env last (latest req between) before.world has) in
      (
        ap (λ v. (get_session env last v).0) world_after ∙ missing,
        subst (IsStored env key other os)
            (sym (ap (λ (v : World S). v.cluster) (world_after ∙ ap (λ p. p.1) ran)))
            (kept_stored key other ls.name os before.world.cluster c' k differ deleted),
      )
