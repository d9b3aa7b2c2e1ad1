-- ===== src/Session/Stored.antt =====
-- StoreSession followed by GetSession, of pkg/auth/session.go.
use bke_console_service.Prelude.{◌≡◌, refl, sym, ap, subst, ◌∙◌, false, List, [], ◌∷◌, ◌++◌, All}
use bke_console_service.Constants.{console_service_token_key, console_service_default_namespace}
use bke_console_service.Text.{Text, codes}
use bke_console_service.World.{Outcome, ok, World, Env, Secret}
use bke_console_service.World.Steps.{count_call}
use bke_console_service.World.Laws.{IsCipher, IsKube}
use bke_console_service.Secure.{clear_byte}
use bke_console_service.Session.{
  session_secret_namespace, items, SessionStore, write_session, store_session, get_session,
  secret_name_for,
}
use bke_console_service.Session.Storage.{
  namespaces_differ, IsKeyed, fetch_key, get_session_sealed, write_session-Seals,
}
use bke_console_service.Session.Lookup.{IsOther}

module _ {S : Type 0} (env : Env S) where
  -- What a created session needs to be found again: its key, the secrets listed before, none of
  -- which holds the session.
  pub record CanStore (key id : Text) (c : S) : Type 0 where
    pub keyed : IsKeyed env key c
    pub listed : List Secret
    pub lists : env.list_secrets session_secret_namespace c ≡ ok listed
    pub others : All (IsOther env id key) listed

  All-before :
      (key id : Text) (before after : List Secret)
      → All (IsOther env id key) (before ++ after)
      → All (IsOther env id key) before
  All-before key id [] after h = tt
  All-before key id (s ∷ before) after (o, h) = (o, All-before key id before after h)

module _ {S : Type 0} (env : Env S) (cipher : IsCipher env) (kube : IsKube env) where
  -- A session that was written anew is what GetSession returns, in every state with that cluster;
  -- the key is cleared.
  pub write_session-read :
      (key name access refresh id access_expiry refresh_expiry : Text) (w w' v : World S)
      → CanStore env key id w.cluster
      → write_session env name (items access refresh id access_expiry refresh_expiry) key w
        ≡ (ok tt, w')
      → v.cluster ≡ w'.cluster
      → get_session env id v ≡ (
        ok (items access refresh id access_expiry refresh_expiry),
        record v { key_buffer = clear_byte key },
      )
  write_session-read key name access refresh id ae re w w' v can e same =
      let (s, ns, named, seals, left) =
        write_session-Seals env cipher key name access refresh id ae re w w' e in
      let made = left ∙ ap (λ c. (ok tt, c)) (sym same) in
      let (before, after, split, lists) =
        kube.created_listed s w.cluster v.cluster can.listed made
          (ap (λ n. env.list_secrets n w.cluster) ns ∙ can.lists) in
      let keyed : IsKeyed env key v.cluster = record {
        holder = can.keyed.holder;
        fetched =
            kube.created_elsewhere s w.cluster v.cluster console_service_default_namespace
              console_service_token_key made (λ d. namespaces_differ (d ∙ ns))
            ∙ can.keyed.fetched;
        held = can.keyed.held;
      } in
      get_session_sealed env key access refresh id ae re v s before after keyed
        (ap (λ n. env.list_secrets n v.cluster) (sym ns) ∙ lists)
        (All-before env key id before after (subst (All (IsOther env id key)) split can.others))
        seals

  -- StoreSession without the update flag writes the session under a fresh name.
  pub store_session-fresh :
      (key : Text) (session : SessionStore) (w : World S)
      → IsKeyed env key w.cluster
      → store_session env session false w
        ≡ write_session env
            (codes "session-" ++ env.uuid w.calls)
            session
            key
            (record (count_call env w) { key_buffer = key })
  unfolding store_session secret_name_for
  store_session-fresh key session w k = rw (fetch_key env key (count_call env w) k) refl

  -- What StoreSession created is read back, and the key is cleared.
  pub store_session-read :
      (key access refresh id access_expiry refresh_expiry : Text) (w w' v : World S)
      → CanStore env key id w.cluster
      → store_session env (items access refresh id access_expiry refresh_expiry) false w
        ≡ (ok tt, w')
      → v.cluster ≡ w'.cluster
      → get_session env id v ≡ (
        ok (items access refresh id access_expiry refresh_expiry),
        record v { key_buffer = clear_byte key },
      )
  store_session-read key access refresh id ae re w w' v can e same =
      write_session-read key (codes "session-" ++ env.uuid w.calls) access refresh id ae re
        (record (count_call env w) { key_buffer = key }) w' v
        (record { keyed = can.keyed; listed = can.listed; lists = can.lists; others = can.others })
        (sym (store_session-fresh key _ w can.keyed) ∙ e) same

  -- Where the key is there and no listed secret holds the session yet, a session that StoreSession
  -- creates with success is what GetSession returns for its ID, in every state with the cluster
  -- that the creation left.
  pub store_session-get_session :
      (key access refresh id access_expiry refresh_expiry : Text) (w w' v : World S)
      → CanStore env key id w.cluster
      → store_session env (items access refresh id access_expiry refresh_expiry) false w
        ≡ (ok tt, w')
      → v.cluster ≡ w'.cluster
      → (get_session env id v).0 ≡ ok (items access refresh id access_expiry refresh_expiry)
  store_session-get_session key access refresh id ae re w w' v can e same =
      ap (λ (r : Outcome SessionStore × World S). r.0)
        (store_session-read key access refresh id ae re w w' v can e same)
