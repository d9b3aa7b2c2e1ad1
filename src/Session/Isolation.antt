-- ===== src/Session/Isolation.antt =====
-- StoreSession of pkg/auth/session.go, seen from another session.
use bke_console_service.Prelude.{
  ◌≡◌, ◌≢◌, sym, ap, ◌∙◌, subst, false, List, [], ◌∷◌, ◌++◌, All, arith,
}
use bke_console_service.Constants.{console_service_token_key, console_service_default_namespace}
use bke_console_service.Text.{Text, codes}
use bke_console_service.Text.Equality.{text_eq_iff}
use bke_console_service.World.{ok, World, Env, Secret}
use bke_console_service.World.Steps.{count_call}
use bke_console_service.World.Laws.{IsCipher, IsKube}
use bke_console_service.Secure.{clear_byte}
use bke_console_service.Session.{items, store_session, get_session, check_secret, is_target}
use bke_console_service.Session.Lookup.{IsOther}
use bke_console_service.Session.Storage.{
  namespaces_differ, IsKeyed, Seals, get_session_sealed, write_session-Seals,
}
use bke_console_service.Session.Stored.{store_session-fresh}
use bke_console_service.Session.Deleted.{IsStored}

module _ {A : Type 0} (P : A → Type 0) where
  All-insert : (a : A) (xs ys : List A) → P a → All P (xs ++ ys) → All P (xs ++ a ∷ ys)
  All-insert a [] ys p h = (p, h)
  All-insert a (x ∷ xs) ys p (q, h) = (q, All-insert a xs ys p h)

  -- The place of an element, and what holds of the elements around it, after an insertion.
  insert_around :
      (a s : A) (xs ys before after : List A)
      → xs ++ ys ≡ before ++ s ∷ after
      → P a
      → All P before
      → All P after
      → (before' : List A) × (after' : List A) × (xs ++ a ∷ ys ≡ before' ++ s ∷ after')
        × All P before'
        × All P after'
  insert_around a s [] ys before after e p h k = (a ∷ before, after, ap (λ l. a ∷ l) e, (p, h), k)
  insert_around a s (x ∷ xs) ys [] after e p h k =
      let tail : after ≡ xs ++ ys = cc in
      ([], xs ++ a ∷ ys, cc, tt, All-insert a xs ys p (subst (All P) tail k))
  insert_around a s (x ∷ xs) ys (b ∷ before) after e p (q, h) k =
      let later : xs ++ ys ≡ before ++ s ∷ after = cc in
      let (before', after', same, h', k') = insert_around a s xs ys before after later p h k in
      (b ∷ before', after', cc, (q, h'), k')

module _ {S : Type 0} (env : Env S) where
  -- The secret of a session is passed over in the search for another ID.
  sealed-IsOther :
      (key access refresh id access_expiry refresh_expiry other : Text) (t : Secret)
      → id ≢ other
      → Seals env key access refresh id access_expiry refresh_expiry t
      → IsOther env other key t
  unfolding check_secret is_target
  sealed-IsOther key access refresh id ae re other t differ seals =
      let (sealed, has, opened) = seals.stored in
      rw has (rw opened (ground (arith, text_eq_iff id other)))

  -- Where StoreSession creates a session with success, every session with another ID that was
  -- stored, and whose secret seals its items, is read back with its items as before, in every state
  -- with the cluster that the creation left.
  pub store_session-isolated :
      (cipher : IsCipher env) (kube : IsKube env)
      (key access refresh id access_expiry refresh_expiry : Text)
      (token rotation other token_expiry rotation_expiry : Text) (s : Secret) (w w' v : World S)
      → id ≢ other
      → IsStored env key other s w.cluster
      → Seals env key token rotation other token_expiry rotation_expiry s
      → store_session env (items access refresh id access_expiry refresh_expiry) false w
        ≡ (ok tt, w')
      → v.cluster ≡ w'.cluster
      → get_session env other v ≡ (
        ok (items token rotation other token_expiry rotation_expiry),
        record v { key_buffer = clear_byte key },
      )
  store_session-isolated cipher kube key access refresh id ae re token rotation other te se s w w' v
        differ h kept stored same =
      let w₂ : World S = record (count_call env w) { key_buffer = key } in
      let (t, ns, named, seals, left) =
        write_session-Seals env cipher key (codes "session-" ++ env.uuid w.calls) access refresh id
          ae re w₂ w' (sym (store_session-fresh env cipher kube key _ w h.keyed) ∙ stored) in
      let made = left ∙ ap (λ c. (ok tt, c)) (sym same) in
      let (xs, ys, split, lists) =
        kube.created_listed t w.cluster v.cluster (h.before ++ s ∷ h.after) made
          (ap (λ n. env.list_secrets n w.cluster) ns ∙ h.lists) in
      let (before, after, joined, others, _) =
        insert_around (IsOther env other key) t s xs ys h.before h.after (sym split)
          (sealed-IsOther key access refresh id ae re other t differ seals) h.others_before
          h.others_after in
      let keyed : IsKeyed env key v.cluster = record {
        holder = h.keyed.holder;
        fetched =
            kube.created_elsewhere t w.cluster v.cluster console_service_default_namespace
              console_service_token_key made (λ d. namespaces_differ (d ∙ ns))
            ∙ h.keyed.fetched;
        held = h.keyed.held;
      } in
      get_session_sealed env key token rotation other te se v s before after keyed
        (ap (λ n. env.list_secrets n v.cluster) (sym ns) ∙ lists ∙ ap ok joined) others kept
