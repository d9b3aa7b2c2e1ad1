-- ===== src/Session/Lookup.antt =====
-- The search of getSecretFromSessionID in pkg/auth/session.go.
use bke_console_service.Prelude.{
  ◌≡◌, ◌↔◌, refl, ap, ◌∙◌, subst, Bool, true, false, List, [], ◌∷◌, ◌++◌, arith, Option, none, some,
  All,
}
use mathlib.Core.Option.{some-injective}
use bke_console_service.Text.{Text}
use bke_console_service.Text.Equality.{text_eq_iff}
use bke_console_service.World.{Outcome, ok, err, panic, Env, Secret, get?}
use bke_console_service.Secure.{decrypt}
use bke_console_service.Session.{session_id_name, pick, is_target, check_secret, find_secret}

module _ {S : Type 0} (env : Env S) (id key : Text) where
  -- The secret has a session ID that is decrypted to the given one.
  abbrev pub Holds : Secret → Type 0
  Holds s =
      (sealed : Text) × (get? session_id_name s.contents ≡ some sealed)
      × (decrypt env sealed key ≡ ok id)

  -- The secret has no session ID, one that is not decrypted, or another one.
  abbrev pub IsOther : Secret → Type 0
  IsOther s = check_secret env id key (get? session_id_name s.contents) ≡ ok false

  is_target_iff : (r : Outcome Text) → (is_target id r ≡ ok true) ↔ (r ≡ ok id)
  unfolding is_target
  is_target_iff (ok plain) = ground (arith, text_eq_iff plain id)
  is_target_iff (err e) = ground arith
  is_target_iff panic = ground arith

  check_secret_iff :
      (field : Option Text)
      → (check_secret env id key field ≡ ok true)
        ↔ ((sealed : Text) × (field ≡ some sealed) × (decrypt env sealed key ≡ ok id))
  unfolding check_secret is_target
  check_secret_iff none = (λ e. cc e, λ h. cc (h.1))
  check_secret_iff (some sealed) =
      let (to, from) = is_target_iff (decrypt env sealed key) in
      (
        λ e. (sealed, refl, to e),
        λ h. from (ap (λ c. decrypt env c key) (some-injective sealed h.0 h.1) ∙ h.2),
      )

  pub find_secret-append :
      (before rest : List Secret)
      → All IsOther before
      → find_secret env id key (before ++ rest) ≡ find_secret env id key rest
  unfolding find_secret
  find_secret-append [] rest h = refl
  find_secret-append (s ∷ before) rest (o, h) = ground (arith, find_secret-append before rest h)

  pub find_secret-here :
      (s : Secret) (after : List Secret)
      → Holds s
      → find_secret env id key (s ∷ after) ≡ ok (some s)
  unfolding find_secret
  find_secret-here s after h =
      ground (arith, (check_secret_iff (get? session_id_name s.contents)).1 h)

  -- Where in the list the secret stands, and what stands before it.
  abbrev pub IsFirst : Secret → List Secret → Type 0
  IsFirst s secrets =
      (before after : List Secret) × (secrets ≡ before ++ s ∷ after) × Holds s × All IsOther before

  pick_sound :
      (t s : Secret) (ts : List Secret) (r : Outcome Bool)
      → check_secret env id key (get? session_id_name t.contents) ≡ r
      → (find_secret env id key ts ≡ ok (some s) → IsFirst s ts)
      → pick t r (find_secret env id key ts) ≡ ok (some s)
      → IsFirst s (t ∷ ts)
  unfolding pick
  pick_sound t s ts (ok true) c later e =
      let same : t ≡ s = ground arith in
      (
        [],
        ts,
        ap (λ u. u ∷ ts) same,
        subst Holds same ((check_secret_iff (get? session_id_name t.contents)).0 c),
        tt,
      )
  pick_sound t s ts (ok false) c later e =
      let (before, after, same, holds, others) = later e in
      (t ∷ before, after, ap (λ us. t ∷ us) same, holds, (c, others))
  pick_sound t s ts (err x) c later e = cc
  pick_sound t s ts panic c later e = cc

  -- The secret that is found holds the session, and every secret before it in the list does not.
  pub find_secret_sound :
      (secrets : List Secret) (s : Secret)
      → find_secret env id key secrets ≡ ok (some s)
      → IsFirst s secrets
  unfolding find_secret
  find_secret_sound [] s e = cc
  find_secret_sound (t ∷ ts) s e =
      pick_sound t s ts (check_secret env id key (get? session_id_name t.contents)) refl
        (find_secret_sound ts s) e

  -- Nothing is found exactly if every secret is passed over.
  pub find_secret-none_iff :
      (secrets : List Secret) → (find_secret env id key secrets ≡ ok none) ↔ All IsOther secrets
  unfolding find_secret
  find_secret-none_iff [] = ground arith
  find_secret-none_iff (s ∷ ss) = ground (arith, find_secret-none_iff ss)
