-- ===== src/World/Laws.antt =====
-- What the proofs rely on of the outside world: documented behaviour of the cipher, the random
-- source and the kubernetes API.
use bke_console_service.Prelude.{ℕ, ◌≡◌, ◌≢◌, List, [], ◌∷◌, ◌++◌, length, if◌then◌else◌}
use bke_console_service.Text.{Text, text_eq}
use bke_console_service.World.{ok, Env, Secret}

-- The secrets without the one of a name.
unfoldable pub remove_named : Text → List Secret → List Secret
unfolding text_eq
remove_named name [] = []
remove_named name (s ∷ ss) =
    let later = remove_named name ss in if text_eq s.name name then later else s ∷ later

-- AES-GCM opens what it sealed, and a full read fills its buffer.
pub record IsCipher {S : Type 0} (env : Env S) : Type 0 where
  pub unseal-seal :
      (key nonce plain : Text) → env.unseal key nonce (env.seal key nonce plain) ≡ ok plain
  pub random_length : (i n : ℕ) (bytes : Text) → env.random i n ≡ ok bytes → length bytes ≡ n

-- A created secret is listed, somewhere among those of before, and a deleted one is not; neither
-- call changes another namespace.
pub record IsKube {S : Type 0} (env : Env S) : Type 0 where
  pub created_listed :
      (s : Secret) (c c' : S) (xs : List Secret)
      → env.create_secret s c ≡ (ok tt, c')
      → env.list_secrets s.namespace c ≡ ok xs
      → (before after : List Secret) × (xs ≡ before ++ after)
        × (env.list_secrets s.namespace c' ≡ ok (before ++ s ∷ after))
  pub created_elsewhere :
      (s : Secret) (c c' : S) (namespace name : Text)
      → env.create_secret s c ≡ (ok tt, c')
      → namespace ≢ s.namespace
      → env.get_secret namespace name c' ≡ env.get_secret namespace name c
  pub deleted_listed :
      (namespace name : Text) (c c' : S) (xs : List Secret)
      → env.delete_secret namespace name c ≡ (ok tt, c')
      → env.list_secrets namespace c ≡ ok xs
      → env.list_secrets namespace c' ≡ ok (remove_named name xs)
  pub deleted_elsewhere :
      (namespace name other key : Text) (c c' : S)
      → env.delete_secret namespace name c ≡ (ok tt, c')
      → other ≢ namespace
      → env.get_secret other key c' ≡ env.get_secret other key c
