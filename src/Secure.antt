-- ===== src/Secure.antt =====
-- pkg/utils/util/secure.go and ClearByte of util.go: the symmetric key, AES-GCM encryption with the
-- nonce in front, and decryption. AES and GCM themselves are parameters.
pub mod RoundTrip
use bke_console_service.Prelude.{
  ℕ, Bool, ◌||◌, List, [], ◌∷◌, ◌++◌, map, Option, none, some, ltb, ◌==◌, if◌then◌else◌, length,
  take, drop,
}
use bke_console_service.Constants.{console_service_default_namespace, symmetric_key}
use bke_console_service.Text.{Text, codes}
use bke_console_service.World.{Outcome, ok, err, panic, Go, World, Env, Secret, get?}
use bke_console_service.World.Steps.{pure, lift, ◌>>=◌, ◌>>◌, read_random, secret_of}

-- ClearByte
unfoldable pub clear_byte : Text → Text
clear_byte value = map (λ _. 0) value

-- The size of the nonce of Go's GCM, in bytes.
abbrev pub nonce_size : ℕ
nonce_size = 12

-- getAEAD: AES takes keys of 16, 24 and 32 bytes, and GCM takes every AES block.
unfoldable pub get_aead : Text → Outcome (Unit {0})
get_aead key =
    if length key == 16 || length key == 24 || length key == 32
    then ok tt
    else err (codes "crypto/aes: invalid key size")

unfoldable pub key_field : Option Text → Outcome Text
key_field none = err (codes "SymmetricKey not found")
key_field (some field) = ok field

module _ {S : Type 0} (env : Env S) where
  -- Keeps the bytes of the key that the caller holds.
  unfoldable pub hold_key : Text → Go S Text
  hold_key key w = (ok key, record w { key_buffer = key })

  -- ClearByte(key) on the key that was fetched
  unfoldable pub clear_key : Go S (Unit {0})
  unfolding clear_byte
  clear_key w = (ok tt, record w { key_buffer = clear_byte w.key_buffer })

  -- GetSecretSymmetricEncryptKey
  unfoldable pub get_secret_symmetric_encrypt_key : Text → Go S Text
  get_secret_symmetric_encrypt_key secret_name = do
    decrypt_key ← secret_of env console_service_default_namespace secret_name
    field ← lift (key_field (get? symmetric_key decrypt_key.contents))
    hold_key field

  -- Encrypt
  unfoldable pub encrypt : Text → Text → Go S Text
  encrypt plain_text key = do
    lift (get_aead key)
    nonce ← read_random env nonce_size
    pure (nonce ++ env.seal key nonce plain_text)

  -- The slice expressions of Decrypt panic on a text shorter than a nonce.
  unfoldable pub open_sealed : Text → Text → Outcome Text
  open_sealed cipher_text key =
      if ltb (length cipher_text) nonce_size
      then panic
      else env.unseal key (take nonce_size cipher_text) (drop nonce_size cipher_text)

  unfoldable pub after_aead : Outcome (Unit {0}) → Text → Text → Outcome Text
  after_aead (ok _) cipher_text key = open_sealed cipher_text key
  after_aead (err e) cipher_text key = err e
  after_aead panic cipher_text key = panic

  -- Decrypt
  unfoldable pub decrypt : Text → Text → Outcome Text
  decrypt cipher_text key = after_aead (get_aead key) cipher_text key
