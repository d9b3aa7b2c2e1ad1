-- ===== src/Secure/RoundTrip.antt =====
-- Decryption against encryption, and the texts on which decryption panics.
use bke_console_service.Prelude.{
  ◌<◌, ◌≡◌, ◌≢◌, ◌↔◌, refl, sym, ap, ◌∙◌, false, [], ◌∷◌, ◌++◌, arith, ltb, length, take, drop,
  take-append, drop-append, length-append, All,
}
use bke_console_service.Text.{Text}
use bke_console_service.World.{payload, ok, panic, World, Env}
use bke_console_service.World.Steps.{count_call}
use mathlib.Core.Path.{ap₂}
use bke_console_service.World.Laws.{IsCipher}
use bke_console_service.Secure.{
  clear_byte, nonce_size, get_aead, encrypt, open_sealed, after_aead, decrypt,
}

-- After clearing, a buffer has its old length and holds only zeros.
pub clear_byte_zeros :
    (value : Text)
    → (length (clear_byte value) ≡ length value) × All (λ b. b ≡ 0) (clear_byte value)
unfolding clear_byte
clear_byte_zeros [] = (refl, tt)
clear_byte_zeros (b ∷ value) = let (l, z) = clear_byte_zeros value in (omega arith, (refl, z))

-- A key that AES takes.
abbrev pub IsKey : Text → Type 0
IsKey key = get_aead key ≡ ok tt

module _ {S : Type 0} (env : Env S) where
  open_sealed-append :
      (nonce sealed key : Text)
      → length nonce ≡ nonce_size
      → open_sealed env (nonce ++ sealed) key ≡ env.unseal key nonce sealed
  unfolding open_sealed
  open_sealed-append nonce sealed key h =
      let long : ltb (length (nonce ++ sealed)) nonce_size ≡ false =
        ground (arith, length-append nonce sealed) in
      rw long (
        let e = ap (λ n. take n (nonce ++ sealed)) (sym h) ∙ take-append nonce sealed in
        let d = ap (λ n. drop n (nonce ++ sealed)) (sym h) ∙ drop-append nonce sealed in
        ap₂ (env.unseal key) e d)

  -- The panics of decryption are on texts shorter than a nonce, under a key that AES takes.
  pub decrypt-panic_iff :
      (cipher key : Text)
      → ((plain nonce text : Text) → env.unseal plain nonce text ≢ panic)
      → (decrypt env cipher key ≡ panic) ↔ (IsKey key × (length cipher < nonce_size))
  unfolding decrypt get_aead after_aead open_sealed
  decrypt-panic_iff cipher key h =
      ground (arith, h key (take nonce_size cipher) (drop nonce_size cipher))

  module _ (cipher : IsCipher env) where
    -- An encryption that returned had a key that AES takes, and put a nonce before the sealed text.
    pub encrypt-eq-ok :
        (plain key sealed : Text) (w w' : World S)
        → encrypt env plain key w ≡ (ok sealed, w')
        → IsKey key
          × (length (payload (env.random w.calls nonce_size)) ≡ nonce_size)
          × (sealed
              ≡ payload (env.random w.calls nonce_size)
                ++ env.seal key (payload (env.random w.calls nonce_size)) plain)
          × (w' ≡ count_call env w)
    unfolding encrypt
    encrypt-eq-ok plain key sealed w w' e =
        ground
          (arith, cipher.random_length w.calls nonce_size (payload (env.random w.calls nonce_size)))

    -- What encryption returns is decrypted to the plain text under the same key, and encryption
    -- changes nothing but the count of calls.
    pub decrypt-encrypt :
        (plain key sealed : Text) (w w' : World S)
        → encrypt env plain key w ≡ (ok sealed, w')
        → (decrypt env sealed key ≡ ok plain) × (w' ≡ count_call env w)
    unfolding decrypt after_aead
    decrypt-encrypt plain key sealed w w' e =
        let (keyed, sized, made, left) = encrypt-eq-ok plain key sealed w w' e in
        let nonce = payload (env.random w.calls nonce_size) in
        (
          rw (keyed, made)
              (open_sealed-append nonce (env.seal key nonce plain) key sized
                ∙ cipher.unseal-seal key nonce plain),
          left,
        )
