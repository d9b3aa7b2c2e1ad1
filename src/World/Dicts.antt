-- ===== src/World/Dicts.antt =====
-- Reading a map after a write or a deletion.
use bke_console_service.Prelude.{◌≡◌, refl, [], ◌∷◌, arith, none, some, if◌then◌else◌}
use bke_console_service.Text.{Text, text_eq}
use bke_console_service.Text.Equality.{text_eq_iff, text_eq_refl}
use bke_console_service.World.{Dict, get?, put, without}

module _ {ℓ} {V : Type ℓ} where
  pub get?-put :
      (k j : Text) (v : V) (m : Dict V)
      → get? j (put k v m) ≡ (if text_eq k j then some v else get? j m)
  unfolding get? put
  get?-put k j v [] = refl
  get?-put k j v ((i, u) ∷ m) =
      ground (arith, get?-put k j v m, text_eq_iff k j, text_eq_iff i k, text_eq_iff i j)

  pub get?-put_self : (k : Text) (v : V) (m : Dict V) → get? k (put k v m) ≡ some v
  get?-put_self k v m = rw (get?-put k k v m) (rw (text_eq_refl k) refl)

  pub get?-without :
      (k j : Text) (m : Dict V) → get? j (without k m) ≡ (if text_eq k j then none else get? j m)
  unfolding get? without
  get?-without k j [] = ground arith
  get?-without k j ((i, u) ∷ m) =
      ground (arith, get?-without k j m, text_eq_iff k j, text_eq_iff i k, text_eq_iff i j)
