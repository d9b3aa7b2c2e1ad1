-- ===== src/Tests/Kube.antt =====
-- The laws of World/Laws for the small world.
use bke_console_service.Prelude.{
  ℕ, zero, suc, ◌≡◌, ◌≢◌, refl, sym, ap, ◌∙◌, append-nil, List, [], ◌∷◌, ◌++◌, arith, length,
}
use bke_console_service.Text.{Text}
use bke_console_service.Text.Equality.{text_eq_iff, text_eq_refl}
use bke_console_service.World.{Outcome, ok, Secret}
use bke_console_service.World.Laws.{IsCipher, IsKube, remove_named}
use bke_console_service.Tests.{in_namespace, secret_named, without_secret, zeros, test_env}

length-zeros : (n : ℕ) → length (zeros n) ≡ n
unfolding zeros
length-zeros zero = refl
length-zeros (suc n) = ground (arith, length-zeros n)

in_namespace-append :
    (s : Secret) (c : List Secret)
    → in_namespace s.namespace (c ++ s ∷ []) ≡ in_namespace s.namespace c ++ s ∷ []
unfolding in_namespace
in_namespace-append s [] = ground (arith, text_eq_refl s.namespace)
in_namespace-append s (t ∷ c) = ground (arith, in_namespace-append s c)

secret_named-append :
    (s : Secret) (ns name : Text) (c : List Secret)
    → ns ≢ s.namespace
    → secret_named ns name (c ++ s ∷ []) ≡ secret_named ns name c
unfolding secret_named
secret_named-append s ns name [] h = ground (arith, text_eq_iff s.namespace ns)
secret_named-append s ns name (t ∷ c) h = ground (arith, secret_named-append s ns name c h)

in_namespace-without :
    (ns name : Text) (c : List Secret)
    → in_namespace ns (without_secret ns name c) ≡ remove_named name (in_namespace ns c)
unfolding in_namespace without_secret remove_named
in_namespace-without ns name [] = refl
in_namespace-without ns name (t ∷ c) = ground (arith, in_namespace-without ns name c)

secret_named-without :
    (ns name other key : Text) (c : List Secret)
    → other ≢ ns
    → secret_named other key (without_secret ns name c) ≡ secret_named other key c
unfolding secret_named without_secret
secret_named-without ns name other key [] h = refl
secret_named-without ns name other key (t ∷ c) h = ground (
  arith,
  secret_named-without ns name other key c h,
  text_eq_iff t.namespace ns,
  text_eq_iff t.namespace other,
)

pub test_env-IsCipher : IsCipher test_env
test_env-IsCipher = record {
  unseal-seal = λ key nonce plain. refl;
  random_length = λ i n bytes e. ap length (ok-eq bytes n e) ∙ length-zeros n;
}
  where
    ok-eq : (bytes : Text) (n : ℕ) → (ok (zeros n) ≡ ok bytes) → bytes ≡ zeros n
    ok-eq bytes n e = ground arith

snd-eq : (a b : List Secret) → Path (Outcome (Unit {0}) × List Secret) (ok tt, a) (ok tt, b) → b ≡ a
snd-eq a b e = sym (ap (λ p. p.1) e)

list-eq : (xs ys : List Secret) → ok xs ≡ ok ys → ys ≡ xs
list-eq xs ys e = ground arith

pub test_env-IsKube : IsKube test_env
test_env-IsKube = record {
  created_listed = λ s c c' xs made lists. (
    xs,
    [],
    sym (append-nil xs),
    ap (λ d. ok (in_namespace s.namespace d)) (snd-eq _ _ made)
        ∙ ap ok (in_namespace-append s c ∙ ap (λ ys. ys ++ s ∷ []) (sym (list-eq _ _ lists))),
  );
  created_elsewhere = λ s c c' ns name made h.
      ap (secret_named ns name) (snd-eq _ _ made) ∙ secret_named-append s ns name c h;
  deleted_listed = λ ns name c c' xs gone lists.
      ap (λ d. ok (in_namespace ns d)) (snd-eq _ _ gone)
      ∙ ap ok (in_namespace-without ns name c ∙ ap (remove_named name) (sym (list-eq _ _ lists)));
  deleted_elsewhere = λ ns name other key c c' gone h.
      ap (secret_named other key) (snd-eq _ _ gone) ∙ secret_named-without ns name other key c h;
}
