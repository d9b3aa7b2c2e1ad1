-- ===== src/World/Steps.antt =====
-- Sequencing of effectful code, and the calls of the outside world.
use bke_console_service.Prelude.{ℕ, suc, ◌≡◌, refl, List, [], ◌∷◌, ◌++◌}
use bke_console_service.Text.{Text}
use bke_console_service.World.{
  Outcome, ok, err, panic, Returned, value, error, Go, World, Env, Action, Secret, Time, Dict,
  FileStatus,
}

abbrev pub inspect : {A : Type 0} → Outcome A → Outcome (Returned A)
inspect (ok a) = ok (value a)
inspect (err e) = ok (error e)
inspect panic = panic

module _ {S A : Type 0} where
  abbrev pub pure : A → Go S A
  pure a w = (ok a, w)

  abbrev pub raise : Text → Go S A
  raise e w = (err e, w)

  -- A nil pointer is dereferenced, or a slice bound is out of range.
  abbrev pub crash : Go S A
  crash w = (panic, w)

  abbrev pub lift : Outcome A → Go S A
  lift r w = (r, w)

  -- A call whose error the caller inspects.
  abbrev pub attempt : Go S A → Go S (Returned A)
  attempt m w = let (r, w') = m w in (inspect r, w')

module _ {S A B : Type 0} where
  abbrev pub continue : Outcome A → (A → Go S B) → Go S B
  continue (ok a) f w = f a w
  continue (err e) f w = (err e, w)
  continue panic f w = (panic, w)

  infixl 5 ◌>>=◌ ◌>>◌
  abbrev pub ◌>>=◌ : Go S A → (A → Go S B) → Go S B
  ◌>>=◌ m f w = let (r, w') = m w in continue r f w'

  abbrev pub ◌>>◌ : Go S A → Go S B → Go S B
  m >> n = m >>= λ _. n

  -- A computation that returned went through both of its parts.
  pub >>=-eq-ok :
      (m : Go S A) (f : A → Go S B) (w w'' : World S) (b : B)
      → (m >>= f) w ≡ (ok b, w'')
      → (a : A) × (w' : World S) × (m w ≡ (ok a, w')) × (f a w' ≡ (ok b, w''))
  >>=-eq-ok m f w w'' b e = go (m w).0 (m w).1 refl e
    where
      go :
          (r : Outcome A) (w' : World S)
          → m w ≡ (r, w')
          → continue r f w' ≡ (ok b, w'')
          → (a : A) × (w' : World S) × (m w ≡ (ok a, w')) × (f a w' ≡ (ok b, w''))
      go (ok a) w' q e = (a, w', q, e)
      go (err x) w' q e = cc
      go panic w' q e = cc

module _ {S : Type 0} where
  -- One more action on the response.
  abbrev pub act : Action → Go S (Unit {0})
  act a w = (ok tt, record w { reply = w.reply ++ a ∷ [] })

module _ {S : Type 0} (env : Env S) where
  abbrev pub count_call : World S → World S
  count_call w = record w { calls = suc w.calls }

  -- io.ReadFull(rand.Reader, …)
  abbrev pub read_random : ℕ → Go S Text
  read_random n w = (env.random w.calls n, count_call w)

  abbrev pub new_uuid : Go S Text
  new_uuid w = (ok (env.uuid w.calls), count_call w)

  abbrev pub now : Go S Time
  now w = (ok (env.clock w.calls), count_call w)

  -- os.Stat, on a file
  abbrev pub stat_of : Text → Go S FileStatus
  stat_of file w = (ok (env.stat w.calls file), count_call w)

  -- tls.LoadX509KeyPair
  abbrev pub key_pair_of : Text → Text → Go S (Unit {0})
  key_pair_of cert key w = (env.load_key_pair w.calls cert key, count_call w)

  -- os.ReadFile
  abbrev pub content_of : Text → Go S Text
  content_of file w = (env.read_file w.calls file, count_call w)

  abbrev pub secret_of : Text → Text → Go S Secret
  secret_of namespace name w = (env.get_secret namespace name w.cluster, w)

  abbrev pub secrets_of : Text → Go S (List Secret)
  secrets_of namespace w = (env.list_secrets namespace w.cluster, w)

  -- GetConfigMap of pkg/utils/k8sutil/k8sutil.go
  abbrev pub config_map_of : Text → Text → Go S (Dict Text)
  config_map_of namespace name w = (env.get_config_map namespace name w.cluster, w)

  abbrev pub create : Secret → Go S (Unit {0})
  create s w = let (r, c) = env.create_secret s w.cluster in (r, record w { cluster = c })

  abbrev pub delete : Text → Text → Go S (Unit {0})
  delete namespace name w =
      let (r, c) = env.delete_secret namespace name w.cluster in (r, record w { cluster = c })
