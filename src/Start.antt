-- ===== src/Start.antt =====
-- The start of the process: what its steps run on and how they end. Server is
-- pkg/server/runtime/serverconfig.go, Kube is pkg/client/k8s, and Main is cmd/main.go,
-- cmd/config/runcfg.go and the construction of the server in pkg/server/server.go,
-- and Run is what its function Run binds before it listens.
pub mod Server
pub mod Kube
pub mod Main
pub mod Serving
pub mod Run
use bke_console_service.Prelude.{
  ℕ, ◌≡◌, refl, Bool, true, false, List, [], ◌∷◌, ◌++◌, Option, none, some, if◌then◌else◌,
}
use bke_console_service.Text.{Text}
use bke_console_service.World.{Outcome, ok, err, panic, FileStatus, there, missing, unreadable}

-- A step of the start returns, returns an error, ends the process by zlog.Fatalf, or panics.
pub data Process {ℓ} (A : Type ℓ) : Type ℓ where
  returns : A → Process A
  fails : Text → Process A
  exits : Process A
  crashes : Process A

module _ {ℓ κ} {A : Type ℓ} {B : Type κ} where
  infixl 5 ◌>>=◌
  abbrev pub ◌>>=◌ : Process A → (A → Process B) → Process B
  returns a >>= f = f a
  fails e >>= f = fails e
  exits >>= f = exits
  crashes >>= f = crashes

  -- A computation that returned went through both of its parts.
  pub >>=-eq-returns :
      (m : Process A) (f : A → Process B) (b : B)
      → (m >>= f) ≡ returns b
      → (a : A) × (m ≡ returns a) × (f a ≡ returns b)
  >>=-eq-returns (returns a) f b e = (a, refl, e)
  >>=-eq-returns (fails x) f b e = cc
  >>=-eq-returns exits f b e = cc
  >>=-eq-returns crashes f b e = cc

-- A library call whose error is passed on.
abbrev pub passed_on {ℓ} : {A : Type ℓ} → Outcome A → Process A
passed_on (ok a) = returns a
passed_on (err e) = fails e
passed_on panic = crashes

-- An error at which main ends the process.
abbrev pub or_fatal {ℓ} : {A : Type ℓ} → Process A → Process A
or_fatal (returns a) = returns a
or_fatal (fails e) = exits
or_fatal exits = exits
or_fatal crashes = crashes

-- rest.Config, with the fields that the service sets
pub record RestConfig : Type 0 where
  pub host : Text
  pub qps : ℕ
  pub burst : ℕ

-- The machine that the process starts on: its files, its users, and what the client libraries make
-- of a configuration.
pub record Machine : Type 0 where
  pub stat : Text → FileStatus
  pub read_file : Text → Outcome Text
  pub load_key_pair : Text → Text → Outcome (Unit {0})
  pub home_dir : Text
  pub user_home : Outcome Text
  pub in_cluster_config : Outcome RestConfig
  pub config_from_file : Text → Outcome RestConfig
  pub new_clientset : RestConfig → Outcome (Unit {0})
  pub new_snapshot_client : RestConfig → Outcome (Unit {0})
  pub new_extensions_client : RestConfig → Outcome (Unit {0})

-- An error of a validation: one that the service words itself, or that of os.Stat.
pub data ConfigError : Type 0 where
  said : Text → ConfigError
  stat_failed : Text → ConfigError

-- os.Stat without an error
abbrev pub is_there : FileStatus → Bool
is_there there = true
is_there missing = false
is_there (unreadable e) = false
