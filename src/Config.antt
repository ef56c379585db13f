-- ===== src/Config.antt =====
-- config/config.go. `os.Getenv` is the function `env`, empty for a variable that is not set.
pub mod Port
use managed_services_lib.Common.{String, Bool, not, Option, none, some, ◌==◌, if◌then◌else◌}
use managed_services_lib.Common.Decimal.{atoi}
use managed_services_lib.Common.Int.{ℤ, pos}

pub record Config : Type 0 where
  pub port : ℤ
  pub api_key : String
  pub kubeconfig : String
  pub environment : String

unfoldable pub is_development : Config → Bool
is_development c = c.environment == "development"

unfoldable pub is_production : Config → Bool
is_production c = c.environment == "production"

module _ (env : String → String) where
  unfoldable pub get_env : String → String → String
  get_env key default_value = if not (env key == "") then env key else default_value

  unfoldable pub get_env_int : String → ℤ → ℤ
  get_env_int key default_value =
      if not (env key == "")
      then elim (atoi (env key)) [ some n ↦ n | none ↦ default_value ]
      else default_value

  unfoldable pub load : Config
  load = record {
    port = get_env_int "PORT" (pos 8080);
    api_key = get_env "API_KEY" "";
    kubeconfig = get_env "KUBECONFIG" "";
    environment = get_env "ENVIRONMENT" "development";
  }
