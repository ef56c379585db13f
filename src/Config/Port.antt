-- ===== src/Config/Port.antt =====
-- config/config.go: how `Load` reads the port.
use managed_services_lib.Common.{String, ◌≡◌, refl, none, eq_iff, arith}
use managed_services_lib.Common.Int.{ℤ}
use managed_services_lib.Common.Decimal.{atoi, show_int}
use managed_services_lib.Common.Decimal.RoundTrip.{IsInt64, atoi-show_int}
use managed_services_lib.Config.{load, get_env_int}

atoi_nil : atoi "" ≡ none
unfolding atoi
atoi_nil = refl

-- `Load` takes the port that `PORT` spells in decimal, for every `int`, whatever the other variables.
pub load-port :
    (env : String → String) (n : ℤ) → IsInt64 n → env "PORT" ≡ show_int n → (load env).port ≡ n
unfolding load get_env_int
load-port env n h e = ground (arith, atoi-show_int n h, eq_iff (env "PORT") "", atoi_nil)
