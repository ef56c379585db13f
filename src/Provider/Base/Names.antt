-- ===== src/Provider/Base/Names.antt =====
-- provider/base.go: team namespaces and stored replica counts.
use text.Mathlib.TextLemmas.{append_cancel_left}
use managed_services_lib.Common.{String, ◌≡◌, arith, eq_refl}
use managed_services_lib.Common.Int.{ℤ}
use managed_services_lib.Common.StringMap.{StringMap, put, lookup-put}
use managed_services_lib.Common.Decimal.{show_int}
use managed_services_lib.Common.Decimal.RoundTrip.{IsInt64, atoi-show_int}
use managed_services_lib.Provider.Base.{namespace_for_team, replicas_from_annotation}

-- Two teams never share a namespace.
pub namespace_for_team-injective :
    (a b : ℤ) → IsInt64 a → IsInt64 b → namespace_for_team a ≡ namespace_for_team b → a ≡ b
unfolding namespace_for_team
namespace_for_team-injective a b ha hb e =
    cc
      (atoi-show_int a ha, atoi-show_int b hb, append_cancel_left "rg-" (show_int a) (show_int b) e)

-- A replica count that was stored as a decimal under an annotation is read back, whatever other
-- annotations there are.
pub replicas_from_annotation-put :
    (annotations : StringMap String) (key : String) (n : ℤ)
    → IsInt64 n
    → replicas_from_annotation (put key (show_int n) annotations) key ≡ n
unfolding replicas_from_annotation
replicas_from_annotation-put annotations key n h =
    ground (arith, lookup-put key key (show_int n) annotations, eq_refl key, atoi-show_int n h)
