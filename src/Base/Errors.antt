-- ===== src/Base/Errors.antt =====
-- Go's error values: sentinels, texts, `fmt.Errorf` with `%w`, and `errors.Join`.
use Prim.Native.String.{String, ◌++◌}
use mathlib.Core.Bool.{Bool, true, false, ◌||◌}
use mathlib.Core.Path.{◌≡◌}
use native.Mathlib.Omega.{arith}

-- `object_not_found` is what `apierrors.IsNotFound` recognises.
pub data Sentinel : Type 0 where
  object_not_found missing_kube_project container_not_found peer_not_found user_not_found : Sentinel

pub data GoError : Type 0 where
  sentinel : Sentinel → GoError
  plain : String → GoError
  wrap : String → GoError → GoError
  joined : GoError → GoError → GoError

abbrev pub same_sentinel : Sentinel → Sentinel → Bool
same_sentinel object_not_found object_not_found = true
same_sentinel missing_kube_project missing_kube_project = true
same_sentinel container_not_found container_not_found = true
same_sentinel peer_not_found peer_not_found = true
same_sentinel user_not_found user_not_found = true
same_sentinel _ _ = false

-- `errors.Is`
abbrev pub errors_is : GoError → Sentinel → Bool
errors_is (sentinel s) t = same_sentinel s t
errors_is (plain m) t = false
errors_is (wrap m e) t = errors_is e t
errors_is (joined e f) t = errors_is e t || errors_is f t

abbrev pub sentinel_text : Sentinel → String
sentinel_text object_not_found = "not found"
sentinel_text missing_kube_project = "missing Kubernetes Atlas Project"
sentinel_text container_not_found = "not found"
sentinel_text peer_not_found = "not found"
sentinel_text user_not_found = "database user not found"

-- `err.Error()`
abbrev pub error_text : GoError → String
error_text (sentinel s) = sentinel_text s
error_text (plain m) = m
error_text (wrap m e) = m ++ (": " ++ error_text e)
error_text (joined e f) = error_text e ++ ("\n" ++ error_text f)

-- What a call answers: a value or an error.
pub data Answer {ℓ} (A : Type ℓ) : Type ℓ where
  ok : A → Answer A
  err : GoError → Answer A

pub ok_injective : {A : Type 0} (x y : A) → ok x ≡ ok y → x ≡ y
ok_injective x y h = ground (arith, h)
