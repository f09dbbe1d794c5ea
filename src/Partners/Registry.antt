-- ===== src/Partners/Registry.antt =====
-- `AdapterRegistry` of app/integrations/universal_adapter.py. What an adapter is, is a parameter.
pub mod Laws
use text.Mathlib.Text.{◌==◌ as str_eq}
use thuso_wechat_ls.Base.{
  Bool, ◌||◌, Option, none, some, String, ◌<>◌, if◌then◌else◌, is_some, Exec, Result, ok, err, pure,
  value_error, runtime_error,
}
use thuso_wechat_ls.Base.Dict.{Dict, lookup, insert}

module _ {ℓ} {A : Type ℓ} where
  unfoldable pub register : String → A → Exec (Dict A) (Unit {0})
  register key adapter adapters =
      if str_eq key "" || is_some (lookup key adapters)
      then (err value_error "adapter key must be non-empty and unique", adapters)
      else (ok tt, insert key adapter adapters)

  abbrev pub known : String → Option A → Result A
  known key none = err runtime_error ("Unsupported partner adapter: " <> key)
  known key (some adapter) = ok adapter

  unfoldable pub adapter_for : String → Dict A → Result A
  adapter_for key adapters = known key (lookup key adapters)
