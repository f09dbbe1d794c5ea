-- ===== src/Econet/Console.antt =====
-- The routes of app/api/admin.py for the integration of Econet. Each request runs by itself, by an
-- administrator whom `require_admin_write` let through.
pub mod Laws
use Prim.Native.String.{slice}
use text.Mathlib.Text.{◌==◌ as str_eq}
use thuso_wechat_ls.Base.{
  ℕ, Bool, true, false, not, ◌&&◌, ◌||◌, Option, none, some, List, [], ◌∷◌, ◌++◌, ◌==◌, String,
  if◌then◌else◌, Exec, Result, ok, err, Kind, value_error, http_status,
}
use thuso_wechat_ls.Base.Uuid.{uuid_text}
use thuso_wechat_ls.Base.Json.{Fields, end, field, str}
use thuso_wechat_ls.Partners.World.{Wire}
use thuso_wechat_ls.Econet.Config.{
  EconetIntegration, IntegrationConfig, EconetConfigIn, EconetEnv, get_saved_econet_config,
}
use thuso_wechat_ls.Econet.Saving.{save_econet_config}
use thuso_wechat_ls.Econet.Client.{EconetTest, test_econet_config}

-- A row of `admin_audit_events`.
pub record ConsoleEvent : Type 0 where
  pub admin_id : String
  pub action : String
  pub target_id : String
  pub details : Fields

pub record Console : Type 0 where
  pub saved : Option IntegrationConfig
  pub audits : List ConsoleEvent
  pub wire : Wire

abbrev pub audited : String → String → String → Fields → Console → List ConsoleEvent
audited admin_id action target_id details s =
    s.audits
    ++ (record { admin_id = admin_id; action = action; target_id = target_id; details = details }
        ∷ [])

abbrev pub provider_details : Fields → Fields
provider_details details = field "provider" (str "econet-ai") details

abbrev pub change_row :
    (IntegrationConfig → IntegrationConfig) → Option IntegrationConfig → Option IntegrationConfig
change_row f none = none
change_row f (some row) = some (f row)

abbrev pub enable : String → IntegrationConfig → IntegrationConfig
enable admin_id row = record row { enabled = true; updated_by = admin_id }

abbrev pub disable : String → IntegrationConfig → IntegrationConfig
disable admin_id row = record row { enabled = false; updated_by = admin_id }

abbrev pub mark_passed : ℕ → String → IntegrationConfig → IntegrationConfig
mark_passed now kind row = record row {
  last_test_at = some now;
  last_test_status = some "passed";
  last_test_kind = some kind;
  last_test_error = none;
}

abbrev pub mark_failed : ℕ → String → String → IntegrationConfig → IntegrationConfig
mark_failed now kind error row = record row {
  last_test_at = some now;
  last_test_status = some "failed";
  last_test_kind = some kind;
  last_test_error = some (slice error 0 500);
}

abbrev pub is_scheme : String → Bool
is_scheme scheme =
    str_eq scheme "bearer"
    || str_eq scheme "api-key"
    || str_eq scheme "basic"
    || str_eq scheme "custom"
    || str_eq scheme "none"

-- `status != expected`, of a column that may be null
abbrev pub is_text : String → Option String → Bool
is_text expected none = false
is_text expected (some s) = str_eq s expected

abbrev pub has_passed : EconetIntegration → Bool
has_passed config = is_text "passed" config.last_test_status && is_text "chat" config.last_test_kind

module _ (env : EconetEnv) where
  -- Behind any error the transaction is rolled back; a `ValueError` is answered with 422.
  abbrev pub refused_save : Kind → String → Result ℕ
  refused_save Kind.value_error m = err (http_status 422) m
  refused_save k m = err k m

  abbrev pub saved_as : String → Result ℕ × Option IntegrationConfig → Exec Console ℕ
  saved_as admin_id (ok id, saved) s = (
    ok id,
    record s {
      saved = saved;
      audits =
          audited admin_id "integration.save" (uuid_text id)
            (provider_details (field "environment" (str "production") end)) s;
    },
  )
  saved_as admin_id (err k m, saved) s = (refused_save k m, s)

  unfoldable pub put_econet :
      (new_id : ℕ) (nonce admin_id : String) → EconetConfigIn → Exec Console ℕ
  put_econet new_id nonce admin_id body s =
      if is_scheme body.auth_scheme
      then saved_as admin_id (save_econet_config env new_id nonce admin_id body s.saved) s
      else (err (http_status 422) "Unsupported auth scheme", s)

  -- The outcome of the test is written to the row, and a failure is answered with 502.
  abbrev pub record_test :
      (now : ℕ) (smoke_chat : Bool) (admin_id target_id : String)
      → Result EconetTest × Wire
      → Exec Console EconetTest
  record_test now smoke_chat admin_id target_id (ok result, wire) s = (
    ok result,
    record {
      saved = change_row (mark_passed now result.kind) s.saved;
      audits =
          audited admin_id "integration.test" target_id
            (provider_details (field "kind" (str result.kind) end)) s;
      wire = wire;
    },
  )
  record_test now smoke_chat admin_id target_id (err k m, wire) s = (
    err (http_status 502) "Econet integration test failed",
    record s {
      saved = change_row (mark_failed now (if smoke_chat then "chat" else "health") m) s.saved;
      wire = wire;
    },
  )

  abbrev pub test_saved :
      (now : ℕ) (smoke_chat : Bool) (admin_id : String)
      → Result (Option (EconetIntegration × Fields))
      → Exec Console EconetTest
  test_saved now smoke_chat admin_id (err k m) s = (err k m, s)
  test_saved now smoke_chat admin_id (ok none) s =
      (err (http_status 404) "Econet integration has not been configured", s)
  test_saved now smoke_chat admin_id (ok (some (config, secrets))) s =
      record_test now smoke_chat admin_id config.id
        (test_econet_config env config smoke_chat s.wire) s

  unfoldable pub test_econet :
      (now : ℕ) (smoke_chat : Bool) (admin_id : String) → Exec Console EconetTest
  test_econet now smoke_chat admin_id s =
      test_saved now smoke_chat admin_id (get_saved_econet_config env s.saved).0 s

  abbrev pub activate_saved :
      (admin_id : String) → Result (Option (EconetIntegration × Fields)) → Exec Console String
  activate_saved admin_id (err k m) s = (err k m, s)
  activate_saved admin_id (ok none) s =
      (err (http_status 404) "Econet integration has not been configured", s)
  activate_saved admin_id (ok (some (config, secrets))) s =
      if has_passed config
      then (
        ok "econet-ai",
        record s {
          saved = change_row (enable admin_id) s.saved;
          audits = audited admin_id "integration.activate" config.id (provider_details end) s;
        },
      )
      else (err (http_status 409) "Run and pass an AI request test before activation", s)

  unfoldable pub activate_econet : (admin_id : String) → Exec Console String
  activate_econet admin_id s = activate_saved admin_id (get_saved_econet_config env s.saved).0 s

  abbrev pub deactivate_saved :
      (admin_id : String) → Result (Option (EconetIntegration × Fields)) → Exec Console String
  deactivate_saved admin_id (err k m) s = (err k m, s)
  deactivate_saved admin_id (ok none) s = (ok "demo", s)
  deactivate_saved admin_id (ok (some (config, secrets))) s = (
    ok "demo",
    record s {
      saved = change_row (disable admin_id) s.saved;
      audits = audited admin_id "integration.deactivate" config.id (provider_details end) s;
    },
  )

  unfoldable pub deactivate_econet : (admin_id : String) → Exec Console String
  deactivate_econet admin_id s = deactivate_saved admin_id (get_saved_econet_config env s.saved).0 s
