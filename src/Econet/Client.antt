-- ===== src/Econet/Client.antt =====
-- The calls of Econet's model: `_request` and `test_econet_config` of
-- app/services/econet_integration.py.
use Prim.Native.String.{slice, len}
use text.Mathlib.Text.{◌==◌ as str_eq}
use thuso_wechat_ls.Base.{
  ℕ, zero, suc, ◌-◌, Bool, true, false, Option, none, some, [], ◌∷◌, String, ◌<>◌, if◌then◌else◌,
  leb, Exec, Result, ok, err, pure, raise, lift, ◌>>=◌, ◌>>◌, runtime_error, http_error,
  decode_error, attribute_error,
}
use thuso_wechat_ls.Base.Dict.{union}
use thuso_wechat_ls.Base.Text.{split, count_opening}
use thuso_wechat_ls.Base.Json.{
  Value, null, boolean, number, str, arr, obj, Items, nil, cons, Fields, end, field, get, get_field,
  truthy, str_of,
}
use thuso_wechat_ls.Partners.Template.{substitute, is_reference, json_steps}
use thuso_wechat_ls.Partners.World.{Wire, Call, request_call, Reply, unreachable, broken, answered}
use thuso_wechat_ls.Partners.Auth.{transmit}
use thuso_wechat_ls.Partners.Requests.{pause, is_transient}
use thuso_wechat_ls.Econet.Config.{
  EconetIntegration, EconetEnv, validate_econet_endpoint, econet_auth_headers,
}

-- A response: its status and its body.
pub record EconetResponse : Type 0 where
  pub status_code : ℕ
  pub content : String

pub record EconetTest : Type 0 where
  pub kind : String
  pub status_code : ℕ
  pub content_preview : Option String

module _ (env : EconetEnv) where
  -- `_render_template` on a text: a reference to a variable gives its value as it is.
  abbrev pub econet_text : Fields → String → Option Value → Value
  econet_text variables node (some v) = v
  econet_text variables node none = str (substitute env.py variables node)

  abbrev pub econet_reference : Fields → String → Option Value
  econet_reference variables node =
      if is_reference node
      then get_field (env.py.strip (slice node 2 (len node - 2))) variables
      else none

  unfoldable mutual
    unfolding substitute count_opening get_field

    pub econet_render : Value → Fields → Value
    econet_render (obj fs) variables = obj (econet_render_fields fs variables)
    econet_render (arr l) variables = arr (econet_render_items l variables)
    econet_render (str s) variables = econet_text variables s (econet_reference variables s)
    econet_render null variables = null
    econet_render (boolean b) variables = boolean b
    econet_render (number n) variables = number n

    pub econet_render_items : Items → Fields → Items
    econet_render_items nil variables = nil
    econet_render_items (cons v l) variables =
        cons (econet_render v variables) (econet_render_items l variables)

    pub econet_render_fields : Fields → Fields → Fields
    econet_render_fields end variables = end
    econet_render_fields (field k v fs) variables =
        field k (econet_render v variables) (econet_render_fields fs variables)

  -- `_json_path`: an absent path gives `None`.
  unfoldable pub econet_json_path : Value → Value → Result Value
  unfolding json_steps
  econet_json_path v (str path) =
      if str_eq path "" then ok null else json_steps env.py path (split b'.' path) v
  econet_json_path v path =
      if truthy path then err attribute_error "object has no attribute 'split'" else ok null

  abbrev pub econet_conclude : ℕ → String → Exec Wire EconetResponse
  econet_conclude status content =
      if leb 400 status
      then raise runtime_error ("Econet AI returned HTTP " <> env.w.decimal status)
      else pure (record { status_code = status; content = content })

  -- One round of `for attempt in range(3)` on its reply, before the rounds that are left.
  unfoldable pub econet_round :
      ℕ → Option (Exec Wire EconetResponse) → Reply → Exec Wire EconetResponse
  econet_round attempt none unreachable = raise runtime_error "Unable to connect to Econet AI"
  econet_round attempt (some again) unreachable = pause attempt >> again
  econet_round attempt left (broken m) = raise http_error m
  econet_round attempt none (answered status headers content) = econet_conclude status content
  econet_round attempt (some again) (answered status headers content) =
      if is_transient status then (pause attempt >> again) else econet_conclude status content

  unfoldable pub econet_attempts : ℕ → Call → Exec Wire EconetResponse
  unfolding econet_round transmit
  econet_attempts zero c = transmit env.w c >>= econet_round 2 none
  econet_attempts (suc left) c =
      transmit env.w c >>= econet_round (1 - left) (some (econet_attempts left c))

  abbrev pub body_of : String → Option Value → Option String
  body_of method none = none
  body_of method (some v) =
      if str_eq (env.py.upper method) "GET" then none else some (env.compact v)

  unfoldable pub econet_request :
      EconetIntegration
      → (path method : String) → Option Value
      → (trace_id : String) → Exec Wire EconetResponse
  unfolding econet_attempts
  econet_request config path method body trace_id = do
    lift (validate_econet_endpoint env config.base_url config.allow_private_network)
    headers ← lift (econet_auth_headers env config)
    econet_attempts 2 (
        request_call method (config.base_url <> path) (body_of method body)
          (union (("Accept", "application/json") ∷ ("X-NahaOS-Trace-Id", trace_id) ∷ []) headers)
          config.timeout_seconds none)

  abbrev pub test_message : Value
  test_message =
      obj (
        field "role" (str "user") (field "content" (str "NahaOS connectivity test. Reply OK.") end))

  abbrev pub test_variables : EconetIntegration → Fields
  test_variables config = field "model" (str config.model) (
      field "messages" (arr (cons test_message nil)) (
        field "trace_id" (str "nahaos-smoke-test") (
          field "user_id" null (
            field "session_id" null
              (field "metadata" (obj (field "purpose" (str "connectivity_test") end)) end)))))

  abbrev pub health_test : EconetResponse → EconetTest
  health_test r = record { kind = "health"; status_code = r.status_code; content_preview = none }

  abbrev pub chat_result : EconetResponse → Value → Exec Wire EconetTest
  chat_result r content =
      if truthy content
      then pure (record {
        kind = "chat";
        status_code = r.status_code;
        content_preview = some (slice (str_of env.py content) 0 120);
      })
      else raise runtime_error "Econet AI smoke test returned no assistant content"

  abbrev pub response_json : String → Result Value
  response_json content = elim (env.py.loads content) [
    | none ↦ err decode_error "Expecting value"
    | some v ↦ ok v
  ]

  unfoldable pub chat_test : EconetIntegration → Exec Wire EconetTest
  unfolding econet_render econet_request econet_json_path
  chat_test config = do
    r ←
        econet_request config config.chat_endpoint_path "POST"
          (some (econet_render (obj config.request_template) (test_variables config)))
          "nahaos-smoke-test"
    v ← lift (response_json r.content)
    content ← lift (econet_json_path v (get "content_path" config.response_mapping))
    chat_result r content

  -- The health endpoint, where there is one and the chat is not asked for.
  abbrev pub tested_path : Bool → Option String → Option String
  tested_path true path = none
  tested_path false none = none
  tested_path false (some path) = if str_eq path "" then none else some path

  abbrev pub test_at : EconetIntegration → Option String → Exec Wire EconetTest
  test_at config none = chat_test config
  test_at config (some path) = do
    r ← econet_request config path "GET" none "nahaos-health-check"
    pure (health_test r)

  unfoldable pub test_econet_config : EconetIntegration → (smoke_chat : Bool) → Exec Wire EconetTest
  unfolding chat_test
  test_econet_config config smoke_chat =
      lift (validate_econet_endpoint env config.base_url config.allow_private_network)
      >> test_at config (tested_path smoke_chat config.health_endpoint_path)
