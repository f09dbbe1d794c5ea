-- ===== src/Partners/Operations.antt =====
-- `execute_partner` and `test_partner` of app/services/partner_integrations.py: one operation of a
-- partner, and the test of a configuration.
use text.Mathlib.Text.{◌==◌ as str_eq}
use thuso_wechat_ls.Base.{
  Bool, true, ◌||◌, Option, none, some, [], ◌∷◌, String, ◌<>◌, if◌then◌else◌, leb, zoom, Exec,
  Result, ok, err, pure, raise, lift, ◌>>=◌, ◌>>◌, runtime_error, attribute_error, http_error,
}
use thuso_wechat_ls.Base.Int.{pos}
use thuso_wechat_ls.Base.Dict.{Dict}
use thuso_wechat_ls.Base.Json.{
  Value, boolean, number, str, arr, obj, Fields, end, field, Python, get, get_else, truthy, or_else,
  set_field,
}
use thuso_wechat_ls.Partners.Template.{mapped_path}
use thuso_wechat_ls.Partners.Integrations.{PartnerIntegration}
use thuso_wechat_ls.Partners.World.{
  World, Wire, AdapterContext, AdapterResponse, request_call, Reply, unreachable, broken, answered,
}
use thuso_wechat_ls.Partners.Endpoints.{validate_endpoint}
use thuso_wechat_ls.Partners.Auth.{transmit}
use thuso_wechat_ls.Partners.Registry.{adapter_for}
use thuso_wechat_ls.Partners.Sftp.{Remote, Ssh, sftp_file}
use thuso_wechat_ls.Partners.Adapters.{rest_json, form_urlencoded, graphql, soap_xml}
use thuso_wechat_ls.Partners.Xml.{Element}

-- The process that the adapters work on.
pub record Session : Type 0 where
  pub wire : Wire
  pub remote : Remote

abbrev pub on_wire {ℓ} : {A : Type ℓ} → Exec Wire A → Exec Session A
on_wire = zoom (λ s. s.wire) (λ t s. record s { wire = t })

abbrev pub on_remote {ℓ} : {A : Type ℓ} → Exec Remote A → Exec Session A
on_remote = zoom (λ s. s.remote) (λ t s. record s { remote = t })

abbrev pub Adapters : Type 0
Adapters = Dict (AdapterContext → Fields → Exec Session AdapterResponse)

-- `AdapterRegistry.__init__`
abbrev pub built_in : Python → World → Ssh → (String → Option Element) → Adapters
built_in py w ssh parse_xml =
    ("rest_json", λ ctx payload. on_wire (rest_json py w ctx payload))
    ∷ ("form_urlencoded", λ ctx payload. on_wire (form_urlencoded py w ctx payload))
    ∷ ("graphql", λ ctx payload. on_wire (graphql py w ctx payload))
    ∷ ("soap_xml", λ ctx payload. on_wire (soap_xml py w parse_xml ctx payload))
    ∷ ("sftp_file", λ ctx payload. on_remote (sftp_file py w ssh ctx payload))
    ∷ []

module _ (py : Python) (w : World) (adapters : Adapters) where
  abbrev pub context_of :
      PartnerIntegration → (operation trace_id : String) → Fields → AdapterContext
  context_of config operation trace_id definition = record {
    base_url = config.base_url;
    operation = operation;
    trace_id = trace_id;
    timeout_seconds = config.timeout_seconds;
    request_defaults = config.request_defaults;
    operation_config = definition;
    auth_scheme = config.auth_scheme;
    auth_config = config.auth_config;
    secrets = config.secrets;
    allow_private_network = config.allow_private_network;
  }

  abbrev pub cons_field : String → Result Value → Result Fields → Result Fields
  cons_field k (err e m) rest = err e m
  cons_field k (ok v) (err e m) = err e m
  cons_field k (ok v) (ok fs) = ok (field k v fs)

  -- `{key: json_path(response.data, path) for key, path in mapping.items()}`
  unfoldable pub map_fields : Value → Fields → Result Fields
  map_fields v end = ok end
  map_fields v (field k path fs) = cons_field k (mapped_path py v path) (map_fields v fs)

  abbrev pub map_container : Value → Value → Result Fields
  map_container v (obj mapping) = map_fields v mapping
  map_container v other = err attribute_error "object has no attribute 'items'"

  abbrev pub apply_mapping : Value → Value → String → Result Fields
  apply_mapping mapping (obj fs) raw_text = map_container (obj fs) mapping
  apply_mapping mapping (arr l) raw_text = map_container (arr l) mapping
  apply_mapping mapping v raw_text = ok (field "raw" (str raw_text) end)

  abbrev pub unmapped : Value → Fields
  unmapped (obj fs) = fs
  unmapped v = field "data" v end

  unfoldable pub mapped_response : Value → AdapterResponse → Result Fields
  unfolding map_fields
  mapped_response mapping response =
      if truthy mapping
      then apply_mapping mapping response.body response.raw_text
      else ok (unmapped response.body)

  abbrev pub definition_of : String → Value → Result Fields
  definition_of operation (obj fs) = ok fs
  definition_of operation v = err runtime_error ("Partner operation not configured: " <> operation)

  unfoldable pub execute_partner :
      PartnerIntegration → (operation trace_id : String) → Fields → Exec Session (Fields × Bool)
  unfolding mapped_response
  execute_partner config operation trace_id payload = do
    lift (validate_endpoint w py config.base_url config.allow_private_network)
    definition ← lift (definition_of operation (get operation config.operation_configs))
    adapter ← lift (adapter_for config.adapter_type adapters)
    response ← adapter (context_of config operation trace_id definition) payload
    mapped ← lift (
        mapped_response
          (or_else (get operation config.response_mappings) (get "response_mapping" definition))
          response)
    pure (
      set_field "_status_code" (number (pos response.status_code))
          (set_field "_adapter" (str config.adapter_type) mapped),
      true,
    )

  abbrev pub first_operation : Fields → Option String
  first_operation end = none
  first_operation (field k v fs) = if str_eq k "" then none else some k

  abbrev pub tested : String → Value → Fields → Fields
  tested kind status rest =
      field "ok" (boolean true) (field "kind" (str kind) (field "status_code" status rest))

  abbrev pub health_reply : Reply → Exec Session Fields
  health_reply unreachable = raise http_error "connection failed"
  health_reply (broken m) = raise http_error m
  health_reply (answered status headers content) =
      if leb 400 status
      then raise runtime_error ("Partner health endpoint returned HTTP " <> w.decimal status)
      else pure (tested "health" (number (pos status)) end)

  abbrev pub check_health : PartnerIntegration → String → Exec Session Fields
  check_health config path =
      on_wire (
        transmit w (
          request_call "GET" (config.base_url <> path) none
            (("Accept", "application/json")
              ∷ ("X-NahaOS-Trace-Id", "nahaos-partner-health-test")
              ∷ [])
            config.timeout_seconds none))
      >>= health_reply

  abbrev pub test_operation : PartnerIntegration → Option String → Exec Session Fields
  test_operation config none =
      raise runtime_error "Configure a health endpoint or at least one operation before testing"
  test_operation config (some operation) = do
    result ← execute_partner config operation "00000000-0000-0000-0000-000000000001" end
    pure (
        tested operation (get_else "_status_code" (number (pos 200)) result.0)
          (field "adapter" (str config.adapter_type) end))

  abbrev pub health_path : PartnerIntegration → Option String
  health_path config = elim config.health_endpoint_path [
    | none ↦ none
    | some path ↦
        if str_eq path "" || str_eq config.adapter_type "sftp_file" then none else some path
  ]

  abbrev pub test_unnamed : PartnerIntegration → Option String → Exec Session Fields
  test_unnamed config (some path) = check_health config path
  test_unnamed config none = test_operation config (first_operation config.operation_configs)

  unfoldable pub test_partner : PartnerIntegration → Option String → Exec Session Fields
  unfolding execute_partner transmit
  test_partner config none = do
    lift (validate_endpoint w py config.base_url config.allow_private_network)
    test_unnamed config (health_path config)
  test_partner config (some operation) = do
    lift (validate_endpoint w py config.base_url config.allow_private_network)
    if str_eq operation ""
        then test_unnamed config (health_path config)
        else test_operation config (some operation)
