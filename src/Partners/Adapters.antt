-- ===== src/Partners/Adapters.antt =====
-- The adapters for JSON, forms, GraphQL and SOAP of app/integrations/universal_adapter.py: their
-- `execute`, from the payload to the response.
use text.Mathlib.Text.{◌==◌ as str_eq}
use thuso_wechat_ls.Base.{
  Option, none, some, String, if◌then◌else◌, Exec, Result, ok, err, pure, raise, lift, ◌>>=◌, ◌>>◌,
  runtime_error, type_error, attribute_error, decode_error,
}
use thuso_wechat_ls.Base.Dict.{Dict, insert}
use thuso_wechat_ls.Base.Json.{
  Value, str, obj, Fields, end, field, Python, get, truthy, or_else, merge, str_of, text_field,
}
use thuso_wechat_ls.Partners.Template.{render}
use thuso_wechat_ls.Partners.World.{World, Wire, AdapterContext, AdapterResponse}
use thuso_wechat_ls.Partners.Endpoints.{path_from_config}
use thuso_wechat_ls.Partners.Auth.{auth_headers, texts_of}
use thuso_wechat_ls.Partners.Requests.{request}
use thuso_wechat_ls.Partners.Xml.{Element, element_to_dict}

-- `async def execute(self, ctx, payload)`
abbrev pub Adapter : Type 0
Adapter = AdapterContext → Fields → Exec Wire AdapterResponse

-- `{"raw": raw_text}`
abbrev pub raw_body : String → Value
raw_body content = obj (field "raw" (str content) end)

abbrev pub with_body : AdapterResponse → Value → AdapterResponse
with_body r v = record r { body = v }

-- `{**defaults, **template}`
abbrev pub spread : Fields → Value → Result Fields
spread defaults (obj fs) = ok (merge defaults fs)
spread defaults v = err type_error "argument after ** must be a mapping"

module _ (py : Python) (w : World) where
  abbrev pub template_variables : Fields → AdapterContext → Fields
  template_variables payload ctx =
      field "trace_id" (str ctx.trace_id)
        (field "operation" (str ctx.operation) (field "payload" (obj payload) end))

  unfoldable pub render_payload : Value → Fields → AdapterContext → Value
  render_payload node payload ctx = render py node (template_variables payload ctx)

  -- `str(ctx.operation_config.get("method", "POST")).upper()`
  abbrev pub method_of : AdapterContext → String
  method_of ctx = py.upper (text_field py "method" "POST" ctx.operation_config)

  abbrev pub or_raw : Option Value → String → Value
  or_raw none content = raw_body content
  or_raw (some v) content = v

  -- `response.raw_text and json.loads(response.raw_text)`, or the raw text where that is no JSON
  abbrev pub json_or_raw : String → Value
  json_or_raw content = if str_eq content "" then str "" else or_raw (py.loads content) content

  abbrev pub or_empty : Option String → String
  or_empty none = ""
  or_empty (some body) = body

  -- The credentials, then the call with them.
  unfoldable pub call_with_auth :
      AdapterContext → (method path : String) → Option String → String → Exec Wire AdapterResponse
  call_with_auth ctx method path body content_type = do
    headers ← auth_headers py w ctx method path (or_empty body)
    request py w ctx method path body headers content_type

  unfoldable pub rest_json : Adapter
  unfolding call_with_auth render_payload
  rest_json ctx payload = do
    path ← lift (path_from_config py ctx.operation_config)
    template ← lift (
        spread ctx.request_defaults
          (or_else (get "request_template" ctx.operation_config) (obj end)))
    let body_obj = render_payload (obj template) payload ctx
    let method = method_of ctx
    response ←
        call_with_auth ctx method path
          (if str_eq method "GET" then none else some (py.dumps body_obj)) "application/json"
    pure (with_body response (json_or_raw response.raw_text))

  -- A template that renders to the payload alone stands for it.
  abbrev pub unwrap_payload : Value → Value
  unwrap_payload (obj (field k v end)) = if str_eq k "payload" then v else obj (field k v end)
  unwrap_payload v = v

  abbrev pub form_values : Value → Result (Dict String)
  form_values (obj fs) = ok (texts_of py fs)
  form_values v = err runtime_error "form_urlencoded request template must render to an object"

  unfoldable pub form_urlencoded : Adapter
  unfolding call_with_auth render_payload
  form_urlencoded ctx payload = do
    path ← lift (path_from_config py ctx.operation_config)
    template ← lift (
        spread ctx.request_defaults (
          or_else (get "request_template" ctx.operation_config)
            (obj (field "payload" (str "{{payload}}") end))))
    values ← lift (form_values (unwrap_payload (render_payload (obj template) payload ctx)))
    response ←
        call_with_auth ctx (method_of ctx) path (some (w.urlencode values))
          "application/x-www-form-urlencoded"
    pure (with_body response (or_raw (py.loads response.raw_text) response.raw_text))

  abbrev pub without_errors : AdapterResponse → Option Value → Exec Wire AdapterResponse
  without_errors response none = raise runtime_error "GraphQL endpoint returned non-JSON response"
  without_errors response (some (obj fs)) =
      if truthy (get "errors" fs)
      then raise runtime_error "GraphQL operation returned errors"
      else pure (with_body response (obj fs))
  without_errors response (some v) = raise attribute_error "object has no attribute 'get'"

  abbrev pub graphql_body : AdapterContext → Fields → Value
  graphql_body ctx payload = obj (
      field "query" (str (str_of py (get "query" ctx.operation_config))) (
        field "variables"
          (render_payload (or_else (get "variables" ctx.operation_config) (str "{{payload}}"))
            payload ctx)
          (field "operationName" (get "operation_name" ctx.operation_config) end)))

  unfoldable pub graphql : Adapter
  unfolding call_with_auth render_payload
  graphql ctx payload = do
    path ← lift (path_from_config py ctx.operation_config)
    if truthy (get "query" ctx.operation_config)
        then (do
          response ←
              call_with_auth ctx (method_of ctx) path (some (py.dumps (graphql_body ctx payload)))
                "application/json"
          without_errors response (py.loads response.raw_text))
        else raise runtime_error "GraphQL operation requires query"

  abbrev pub xml_body : Option Element → String → Value
  xml_body none content = raw_body content
  xml_body (some root) content = obj (field "xml_root" (element_to_dict root) end)

  abbrev pub text_body : Value → Result String
  text_body (str s) = ok s
  text_body v = err runtime_error "SOAP xml_template must render to text"

  -- `ET.fromstring`, on the text that goes out: it raises where that is not XML.
  abbrev pub well_formed : Option Element → Result (Unit {0})
  well_formed none = err decode_error "not well-formed"
  well_formed (some e) = ok tt

  unfoldable pub soap_xml : (String → Option Element) → Adapter
  unfolding render_payload
  soap_xml parse_xml ctx payload = do
    path ← lift (path_from_config py ctx.operation_config)
    let template = get "xml_template" ctx.operation_config
    if truthy template
        then (do
          xml_text ← lift (text_body (render_payload template payload ctx))
          lift (well_formed (parse_xml xml_text))
          headers ← auth_headers py w ctx (method_of ctx) path xml_text
          let action = text_field py "soap_action" "" ctx.operation_config
          response ←
              request py w ctx (method_of ctx) path (some xml_text)
                (insert "SOAPAction" action headers) "text/xml"
          pure (with_body response (xml_body (parse_xml response.raw_text) response.raw_text)))
        else raise runtime_error "SOAP operation requires xml_template"
