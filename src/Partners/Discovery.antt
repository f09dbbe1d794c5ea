-- ===== src/Partners/Discovery.antt =====
-- `discover_openapi` of app/services/partner_integrations.py: the operations of an OpenAPI document.
use text.Mathlib.Text.{◌==◌ as str_eq}
use thuso_wechat_ls.Base.{
  Bool, false, ◌||◌, Option, none, some, [], ◌∷◌, String, ◌<>◌, if◌then◌else◌, leb, Exec, Result,
  ok, err, pure, raise, lift, ◌>>=◌, ◌>>◌, runtime_error, attribute_error, http_error,
}
use thuso_wechat_ls.Base.Text.{lstrip, rstrip}
use thuso_wechat_ls.Base.Json.{
  Value, str, obj, Fields, end, field, Python, get, or_else, str_of, set_field,
}
use thuso_wechat_ls.Partners.World.{World, Wire, request_call, Reply, unreachable, broken, answered}
use thuso_wechat_ls.Partners.Endpoints.{validate_endpoint}
use thuso_wechat_ls.Partners.Auth.{transmit}

module _ (py : Python) where
  abbrev pub is_method : String → Bool
  is_method m =
      str_eq m "get" || str_eq m "post" || str_eq m "put" || str_eq m "patch" || str_eq m "delete"

  abbrev pub or_root : String → String
  or_root s = if str_eq s "" then "root" else s

  -- `definition.get("operationId") or f"{method.lower()}_{path...}"`
  abbrev pub operation_id : String → String → Fields → String
  operation_id path method definition = str_of py (
      or_else (get "operationId" definition) (
        str (
          py.lower method <> "_" <> or_root (py.replace (rstrip b'/' (lstrip b'/' path)) "/" "_"))))

  abbrev pub operation_entry : String → String → Fields → Value
  operation_entry path method definition = obj (
      field "method" (str (py.upper method)) (
        field "path" (str path) (
          field "summary"
            (or_else (or_else (get "summary" definition) (get "description" definition)) (str ""))
            (field "request_template" (obj end) (field "response_mapping" (obj end) end)))))

  abbrev pub add_operation : String → String → Value → Fields → Fields
  add_operation path method (obj definition) operations =
      if is_method (py.lower method)
      then set_field (operation_id path method definition) (operation_entry path method definition)
          operations
      else operations
  add_operation path method v operations = operations

  -- The loop over the methods of a path, and the one over the paths.
  unfoldable pub add_methods : String → Fields → Fields → Fields
  add_methods path end operations = operations
  add_methods path (field method v rest) operations =
      add_methods path rest (add_operation path method v operations)

  abbrev pub add_path : String → Value → Fields → Fields
  add_path path (obj methods) operations = add_methods path methods operations
  add_path path v operations = operations

  unfoldable pub add_paths : Fields → Fields → Fields
  unfolding add_methods
  add_paths end operations = operations
  add_paths (field path v rest) operations = add_paths rest (add_path path v operations)

  abbrev pub object_of : Value → Result Fields
  object_of (obj fs) = ok fs
  object_of v = err attribute_error "object has no attribute 'items'"

  -- `(document.get(key) or {})`, where what is no object raises on use
  abbrev pub object_field : String → Value → Result Fields
  object_field key (obj document) = object_of (or_else (get key document) (obj end))
  object_field key v = err attribute_error "object has no attribute 'get'"

  abbrev pub described : Fields → Fields → Fields
  described info operations =
      field "title" (get "title" info)
        (field "version" (get "version" info) (field "operations" (obj operations) end))

  unfoldable pub read_document : Option Value → Exec Wire Fields
  unfolding add_paths
  read_document none = raise runtime_error "OpenAPI document must be JSON for automatic discovery"
  read_document (some document) = do
    paths ← lift (object_field "paths" document)
    info ← lift (object_field "info" document)
    pure (described info (add_paths paths end))

  abbrev pub document_reply : World → Reply → Exec Wire Fields
  document_reply w unreachable = raise http_error "connection failed"
  document_reply w (broken m) = raise http_error m
  document_reply w (answered status headers content) =
      if leb 400 status
      then raise runtime_error ("OpenAPI document returned HTTP " <> w.decimal status)
      else read_document (py.loads content)

  unfoldable pub discover_openapi : World → (spec_url : String) → Exec Wire Fields
  unfolding transmit read_document
  discover_openapi w spec_url = do
    lift (validate_endpoint w py spec_url false)
    reply ← transmit w (
        request_call "GET" spec_url none
          (("Accept", "application/json, application/yaml, text/yaml") ∷ []) 20 none)
    document_reply w reply
