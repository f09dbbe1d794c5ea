-- ===== src/Partners/Endpoints.antt =====
-- The checks of addresses and paths: `_validate_remote_url` and `_path_from_config` of
-- app/integrations/universal_adapter.py, `validate_endpoint` and `normalise_path` of
-- app/services/partner_integrations.py.
pub mod Laws
use text.Mathlib.Text.{starts_with, ◌==◌ as str_eq}
use thuso_wechat_ls.Base.{
  ℕ, zero, suc, Bool, true, false, not, ◌&&◌, ◌||◌, Option, none, some, List, [], ◌∷◌, String,
  if◌then◌else◌, Result, ok, err, value_error, os_error,
}
use thuso_wechat_ls.Base.Text.{contains}
use thuso_wechat_ls.Base.Json.{Fields, Python, get, str_of, or_else, str}
use thuso_wechat_ls.Partners.World.{World, Url, Address}

abbrev pub is_internal : Address → Bool
is_internal a = a.is_private || a.is_loopback || a.is_link_local || a.is_reserved || a.is_multicast

unfoldable pub any_internal : List Address → Bool
any_internal [] = false
any_internal (a ∷ l) = is_internal a || any_internal l

-- The loop over the addresses.
abbrev pub check_addresses : String → List Address → Result (Unit {0})
check_addresses message l = if any_internal l then err value_error message else ok tt

-- A port of `None`, and port 0, give the default.
abbrev pub or_port : Option ℕ → ℕ → ℕ
or_port none d = d
or_port (some zero) d = d
or_port (some (suc p)) d = suc p

-- `parsed.port or (443 if parsed.scheme == "https" else 80)`
abbrev pub port_of : Url → ℕ
port_of u = or_port u.port (if str_eq u.scheme "https" then 443 else 80)

module _ (w : World) where
  -- `socket.getaddrinfo`, whose `gaierror` is not caught here.
  abbrev pub check_remote : Option (List Address) → Result (Unit {0})
  check_remote none = err os_error "getaddrinfo failed"
  check_remote (some l) = check_addresses "remote endpoint resolves to a private/reserved network" l

  abbrev pub check_url : Bool → Result Url → Result (Unit {0})
  check_url allow_private_network (err k m) = err k m
  check_url allow_private_network (ok u) =
      if not (str_eq u.scheme "https" || str_eq u.scheme "http") || str_eq u.host ""
      then err value_error "remote URL must be a valid HTTP(S) URL"
      else if allow_private_network
      then ok tt
      else check_remote (w.resolve u.host (port_of u))

  unfoldable pub validate_remote_url : String → Bool → Result (Unit {0})
  unfolding any_internal
  validate_remote_url url allow_private_network = check_url allow_private_network (w.parse_url url)

  abbrev pub check_partner : Option (List Address) → Result (Unit {0})
  check_partner none = err value_error "partner hostname could not be resolved"
  check_partner (some l) =
      check_addresses "partner endpoint resolves to a private/reserved network" l

  abbrev pub is_production : Python → Bool
  is_production py = str_eq (py.lower w.app_env) "prod" || str_eq (py.lower w.app_env) "production"

  abbrev pub check_endpoint : Python → Bool → Result Url → Result (Unit {0})
  check_endpoint py allow_private_network (err k m) = err k m
  check_endpoint py allow_private_network (ok u) =
      if not (str_eq u.scheme "https" || str_eq u.scheme "http" || str_eq u.scheme "sftp")
        || str_eq u.host ""
      then err value_error "base URL must be a valid HTTP(S) URL"
      else if str_eq u.scheme "http" && is_production py
      then err value_error "Production partner endpoints must use HTTPS"
      else if allow_private_network
      then ok tt
      else check_partner (w.resolve u.host (port_of u))

  unfoldable pub validate_endpoint : Python → String → Bool → Result (Unit {0})
  unfolding any_internal
  validate_endpoint py base_url allow_private_network =
      check_endpoint py allow_private_network (w.parse_url base_url)

abbrev pub is_relative : String → Bool
is_relative path = not (starts_with path "/") || contains path ".."

unfoldable pub normalise_path : Python → Option String → Option String → Result (Option String)
normalise_path py none default = ok default
normalise_path py (some path) default =
    if str_eq path ""
    then ok default
    else if is_relative (py.strip path)
    then err value_error "endpoint paths must be absolute and cannot contain '..'"
    else ok (some (py.strip path))

unfoldable pub path_from_config : Python → Fields → Result String
path_from_config py config =
    let path = str_of py (or_else (get "path" config) (str "")) in
    if is_relative path
    then err value_error "adapter operation path must be absolute and cannot contain '..'"
    else ok path
