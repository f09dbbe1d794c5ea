-- ===== src/Partners/Sftp.antt =====
-- `SFTPFileAdapter` of app/integrations/universal_adapter.py. The SSH client is a parameter; the
-- model keeps the files of the server, the connections that are open and the temporary files.
pub mod Laws
use Prim.Native.String.{len}
use text.Mathlib.Text.{starts_with, ◌==◌ as str_eq}
use thuso_wechat_ls.Base.{
  ℕ, zero, suc, ◌+◌, ◌-◌, Bool, true, false, not, ◌||◌, Option, none, some, List, [], ◌∷◌, String,
  ◌<>◌, if◌then◌else◌, or_default, Exec, Result, ok, err, Kind, pure, raise, raise_if, lift,
  require, get_state, modify, ◌>>=◌, ◌>>◌, runtime_error, os_error,
}
use thuso_wechat_ls.Base.Int.{pos}
use thuso_wechat_ls.Base.Dict.{Dict, lookup, insert}
use thuso_wechat_ls.Base.Json.{
  Value, null, number, str, arr, obj, Items, Fields, end, field, Python, get, get_else, truthy,
  or_else, str_of, text_field,
}
use thuso_wechat_ls.Partners.Template.{render}
use thuso_wechat_ls.Partners.World.{World, AdapterContext, AdapterResponse}
use thuso_wechat_ls.Partners.Endpoints.{or_port}
use thuso_wechat_ls.Partners.Adapters.{template_variables}

-- `urlparse`
pub record SftpUrl : Type 0 where
  pub scheme : String
  pub hostname : String
  pub username : Value
  pub port : Option ℕ

pub data Loader : Type 0 where
  ed25519_key ecdsa_key rsa_key : Loader

pub data Credential : Type 0 where
  private_key : String → Credential
  password : String → Credential

-- The SSH client, and the server behind it.
pub record Ssh : Type 0 where
  pub urlparse : String → SftpUrl
  pub load_host_keys : String → Result (Unit {0})
  pub from_private_key : Loader → String → Option String → Result String
  pub connect :
      (host : String) (port : ℕ) (username : String)
      → Credential
      → (timeout : ℕ) → Result (Unit {0})
  pub may_write : String → Result (Unit {0})
  pub list_dir : String → Dict String → Result Items
  pub bytes_of : Value → Result String

pub record Remote : Type 0 where
  pub files : Dict String
  pub connections : ℕ
  pub temporary_files : ℕ

-- `try: m finally: f`
abbrev pub finally {ℓ} : {A : Type ℓ} → Exec Remote A → (Remote → Remote) → Exec Remote A
finally m f s = let (r, s') = m s in (r, f s')

-- `client.close()`, and the `unlink` of the file with the known hosts
abbrev pub close : Remote → Remote
close s = record s { connections = s.connections - 1; temporary_files = s.temporary_files - 1 }

abbrev pub create_known_hosts : Exec Remote (Unit {0})
create_known_hosts s = (ok tt, record s { temporary_files = s.temporary_files + 1 })

abbrev pub connected : Result (Unit {0}) → Exec Remote (Unit {0})
connected (err k m) s = (err k m, s)
connected (ok u) s = (ok u, record s { connections = s.connections + 1 })

module _ (py : Python) (w : World) (ssh : Ssh) where
  abbrev pub given_text : Value → Option String
  given_text v = if truthy v then some (str_of py v) else none

  -- The loop over the loaders, with the error of the one before.
  unfoldable pub load_key : List Loader → String → Option String → String → Result String
  load_key [] pem passphrase last_error =
      err runtime_error ("Unable to load SFTP private key: " <> last_error)
  load_key (loader ∷ loaders) pem passphrase last_error =
      elim (ssh.from_private_key loader pem passphrase) [
        | ok key ↦ ok key
        | err k m ↦ load_key loaders pem passphrase m
      ]

  abbrev pub key_credential : Result String → Result Credential
  key_credential (ok key) = ok (private_key key)
  key_credential (err k m) = err k m

  unfoldable pub credential_of : AdapterContext → Result Credential
  unfolding load_key
  credential_of ctx =
      let pem = get "sftp_private_key_pem" ctx.secrets in
      let secret = get "sftp_password" ctx.secrets in
      if truthy pem
      then key_credential (
          load_key (ed25519_key ∷ ecdsa_key ∷ rsa_key ∷ []) (str_of py pem) (given_text secret)
            "None")
      else if truthy secret
      then ok (password (str_of py secret))
      else err runtime_error "SFTP password is required"

  abbrev pub answer : String → String → String → Value → Value
  answer action remote_path key v =
      obj (field "action" (str action) (field "remote_path" (str remote_path) (field key v end)))

  -- `content.encode() if isinstance(content, str) else bytes(content)`
  abbrev pub raw_of : Value → Result String
  raw_of (str s) = ok s
  raw_of null = err runtime_error "SFTP upload requires payload.content"
  raw_of v = ssh.bytes_of v

  abbrev pub write_file : String → String → Exec Remote (Unit {0})
  write_file remote_path raw s = (ok tt, record s { files = insert remote_path raw s.files })

  unfoldable pub upload : String → Fields → Exec Remote Value
  upload remote_path payload = do
    raw ← lift (raw_of (get "content" payload))
    lift (ssh.may_write remote_path)
    write_file remote_path raw
    pure (answer "upload" remote_path "bytes" (number (pos (len raw))))

  unfoldable pub download : String → Exec Remote Value
  download remote_path = do
    s ← get_state
    raw ← require (lookup remote_path s.files) os_error "No such file"
    pure (answer "download" remote_path "content" (str (w.base64 raw)))

  unfoldable pub list_files : String → Exec Remote Value
  list_files remote_path = do
    s ← get_state
    names ← lift (ssh.list_dir remote_path s.files)
    pure (answer "list" remote_path "files" (arr names))

  unfoldable pub perform : String → String → Fields → Exec Remote Value
  unfolding upload download list_files
  perform action remote_path payload =
      if str_eq action "upload"
      then upload remote_path payload
      else if str_eq action "download"
      then download remote_path
      else if str_eq action "list"
      then list_files remote_path
      else raise runtime_error ("Unsupported SFTP action: " <> action)

  -- Up to the connection: what raises here is outside the `try`.
  unfoldable pub open_client : AdapterContext → SftpUrl → String → Exec Remote (Unit {0})
  unfolding credential_of
  open_client ctx parsed username = do
    create_known_hosts
    lift (ssh.load_host_keys (str_of py (get "sftp_known_hosts" ctx.secrets)))
    credential ← lift (credential_of ctx)
    connected (
        ssh.connect parsed.hostname (or_port parsed.port 22) username credential
          ctx.timeout_seconds)

  unfoldable pub transfer :
      AdapterContext → SftpUrl → (username action remote_path : String) → Fields → Exec Remote Value
  unfolding open_client perform
  transfer ctx parsed username action remote_path payload =
      open_client ctx parsed username >> finally (perform action remote_path payload) close

  abbrev pub remote_path_of : Value → Result String
  remote_path_of (str s) =
      if starts_with s "/" then ok s else err runtime_error "SFTP remote_path must be absolute"
  remote_path_of v = err runtime_error "SFTP remote_path must be absolute"

  unfoldable pub sftp_file : AdapterContext → Fields → Exec Remote AdapterResponse
  unfolding transfer
  sftp_file ctx payload = do
    let parsed = ssh.urlparse ctx.base_url
    raise_if (not (str_eq parsed.scheme "sftp") || str_eq parsed.hostname "") runtime_error
        "SFTP adapter requires an sftp:// base URL"
    let action = py.lower (text_field py "action" "upload" ctx.operation_config)
    remote_path ← lift (
        remote_path_of (
          render py (get_else "remote_path" (str "") ctx.operation_config)
            (template_variables py w payload ctx)))
    let username = or_else (get "sftp_username" ctx.secrets) parsed.username
    raise_if (not (truthy username) || not (truthy (get "sftp_known_hosts" ctx.secrets)))
        runtime_error "SFTP username and known_hosts are required"
    result ← transfer ctx parsed (str_of py username) action remote_path payload
    pure (record { status_code = 200; headers = []; body = result; raw_text = py.dumps result })
