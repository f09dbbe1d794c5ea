-- ===== src/Partners/Sftp/Laws.antt =====
-- What a transfer leaves behind, and what an upload makes of a download.
use text.Mathlib.TextEquality.{eq_iff}
use thuso_wechat_ls.Base.{◌+◌, ◌≡◌, refl, ap, String, Result, ok, err, arith, ◌>>=◌, ◌>>◌, lift}
use thuso_wechat_ls.Base.Dict.{insert, lookup-insert}
use thuso_wechat_ls.Base.Json.{Value, str, Fields, Python, get, str_of}
use thuso_wechat_ls.Partners.World.{World, AdapterContext}
use thuso_wechat_ls.Partners.Endpoints.{or_port}
use thuso_wechat_ls.Partners.Sftp.{
  Ssh, Remote, SftpUrl, Credential, upload, download, perform, list_files, transfer, open_client,
  credential_of, connected, close, finally, answer,
}

module _ (py : Python) (w : World) (ssh : Ssh) where
  -- No action opens or closes a connection, or makes or removes a temporary file.
  abbrev pub SameResources : Remote → Remote → Type 0
  SameResources s t = (t.connections ≡ s.connections) × (t.temporary_files ≡ s.temporary_files)

  -- The client is connected, or the call failed before; either way there is a file of known hosts.
  Opens : Remote → Result (Unit {0}) × Remote → Type 0
  Opens s (ok u, t) =
      (t.connections ≡ s.connections + 1) × (t.temporary_files ≡ s.temporary_files + 1)
  Opens s (err k m, t) =
      (t.connections ≡ s.connections) × (t.temporary_files ≡ s.temporary_files + 1)

  perform-SameResources :
      (action remote_path : String) (payload : Fields) (s : Remote)
      → SameResources s (perform py w ssh action remote_path payload s).1
  unfolding perform upload download list_files
  perform-SameResources action remote_path payload s = ground arith

  upload_written :
      (remote_path content : String) (payload : Fields) (v : Value) (s t : Remote)
      (allowed : Result (Unit {0}))
      → get "content" payload ≡ str content
      → ssh.may_write remote_path ≡ allowed
      → upload py w ssh remote_path payload s ≡ (ok v, t)
      → record s { files = insert remote_path content s.files } ≡ t
  unfolding upload
  upload_written remote_path content payload v s t (err k m) e a h =
      absurd (ground (arith, h, e, a))
  upload_written remote_path content payload v s t (ok u) e a h =
      ap (λ (p : Result Value × Remote). p.1) (rw (e, a) at h)

  -- After an upload that went through, a download of the same path gives the content, in base 64.
  download-upload :
      (remote_path content : String) (payload : Fields) (v : Value) (s t : Remote)
      → get "content" payload ≡ str content
      → upload py w ssh remote_path payload s ≡ (ok v, t)
      → download py w ssh remote_path t
        ≡ (ok (answer py w ssh "download" remote_path "content" (str (w.base64 content))), t)
  unfolding download
  download-upload remote_path content payload v s t e h =
      let written =
        upload_written remote_path content payload v s t (ssh.may_write remote_path) e refl h in
      ground (
        arith,
        ap (λ (r : Remote). r.files) written,
        lookup-insert remote_path remote_path content s.files,
        eq_iff remote_path remote_path,
      )

  -- How a transfer ends, after the client was opened with this outcome.
  abbrev pub CleansUp : Remote → Result (Unit {0}) × Remote → Result Value × Remote → Type 0
  CleansUp s (ok u, opened) (r, t) = SameResources s t
  CleansUp s (err k m, opened) after =
      (after ≡ (err k m, opened))
      × (opened.connections ≡ s.connections)
      × (opened.temporary_files ≡ s.temporary_files + 1)

  closing-CleansUp :
      (action remote_path : String) (payload : Fields) (s : Remote)
      (opened : Result (Unit {0}) × Remote)
      → Opens s opened
      → CleansUp s opened
          (◌>>=◌ (λ t. opened) (λ u. finally (perform py w ssh action remote_path payload) close) s)
  unfolding Opens
  closing-CleansUp action remote_path payload s (ok u, t) h =
      ground (arith, h, perform-SameResources action remote_path payload t)
  closing-CleansUp action remote_path payload s (err k m, t) h = (refl, h.0, h.1)

  connected-Opens :
      (r : Result (Unit {0})) (s : Remote)
      → Opens s (connected r (record s { temporary_files = s.temporary_files + 1 }))
  unfolding Opens
  connected-Opens (ok u) s = (refl, refl)
  connected-Opens (err k m) s = (refl, refl)

  opening-Opens :
      (keys : Result (Unit {0})) (credential : Result Credential)
      (connect : Credential → Result (Unit {0})) (s : Remote)
      → Opens s (
          (lift keys >> (lift credential >>= λ c. connected (connect c)))
            (record s { temporary_files = s.temporary_files + 1 }))
  unfolding Opens
  opening-Opens (err k m) credential connect s = (refl, refl)
  opening-Opens (ok u) (err k m) connect s = (refl, refl)
  opening-Opens (ok u) (ok c) connect s = connected-Opens (connect c) s

  open_client-Opens :
      (ctx : AdapterContext) (parsed : SftpUrl) (username : String) (s : Remote)
      → Opens s (open_client py w ssh ctx parsed username s)
  unfolding open_client
  open_client-Opens ctx parsed username s =
      opening-Opens (ssh.load_host_keys (str_of py (get "sftp_known_hosts" ctx.secrets)))
        (credential_of py w ssh ctx)
        (λ c. ssh.connect parsed.hostname (or_port parsed.port 22) username c ctx.timeout_seconds) s

  -- Where the client connected, a transfer ends with the connections and the temporary files that
  -- there were, whatever the action does. Where it did not, its error comes back, no connection is
  -- open, and the file with the known hosts stays behind.
  pub transfer-CleansUp :
      (ctx : AdapterContext) (parsed : SftpUrl) (username action remote_path : String)
      (payload : Fields) (s : Remote)
      → CleansUp s
          (open_client py w ssh ctx parsed username s)
          (transfer py w ssh ctx parsed username action remote_path payload s)
  unfolding transfer
  transfer-CleansUp ctx parsed username action remote_path payload s =
      closing-CleansUp action remote_path payload s (open_client py w ssh ctx parsed username s)
        (open_client-Opens ctx parsed username s)
