-- ===== src/Econet/Console/Laws.antt =====
-- What has to happen before the integration of Econet is live.
use text.Mathlib.Text.{◌==◌ as str_eq}
use mathlib.Core.Path.{subst}
use thuso_wechat_ls.Base.{
  ℕ, ◌≡◌, refl, sym, inl, inr, Bool, true, false, ◌&&◌, ◌||◌, ◌==◌, Option, none, some, List, [],
  ◌∷◌, String, Bool-cases, if◌then◌else◌, Exec, Result, ok, err, Kind, lift, ◌>>=◌, continue, arith,
  http_status,
}
use thuso_wechat_ls.Base.Json.{Fields}
use thuso_wechat_ls.Partners.World.{Wire}
use thuso_wechat_ls.Partners.Integrations.{secrets_of}
use thuso_wechat_ls.Econet.Config.{
  EconetIntegration, IntegrationConfig, EconetConfigIn, EconetEnv, get_saved_econet_config,
  validate_econet_endpoint, build_econet_config, decrypt_secret, econet_path, health_path_of,
  integration_of,
}
use thuso_wechat_ls.Econet.Saving.{
  save_econet_config, save_over, write_econet, ciphertext_of, kept_secrets, current_secrets,
}
use thuso_wechat_ls.Access.Crypto.{cipher_key}
use thuso_wechat_ls.Econet.Client.{EconetTest, test_econet_config}
use thuso_wechat_ls.Econet.Console.{
  Console, put_econet, saved_as, test_econet, test_saved, record_test, activate_econet,
  activate_saved, deactivate_econet, deactivate_saved, has_passed, is_text, is_scheme, ConsoleEvent,
  change_row, mark_passed, mark_failed, enable, disable,
}

-- A request of an administrator.
pub data Request : Type 0 where
  save : (new_id : ℕ) (nonce admin_id : String) → EconetConfigIn → Request
  test : (now : ℕ) (smoke_chat : Bool) (admin_id : String) → Request
  activate : (admin_id : String) → Request
  deactivate : (admin_id : String) → Request

abbrev pub has_version : ℕ → List ℕ → Bool
has_version v [] = false
has_version v (w ∷ l) = (v == w) || has_version v l

-- The version of the row, where the test was a chat that passed.
abbrev pub chat_version : Option IntegrationConfig → Result EconetTest → List ℕ → List ℕ
chat_version (some row) (ok r) l = if str_eq r.kind "chat" then row.version ∷ l else l
chat_version saved r l = l

-- The integration is enabled, or ready to be, only with a version among these.
Ready : List ℕ → Option IntegrationConfig → Type 0
Ready l none = Unit
Ready l (some row) =
    (row.enabled ≡ true → has_version row.version l ≡ true)
    × ((is_text "passed" row.last_test_status && is_text "chat" row.last_test_kind) ≡ true
        → has_version row.version l ≡ true)

-- A row that was just saved, if the saving succeeded.
Fresh : Result ℕ × Option IntegrationConfig → Type 0
Fresh (ok id, some row) = (row.enabled ≡ false) × (row.last_test_status ≡ none)
Fresh (ok id, none) = Unit
Fresh (err k m, saved) = Unit

-- What was loaded has the last test of the row.
OfRow : Option IntegrationConfig → Result (Option (EconetIntegration × Fields)) → Type 0
OfRow (some row) (ok (some (config, secrets))) =
    (config.last_test_status ≡ row.last_test_status) × (config.last_test_kind ≡ row.last_test_kind)
OfRow saved loaded = Unit

continue-Fresh :
    {A : Type 0} (r : Result A) (f : A → Exec (Option IntegrationConfig) ℕ)
    (s : Option IntegrationConfig)
    → ((a : A) → Fresh (f a s))
    → Fresh (continue r f s)
unfolding Fresh
continue-Fresh (ok a) f s h = h a
continue-Fresh (err k m) f s h = tt

chat_version_err :
    (saved : Option IntegrationConfig) (l : List ℕ) (k : Kind) (m : String)
    → chat_version saved (err k m) l ≡ l
chat_version_err none l k m = refl
chat_version_err (some row) l k m = refl

module _ (env : EconetEnv) where
  write_econet-Fresh :
      (new_id : ℕ) (nonce admin_id : String) (body : EconetConfigIn) (secrets : Fields)
      (s : Option IntegrationConfig) (key chat_path : Result String)
      (health_path : Result (Option String))
      → Fresh (
          (lift key >>= λ k. lift chat_path >>= λ c. lift health_path >>= λ h.
          write_econet env new_id admin_id body c h (ciphertext_of env k nonce secrets))
            s)
  unfolding write_econet Fresh
  write_econet-Fresh new_id nonce admin_id body secrets s (err k m) chat_path health_path = tt
  write_econet-Fresh new_id nonce admin_id body secrets s (ok k) (err j m) health_path = tt
  write_econet-Fresh new_id nonce admin_id body secrets s (ok k) (ok c) (err j m) = tt
  write_econet-Fresh new_id nonce admin_id body secrets s (ok k) (ok c) (ok h) = (refl, refl)

  save_over-Fresh :
      (new_id : ℕ) (nonce admin_id : String) (body : EconetConfigIn)
      (current : Option (EconetIntegration × Fields)) (s : Option IntegrationConfig)
      → Fresh (save_over env new_id nonce admin_id body current s)
  unfolding save_over
  save_over-Fresh new_id nonce admin_id body current s =
      write_econet-Fresh new_id nonce admin_id body (kept_secrets body (current_secrets current)) s
        (cipher_key env.ciphers env.secrets_encryption_key)
        (econet_path env body.chat_endpoint_path "/chat/completions")
        (health_path_of env body.health_endpoint_path)

  save-Fresh :
      (new_id : ℕ) (nonce admin_id : String) (body : EconetConfigIn) (s : Option IntegrationConfig)
      → Fresh (save_econet_config env new_id nonce admin_id body s)
  unfolding save_econet_config
  save-Fresh new_id nonce admin_id body s =
      continue-Fresh (validate_econet_endpoint env body.base_url body.allow_private_network)
        (λ u. get_saved_econet_config env >>= save_over env new_id nonce admin_id body) s
        (λ u.
          continue-Fresh (get_saved_econet_config env s).0
            (save_over env new_id nonce admin_id body) (get_saved_econet_config env s).1
            (λ current.
              save_over-Fresh new_id nonce admin_id body current (get_saved_econet_config env s).1))

  load-OfRow :
      (row : IntegrationConfig) (s : Option IntegrationConfig) (secrets : Result Fields)
      (chat_path : Result String) (health_path : Result (Option String))
      → OfRow
          (some row)
          ((lift secrets >>= λ fs.
              (lift chat_path >>= λ c.
              lift health_path >>= λ h s. (ok (integration_of env row fs c h), s))
              >>= λ config s. (ok (some (config, fs)), s))
            s).0
  unfolding OfRow
  load-OfRow row s (err k m) chat_path health_path = tt
  load-OfRow row s (ok fs) (err k m) health_path = tt
  load-OfRow row s (ok fs) (ok c) (err k m) = tt
  load-OfRow row s (ok fs) (ok c) (ok h) = (refl, refl)

  saved-OfRow :
      (saved : Option IntegrationConfig) → OfRow saved (get_saved_econet_config env saved).0
  unfolding get_saved_econet_config build_econet_config OfRow
  saved-OfRow none = tt
  saved-OfRow (some row) =
      load-OfRow row (some row) (secrets_of env.py (decrypt_secret env) row.secret_ciphertext)
        (econet_path env row.chat_endpoint_path "/chat/completions")
        (health_path_of env row.health_endpoint_path)

  saved_as-Ready :
      (l : List ℕ) (admin_id : String) (r : Result ℕ × Option IntegrationConfig) (s : Console)
      → Fresh r
      → Ready l s.saved
      → Ready l (saved_as env admin_id r s).1.saved
  unfolding Fresh Ready
  saved_as-Ready l admin_id (ok id, none) s h k = tt
  saved_as-Ready l admin_id (ok id, some row) s h k =
      (λ e. absurd (cc (e, h.0)), λ e. absurd (ground (arith, e, h.1)))
  saved_as-Ready l admin_id (err kind m, saved) s h k = k

  passed-Ready :
      (l : List ℕ) (now : ℕ) (r : EconetTest) (saved : Option IntegrationConfig)
      → Ready l saved
      → Ready (chat_version saved (ok r) l) (change_row (mark_passed now r.kind) saved)
  unfolding Ready
  passed-Ready l now r none h = tt
  passed-Ready l now r (some row) h = elim (Bool-cases (str_eq r.kind "chat")) [
    | inl e ↦ rw e ((λ a. ground arith), (λ a. ground arith))
    | inr e ↦ rw e (h.0, λ a. absurd (cc a))
  ]

  failed-Ready :
      (l : List ℕ) (now : ℕ) (kind m : String) (saved : Option IntegrationConfig)
      → Ready l saved
      → Ready l (change_row (mark_failed now kind m) saved)
  unfolding Ready
  failed-Ready l now kind m none h = tt
  failed-Ready l now kind m (some row) h = (h.0, λ a. absurd (cc a))

  record_test-Ready :
      (l : List ℕ) (now : ℕ) (smoke : Bool) (admin_id target_id : String)
      (r : Result EconetTest × Wire) (s : Console)
      → Ready l s.saved
      → Ready
          (chat_version s.saved (record_test env now smoke admin_id target_id r s).0 l)
          (record_test env now smoke admin_id target_id r s).1.saved
  record_test-Ready l now smoke admin_id target_id (ok r, wire) s h = passed-Ready l now r s.saved h
  record_test-Ready l now smoke admin_id target_id (err k m, wire) s h =
      subst
        (λ l. Ready l (change_row (mark_failed now (if smoke then "chat" else "health") m) s.saved))
        (sym (chat_version_err s.saved l (http_status 502) "Econet integration test failed"))
        (failed-Ready l now (if smoke then "chat" else "health") m s.saved h)

  test_saved-Ready :
      (l : List ℕ) (now : ℕ) (smoke : Bool) (admin_id : String)
      (loaded : Result (Option (EconetIntegration × Fields))) (s : Console)
      → Ready l s.saved
      → Ready
          (chat_version s.saved (test_saved env now smoke admin_id loaded s).0 l)
          (test_saved env now smoke admin_id loaded s).1.saved
  test_saved-Ready l now smoke admin_id (err k m) s h =
      subst (λ l. Ready l s.saved) (sym (chat_version_err s.saved l k m)) h
  test_saved-Ready l now smoke admin_id (ok none) s h =
      subst (λ l. Ready l s.saved)
        (sym (
          chat_version_err s.saved l (http_status 404)
            "Econet integration has not been configured"))
        h
  test_saved-Ready l now smoke admin_id (ok (some (config, secrets))) s h =
      record_test-Ready l now smoke admin_id config.id (test_econet_config env config smoke s.wire)
        s h

  enabled-Ready :
      (l : List ℕ) (admin_id : String) (config : EconetIntegration) (secrets : Fields)
      (saved : Option IntegrationConfig)
      → OfRow saved (ok (some (config, secrets)))
      → has_passed config ≡ true
      → Ready l saved
      → Ready l (change_row (enable admin_id) saved)
  unfolding Ready OfRow
  enabled-Ready l admin_id config secrets none o p h = tt
  enabled-Ready l admin_id config secrets (some row) o p h = ((λ a. h.1 (rw (o.0, o.1) at p)), h.1)

  disabled-Ready :
      (l : List ℕ) (admin_id : String) (saved : Option IntegrationConfig)
      → Ready l saved
      → Ready l (change_row (disable admin_id) saved)
  unfolding Ready
  disabled-Ready l admin_id none h = tt
  disabled-Ready l admin_id (some row) h = ((λ a. absurd (cc a)), h.1)

  activate_saved-Ready :
      (l : List ℕ) (admin_id : String) (loaded : Result (Option (EconetIntegration × Fields)))
      (s : Console)
      → OfRow s.saved loaded
      → Ready l s.saved
      → Ready l (activate_saved env admin_id loaded s).1.saved
  activate_saved-Ready l admin_id (err k m) s o h = h
  activate_saved-Ready l admin_id (ok none) s o h = h
  activate_saved-Ready l admin_id (ok (some (config, secrets))) s o h =
      elim (Bool-cases (has_passed config)) [
        | inl e ↦ rw e (enabled-Ready l admin_id config secrets s.saved o e h)
        | inr e ↦ rw e h
      ]

  deactivate_saved-Ready :
      (l : List ℕ) (admin_id : String) (loaded : Result (Option (EconetIntegration × Fields)))
      (s : Console)
      → Ready l s.saved
      → Ready l (deactivate_saved env admin_id loaded s).1.saved
  deactivate_saved-Ready l admin_id (err k m) s h = h
  deactivate_saved-Ready l admin_id (ok none) s h = h
  deactivate_saved-Ready l admin_id (ok (some (config, secrets))) s h =
      disabled-Ready l admin_id s.saved h

  -- The state after a request, and the versions that passed a chat so far.
  unfoldable pub perform : Request → Console × List ℕ → Console × List ℕ
  perform (save new_id nonce admin_id body) (s, l) =
      ((put_econet env new_id nonce admin_id body s).1, l)
  perform (test now smoke admin_id) (s, l) =
      let (r, t) = test_econet env now smoke admin_id s in (t, chat_version s.saved r l)
  perform (activate admin_id) (s, l) = ((activate_econet env admin_id s).1, l)
  perform (deactivate admin_id) (s, l) = ((deactivate_econet env admin_id s).1, l)

  unfoldable pub perform_all : List Request → Console × List ℕ → Console × List ℕ
  perform_all [] s = s
  perform_all (r ∷ requests) s = perform_all requests (perform r s)

  perform-Ready :
      (r : Request) (s : Console) (l : List ℕ)
      → Ready l s.saved
      → Ready (perform r (s, l)).1 (perform r (s, l)).0.saved
  unfolding perform put_econet test_econet activate_econet deactivate_econet
  perform-Ready (save new_id nonce admin_id body) s l h =
      elim (Bool-cases (is_scheme body.auth_scheme)) [
        | inl e ↦ rw e (
            saved_as-Ready l admin_id (save_econet_config env new_id nonce admin_id body s.saved) s
              (save-Fresh new_id nonce admin_id body s.saved) h)
        | inr e ↦ rw e h
      ]
  perform-Ready (test now smoke admin_id) s l h =
      test_saved-Ready l now smoke admin_id (get_saved_econet_config env s.saved).0 s h
  perform-Ready (activate admin_id) s l h =
      activate_saved-Ready l admin_id (get_saved_econet_config env s.saved).0 s
        (saved-OfRow s.saved) h
  perform-Ready (deactivate admin_id) s l h =
      deactivate_saved-Ready l admin_id (get_saved_econet_config env s.saved).0 s h

  perform_all-Ready :
      (requests : List Request) (s : Console × List ℕ)
      → Ready s.1 s.0.saved
      → Ready (perform_all requests s).1 (perform_all requests s).0.saved
  unfolding perform_all
  perform_all-Ready [] s h = h
  perform_all-Ready (r ∷ requests) s h =
      perform_all-Ready requests (perform r s) (perform-Ready r s.0 s.1 h)

  -- However the requests of the administrators follow each other, from no configuration at all: an
  -- integration that is enabled has the version of a configuration whose chat test has passed.
  pub enabled_tested :
      (requests : List Request) (audits : List ConsoleEvent) (wire : Wire) (row : IntegrationConfig)
      → (perform_all requests (record { saved = none; audits = audits; wire = wire }, [])).0.saved
        ≡ some row
      → row.enabled ≡ true
      → has_version row.version
          (perform_all requests (record { saved = none; audits = audits; wire = wire }, [])).1
        ≡ true
  unfolding Ready
  enabled_tested requests audits wire row e h =
      let r =
        subst
          (Ready
            (perform_all requests (record { saved = none; audits = audits; wire = wire }, [])).1)
          e
          (perform_all-Ready requests (record { saved = none; audits = audits; wire = wire }, [])
            tt) in
      r.0 h
