-- ===== src/Access/Principal.antt =====
-- The access checks of app/core/principal.py, and `require_role` of app/core/auth.py.
use text.Mathlib.Text.{◌==◌ as str_eq}
use thuso_wechat_ls.Base.{
  ℕ, Bool, true, false, not, ◌&&◌, ◌||◌, Option, none, some, List, [], ◌∷◌, String, ◌==◌,
  if◌then◌else◌, null, Table, find, Result, ok, err, Kind, http_status,
}
use thuso_wechat_ls.Base.Uuid.{uuid_text}
pub mod Laws

pub record User : Type 0 where
  pub phone_e164 : String
  pub display_name : Option String
  pub locale : String

pub record Provider : Type 0 where
  pub owner_user_id : ℕ
  pub category : String
  pub status : String
  pub business_name : String

-- A row of `user_roles`.
pub record Role : Type 0 where
  pub user_id : ℕ
  pub role : String
  pub scope_type : Option String
  pub scope_id : Option ℕ

pub record RequestRow : Type 0 where
  pub user_id : ℕ
  pub accepted_provider_id : Option ℕ
  pub category : String
  pub status : String

pub record JobRow : Type 0 where
  pub service_request_id : Option ℕ
  pub courier_provider_id : Option ℕ
  pub status : String

pub record Directory : Type 0 where
  pub users : Table User
  pub providers : Table Provider
  pub roles : List Role
  pub requests : Table RequestRow
  pub jobs : Table JobRow

-- `role in (...)`
unfoldable pub one_of : String → List String → Bool
one_of role [] = false
one_of role (r ∷ l) = str_eq role r || one_of role l

unfoldable pub any_role : (Role → Bool) → List Role → Bool
any_role p [] = false
any_role p (r ∷ l) = p r || any_role p l

abbrev pub is_admin : ℕ → Role → Bool
is_admin uid r = r.user_id == uid && str_eq r.role "admin"

-- A comparison with a null column is not true.
abbrev pub has_text : Option String → String → Bool
has_text none s = false
has_text (some t) s = str_eq t s

abbrev pub has_id : Option ℕ → ℕ → Bool
has_id none k = false
has_id (some j) k = j == k

-- `role in (roles) and scope_type=:scope_type and scope_id=:scope_id`
abbrev pub is_scoped : List String → String → ℕ → ℕ → Role → Bool
is_scoped roles scope_type scope_id uid r =
    r.user_id == uid
    && one_of r.role roles
    && has_text r.scope_type scope_type
    && has_id r.scope_id scope_id

unfoldable pub require_user_access : Directory → (user_id uid : ℕ) → Result User
require_user_access d user_id uid =
    if not (uid == user_id)
    then err (http_status 403) "user access denied"
    else elim (find user_id d.users) [
      | none ↦ err (http_status 404) "user not found"
      | some u ↦ ok u
    ]

-- The owner, an administrator, or one who holds a role for this provider.
unfoldable pub may_act_for :
    Directory → (roles : List String) → (scope_type : String) → (id uid : ℕ) → Provider → Bool
unfolding any_role one_of
may_act_for d roles scope_type id uid p =
    p.owner_user_id == uid
    || any_role (is_admin uid) d.roles
    || any_role (is_scoped roles scope_type id uid) d.roles

abbrev pub provider_roles : List String
provider_roles = "provider" ∷ "provider_manager" ∷ []

abbrev pub provider_access : Directory → (provider_id uid : ℕ) → Option Provider → Result Provider
provider_access d provider_id uid none = err (http_status 404) "provider not found"
provider_access d provider_id uid (some p) =
    if may_act_for d provider_roles "provider" provider_id uid p
    then ok p
    else err (http_status 403) "provider access denied"

unfoldable pub require_provider_access : Directory → (provider_id uid : ℕ) → Result Provider
unfolding may_act_for
require_provider_access d provider_id uid =
    provider_access d provider_id uid (find provider_id d.providers)

abbrev pub merchant_roles : List String
merchant_roles = "merchant" ∷ "merchant_manager" ∷ []

abbrev pub merchant_categories : List String
merchant_categories = "restaurant" ∷ "merchant" ∷ "retail" ∷ []

abbrev pub merchant_access : Directory → (merchant_id uid : ℕ) → Option Provider → Result Provider
merchant_access d merchant_id uid none = err (http_status 404) "merchant not found"
merchant_access d merchant_id uid (some p) =
    if not (one_of p.category merchant_categories)
    then err (http_status 403) "merchant access denied"
    else if may_act_for d merchant_roles "merchant" merchant_id uid p
    then ok p
    else err (http_status 403) "merchant access denied"

unfoldable pub require_merchant_access : Directory → (merchant_id uid : ℕ) → Result Provider
unfolding may_act_for
require_merchant_access d merchant_id uid =
    merchant_access d merchant_id uid (find merchant_id d.providers)

-- The checks behind the one for the owner.
abbrev pub other_access :
    Directory → (uid : ℕ) → RequestRow → Option (Result Provider) → Result RequestRow
other_access d uid row (some (ok p)) = ok row
other_access d uid row (some (err k m)) = err k m
other_access d uid row none =
    if any_role (is_admin uid) d.roles
    then ok row
    else err (http_status 403) "request access denied"

abbrev pub accepted_access : Directory → (uid : ℕ) → Option ℕ → Option (Result Provider)
accepted_access d uid none = none
accepted_access d uid (some provider_id) = some (require_provider_access d provider_id uid)

abbrev pub request_access : Directory → (uid : ℕ) → Option RequestRow → Result RequestRow
request_access d uid none = err (http_status 404) "request not found"
request_access d uid (some row) =
    if row.user_id == uid
    then ok row
    else other_access d uid row (accepted_access d uid row.accepted_provider_id)

unfoldable pub require_request_access : Directory → (request_id uid : ℕ) → Result RequestRow
unfolding require_provider_access any_role
require_request_access d request_id uid = request_access d uid (find request_id d.requests)

abbrev pub courier_roles : List String
courier_roles = "courier" ∷ "courier_manager" ∷ []

abbrev pub courier_access : Directory → (uid id : ℕ) → JobRow → Option Provider → Result JobRow
courier_access d uid id job none = err (http_status 404) "delivery job not found"
courier_access d uid id job (some p) =
    if not (str_eq p.category "delivery") || not (may_act_for d courier_roles "provider" id uid p)
    then err (http_status 403) "courier access denied"
    else ok job

-- `join providers p on p.id=d.courier_provider_id`: a job without a courier joins with none.
abbrev pub job_access : Directory → (uid : ℕ) → Option JobRow → Result JobRow
job_access d uid none = err (http_status 404) "delivery job not found"
job_access d uid (some job) = elim job.courier_provider_id [
  | none ↦ err (http_status 404) "delivery job not found"
  | some id ↦ courier_access d uid id job (find id d.providers)
]

unfoldable pub require_courier_access : Directory → (job_id uid : ℕ) → Result JobRow
unfolding may_act_for
require_courier_access d job_id uid = job_access d uid (find job_id d.jobs)

unfoldable pub granted : List String → ℕ → List Role → List Role
unfolding one_of
granted roles uid [] = []
granted roles uid (r ∷ l) =
    let rest = granted roles uid l in
    if r.user_id == uid && one_of r.role roles then r ∷ rest else rest

unfoldable pub require_role : Directory → (uid : ℕ) → (roles : List String) → Result (List Role)
unfolding granted
require_role d uid roles =
    if null roles
    then err (http_status 403) "no roles configured"
    else if null (granted roles uid d.roles)
    then err (http_status 403) "required role not granted"
    else ok (granted roles uid d.roles)
