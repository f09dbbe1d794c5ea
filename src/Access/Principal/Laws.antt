-- ===== src/Access/Principal/Laws.antt =====
-- Exactly who passes the access checks.
use thuso_wechat_ls.Base.{
  ℕ, ◌≡◌, ◌↔◌, refl, inl, inr, Bool, true, Option, none, some, List, [], ◌∷◌, String, Bool-cases,
  AnyOf, find, Result, ok, err, arith, ==_iff, ◌==◌,
}
use thuso_wechat_ls.Access.Principal.{
  Directory, Provider, Role, RequestRow, any_role, is_admin, is_scoped, may_act_for, provider_roles,
  provider_access, require_provider_access, request_access, require_request_access, other_access,
  accepted_access,
}

any_role-AnyOf :
    (p : Role → Bool) (l : List Role) → (any_role p l ≡ true) ↔ AnyOf (λ r. p r ≡ true) l
unfolding any_role
any_role-AnyOf p [] = ((λ h. absurd (cc h)), (λ h. elim h [ ]))
any_role-AnyOf p (r ∷ l) =
    let rest = any_role-AnyOf p l in
    (
      (λ h. elim (Bool-cases (p r)) [ inl e ↦ inl e | inr e ↦ inr (rest.0 (rw e at h)) ]),
      (λ h. elim h [ inl e ↦ rw e refl | inr m ↦ ground (arith, rest.1 m) ]),
    )

-- Who may act for a provider: the owner, an administrator, and one who holds one of the roles for it.
pub data MayAct (d : Directory) (roles : List String) (scope_type : String) (id uid : ℕ)
    (p : Provider) : Type 0 where
  as_owner : p.owner_user_id ≡ uid → MayAct d roles scope_type id uid p
  as_admin : AnyOf (λ r. is_admin uid r ≡ true) d.roles → MayAct d roles scope_type id uid p
  as_delegate :
      AnyOf (λ r. is_scoped roles scope_type id uid r ≡ true) d.roles
      → MayAct d roles scope_type id uid p

MayAct-of :
    (d : Directory) (roles : List String) (scope_type : String) (id uid : ℕ) (p : Provider)
    → MayAct d roles scope_type id uid p
    → may_act_for d roles scope_type id uid p ≡ true
unfolding may_act_for
MayAct-of d roles scope_type id uid p (as_owner e) = ground (arith, e)
MayAct-of d roles scope_type id uid p (as_admin a) =
    ground (arith, (any_role-AnyOf (is_admin uid) d.roles).1 a)
MayAct-of d roles scope_type id uid p (as_delegate a) =
    ground (arith, (any_role-AnyOf (is_scoped roles scope_type id uid) d.roles).1 a)

act_of_may :
    (d : Directory) (roles : List String) (scope_type : String) (id uid : ℕ) (p : Provider)
    → may_act_for d roles scope_type id uid p ≡ true
    → MayAct d roles scope_type id uid p
unfolding may_act_for
act_of_may d roles scope_type id uid p h = elim (Bool-cases (p.owner_user_id == uid)) [
  | inl e ↦ as_owner ((==_iff p.owner_user_id uid).0 e)
  | inr e ↦ elim (Bool-cases (any_role (is_admin uid) d.roles)) [
    | inl a ↦ as_admin ((any_role-AnyOf (is_admin uid) d.roles).0 a)
    | inr a ↦
        as_delegate
          ((any_role-AnyOf (is_scoped roles scope_type id uid) d.roles).0 (ground (arith, h, e, a)))
  ]
]

abbrev pub MayProvide : Directory → (provider_id uid : ℕ) → Provider → Type 0
MayProvide d provider_id uid p = MayAct d provider_roles "provider" provider_id uid p

provider_found :
    (d : Directory) (provider_id uid : ℕ) (p : Provider)
    → (provider_access d provider_id uid (some p) ≡ ok p) ↔ MayProvide d provider_id uid p
provider_found d provider_id uid p =
    elim (Bool-cases (may_act_for d provider_roles "provider" provider_id uid p)) [
      | inl e ↦
          ((λ _. act_of_may d provider_roles "provider" provider_id uid p e), (λ _. rw e refl))
      | inr e ↦ (
        (λ h. absurd (cc (rw e at h))),
        (λ m. absurd (cc (e, MayAct-of d provider_roles "provider" provider_id uid p m))),
      )
    ]

-- The access to a provider is given exactly to its owner, to administrators, and to those who hold
-- the role of a provider or of its manager for this very provider.
require_provider_access_exact :
    (d : Directory) (provider_id uid : ℕ) (p : Provider)
    → find provider_id d.providers ≡ some p
    → (require_provider_access d provider_id uid ≡ ok p) ↔ MayProvide d provider_id uid p
unfolding require_provider_access
require_provider_access_exact d provider_id uid p e = rw e (provider_found d provider_id uid p)

-- Who may see a request: who made it, who may act for the provider that accepted it, and while
-- none has accepted it an administrator.
pub data MaySee (d : Directory) (uid : ℕ) (row : RequestRow) : Type 0 where
  as_requester : row.user_id ≡ uid → MaySee d uid row
  as_provider :
      (id : ℕ) (p : Provider)
      → row.accepted_provider_id ≡ some id
      → require_provider_access d id uid ≡ ok p
      → MaySee d uid row
  as_supervisor :
      row.accepted_provider_id ≡ none
      → AnyOf (λ r. is_admin uid r ≡ true) d.roles
      → MaySee d uid row

other_provider :
    (d : Directory) (uid : ℕ) (row : RequestRow) (id : ℕ) (r : Result Provider)
    → row.accepted_provider_id ≡ some id
    → require_provider_access d id uid ≡ r
    → other_access d uid row (some r) ≡ ok row
    → MaySee d uid row
other_provider d uid row id (ok p) e f h = as_provider id p e f
other_provider d uid row id (err k m) e f h = absurd (cc h)

other_sees :
    (d : Directory) (uid : ℕ) (row : RequestRow) (accepted : Option ℕ)
    → row.accepted_provider_id ≡ accepted
    → other_access d uid row (accepted_access d uid accepted) ≡ ok row
    → MaySee d uid row
other_sees d uid row (some id) e h =
    other_provider d uid row id (require_provider_access d id uid) e refl h
other_sees d uid row none e h = elim (Bool-cases (any_role (is_admin uid) d.roles)) [
  | inl a ↦ as_supervisor e ((any_role-AnyOf (is_admin uid) d.roles).0 a)
  | inr a ↦ absurd (cc (rw a at h))
]

given_access :
    (d : Directory) (uid : ℕ) (row : RequestRow)
    → MaySee d uid row
    → request_access d uid (some row) ≡ ok row
given_access d uid row (as_requester e) = ground (arith, e)
given_access d uid row (as_provider id p e f) = elim (Bool-cases (row.user_id == uid)) [
  | inl same ↦ rw same refl
  | inr other ↦ rw (other, e, f) refl
]
given_access d uid row (as_supervisor e a) =
    ground (arith, e, (any_role-AnyOf (is_admin uid) d.roles).1 a)

-- The access to a request is given exactly to those who may see it.
pub require_request_access_exact :
    (d : Directory) (request_id uid : ℕ) (row : RequestRow)
    → find request_id d.requests ≡ some row
    → (require_request_access d request_id uid ≡ ok row) ↔ MaySee d uid row
unfolding require_request_access
require_request_access_exact d request_id uid row e =
    rw (e, request_access)
      (
        (λ h. elim (Bool-cases (row.user_id == uid)) [
          | inl same ↦ as_requester ((==_iff row.user_id uid).0 same)
          | inr other ↦ other_sees d uid row row.accepted_provider_id refl (rw other at h)
        ]),
        given_access d uid row,
      )
