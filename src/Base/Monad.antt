-- ===== src/Base/Monad.antt =====
-- Service functions: they read and write the tables, and may raise. The tables come back beside an
-- exception too, since a caller that catches it goes on in the same transaction.
use Prim.Native.Nat.{ℕ}
use Prim.Native.String.{String}
use mathlib.Core.Bool.{Bool, true, false}
use mathlib.Core.Option.{Option, none, some}

-- The exception classes that the services raise.
pub data Kind : Type 0 where
  value_error key_error runtime_error permission_error no_result_found : Kind
  financial_error payment_error settlement_error reconciliation_error commerce_error : Kind
  food_delivery_error orchestration_error provider_payment_error agent_execution_error : Kind
  account_routing_error media_error integrity_error index_error attribute_error type_error os_error
        http_error decode_error database_error :
      Kind
  -- `HTTPException`, with its status
  http_status : ℕ → Kind

pub data Result {ℓ} (A : Type ℓ) : Type ℓ where
  ok : A → Result A
  err : Kind → String → Result A

abbrev pub Exec {ℓ κ} : Type ℓ → Type κ → Type (ℓ ⊔ κ)
Exec S A = S → Result A × S

abbrev pub pure {ℓ κ} : {S : Type ℓ} {A : Type κ} → A → Exec S A
pure a s = (ok a, s)

abbrev pub raise {ℓ κ} : {S : Type ℓ} {A : Type κ} → Kind → String → Exec S A
raise k m s = (err k m, s)

-- A step that does not touch the tables.
abbrev pub lift {ℓ κ} : {S : Type ℓ} {A : Type κ} → Result A → Exec S A
lift r s = (r, s)

abbrev pub get_state {ℓ} : {S : Type ℓ} → Exec S S
get_state s = (ok s, s)

abbrev pub modify {ℓ} : {S : Type ℓ} → (S → S) → Exec S (Unit {0})
modify f s = (ok tt, f s)

abbrev pub continue {ℓ κ μ} :
    {S : Type ℓ} {A : Type κ} {B : Type μ} → Result A → (A → Exec S B) → Exec S B
continue (ok a) f s = f a s
continue (err k m) f s = (err k m, s)

infixl 5 ◌>>=◌ ◌>>◌
abbrev pub ◌>>=◌ {ℓ κ μ} :
    {S : Type ℓ} {A : Type κ} {B : Type μ} → Exec S A → (A → Exec S B) → Exec S B
◌>>=◌ m f s = let (r, s') = m s in continue r f s'

abbrev pub ◌>>◌ {ℓ κ μ} : {S : Type ℓ} {A : Type κ} {B : Type μ} → Exec S A → Exec S B → Exec S B
m >> k = m >>= λ _. k

-- `if not x: raise ...`
abbrev pub require {ℓ κ} : {S : Type ℓ} {A : Type κ} → Option A → Kind → String → Exec S A
require none k m = raise k m
require (some a) k m = pure a

-- `if b: raise ...`
abbrev pub raise_if {ℓ} : {S : Type ℓ} → Bool → Kind → String → Exec S (Unit {0})
raise_if true k m = raise k m
raise_if false k m = pure tt

-- `if b: await ...`
abbrev pub when {ℓ} : {S : Type ℓ} → Bool → Exec S (Unit {0}) → Exec S (Unit {0})
when true m = m
when false m = pure tt

-- An action on a part of the tables.
abbrev pub zoom {ℓ κ μ} :
    {S : Type ℓ} {T : Type κ} {A : Type μ} → (S → T) → (T → S → S) → Exec T A → Exec S A
zoom get set m s = let (r, t) = m (get s) in (r, set t s)

abbrev pub is_ok {ℓ} : {A : Type ℓ} → Result A → Bool
is_ok (ok a) = true
is_ok (err k m) = false

-- The row and the tables after an `update ... returning`, or an exception where no row came back.
abbrev pub commit_row {ℓ κ μ} :
    {S : Type ℓ} {V : Type κ} {T : Type μ} → Option (V × T) → (T → S → S) → Kind → String → Exec S V
commit_row none set k m s = (err k m, s)
commit_row (some (v, t)) set k m s = (ok v, set t s)
