-- ===== src/Base/Errors.antt =====
-- Python's exceptions as values. The message of an exception is not modelled.
use mathlib.Core.Bool.{Bool, true, false}
use mathlib.Core.Path.{◌≡◌, refl, subst}

-- `out_of_fuel` is no exception of the program: it marks a loop that is cut off.
pub data Exception : Type 0 where
  value_error key_error index_error memory_error zero_division_error out_of_fuel : Exception

-- What a call returns, or the exception that it raises.
pub data Result {ℓ} (A : Type ℓ) : Type ℓ where
  raise : Exception → Result A
  ok : A → Result A

infixl 5 ◌>>=◌
abbrev pub ◌>>=◌ {κ μ} : {X : Type κ} {Y : Type μ} → Result X → (X → Result Y) → Result Y
raise e >>= next = raise e
ok x >>= next = next x

infixl 5 ◌>>◌
abbrev pub ◌>>◌ {κ} : {Y : Type κ} → Result (Unit {0}) → Result Y → Result Y
check >> rest = check >>= λ done. rest

-- `if bad: raise ValueError(...)`
abbrev pub reject_if : Bool → Result (Unit {0})
reject_if true = raise value_error
reject_if false = ok tt

-- A sequence that returned: its first part did, and so did the rest.
pub >>=-eq-ok {κ μ} :
    {X : Type κ} {Y : Type μ} (first : Result X) (next : X → Result Y) {y : Y}
    → (first >>= next) ≡ ok y
    → (x : X) × (first ≡ ok x) × (next x ≡ ok y)
>>=-eq-ok (raise e) next h = cc
>>=-eq-ok (ok x) next h = (x, refl, h)

-- A check that was passed.
pub passed {ℓ} :
    {A : Type ℓ} (bad : Bool) {m : Result A} {a : A}
    → (reject_if bad >> m) ≡ ok a
    → (bad ≡ false) × (m ≡ ok a)
passed true h = cc
passed false h = (refl, h)

-- A property of what is returned, if something is.
abbrev pub IfOk {ℓ κ} : {A : Type ℓ} → (A → Type κ) → Result A → Type κ
IfOk P (raise e) = Unit
IfOk P (ok x) = P x

pub IfOk-of {ℓ κ} :
    {A : Type ℓ} (P : A → Type κ) (r : Result A) → ((x : A) → r ≡ ok x → P x) → IfOk P r
IfOk-of P (raise e) known = tt
IfOk-of P (ok x) known = known x refl

-- A value that is returned has what another one that is returned has.
pub ok-injective {ℓ κ} : {A : Type ℓ} (P : A → Type κ) {a b : A} → ok a ≡ ok b → P a → P b
ok-injective P h p = let e : _ = cc in subst P e p
