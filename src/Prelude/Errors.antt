-- ===== src/Prelude/Errors.antt =====
-- Python's exceptions as values. A function that may raise returns a `Result`; the text that a
-- message is formatted from is not kept, only the exception's class and which `raise` it was.
use Prim.Native.String.{String}
use Prim.Native.Nat.{ℕ}
use mathlib.Core.Path.{◌≡◌, refl, ap}
use mathlib.Core.Bool.{Bool, true, false}
use mathlib.Core.Logic.{◌⊎◌, inl, inr}

-- The classes of exceptions that the modelled code raises, with the message's fixed words.
pub data Error : Type 0 where
  value_error : String → Error
  lookup_error : String → Error
  required_period_error : String → Error
  stale_accepted_decision_error : Error
  registry_error registry_out_of_sync unsafe_metric_deletion : Error
  mapping_decision_error : String → Error
  concept_not_found conflicting_exact_mapping metric_definition_changed : Error
  integrity_error : String → Error
  bundle_structure_error : String → Error
  quality_report_error : String → Error
  oracle_input_error : String → Error
  bundle_decode_error record_decode_error : String → Error
  uri_identity_error type_error key_error : String → Error
  destination_forbidden size_limit_exceeded max_redirects_exceeded : String → Error
  http_status_error : ℕ → Error
  runtime_error file_not_found : String → Error

pub data Result {ℓ} (A : Type ℓ) : Type ℓ where
  ok : A → Result A
  err : Error → Result A

infixl 5 ◌>>=◌ ◌>>◌
abbrev pub ◌>>=◌ {ℓ κ} : {S : Type ℓ} {T : Type κ} → Result S → (S → Result T) → Result T
err error >>= next = err error
ok x >>= next = next x

abbrev pub ◌>>◌ {ℓ κ} : {S : Type ℓ} {T : Type κ} → Result S → Result T → Result T
first >> second = first >>= λ _. second

-- `if test: raise error`
abbrev pub raise_if : Bool → Error → Result (Unit {0})
raise_if true e = err e
raise_if false e = ok tt

pub Result-cases {ℓ} :
    {S : Type ℓ} (r : Result S) → ((x : S) × (r ≡ ok x)) ⊎ ((error : Error) × (r ≡ err error))
Result-cases (err error) = inr (error, refl)
Result-cases (ok x) = inl (x, refl)

-- A sequence that returns has returned at its first step.
pub >>=-eq-ok {ℓ κ} :
    {S : Type ℓ} {T : Type κ} (r : Result S) (next : S → Result T) {y : T}
    → (r >>= next) ≡ ok y
    → (x : S) × (r ≡ ok x) × (next x ≡ ok y)
>>=-eq-ok (err error) next e = cc
>>=-eq-ok (ok x) next e = (x, refl, e)

pub raise_if-eq-ok : (b : Bool) (e : Error) {u : Unit {0}} → raise_if b e ≡ ok u → b ≡ false
raise_if-eq-ok true e h = cc
raise_if-eq-ok false e h = refl

abbrev ok_or {ℓ} : {S : Type ℓ} → S → Result S → S
ok_or default (ok x) = x
ok_or default (err e) = default

pub ok_injective {ℓ} : {S : Type ℓ} {x y : S} → ok x ≡ ok y → x ≡ y
ok_injective {x = x} h = ap (ok_or x) h

-- A check that has let a value through.
pub raise_if-then {ℓ} :
    {A : Type ℓ} (b : Bool) (e : Error) (rest : Result A) {y : A}
    → (raise_if b e >> rest) ≡ ok y
    → (b ≡ false) × (rest ≡ ok y)
raise_if-then true e rest h = cc
raise_if-then false e rest h = (refl, h)
