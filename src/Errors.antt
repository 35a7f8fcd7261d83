-- ===== src/Errors.antt =====
-- Go's errors and results. The Kubernetes API's errors are told apart by `IsNotFound` and
-- `IsAlreadyExists`, which look through `fmt.Errorf` with `%w`; every other error is its message.
use workbenches_operator.Prelude.{String, ◌<>◌, ◌≡◌, Bool, true, false, refl, ◌⊎◌, inl, inr}

pub data Error : Type 0 where
  not_found : String → Error
  already_exists : String → Error
  failure : String → Error
  -- an error variable of a package, which `errors.Is` tells apart
  sentinel : String → Error
  -- the text before the wrapped error, the wrapped error, and the text behind it
  wrapped : String → Error → String → Error

unfoldable pub message : Error → String
message (not_found s) = s
message (already_exists s) = s
message (failure s) = s
message (sentinel s) = s
message (wrapped before e after) = before <> message e <> after

unfoldable pub is_not_found : Error → Bool
is_not_found (not_found s) = true
is_not_found (already_exists s) = false
is_not_found (failure s) = false
is_not_found (sentinel s) = false
is_not_found (wrapped before e after) = is_not_found e

unfoldable pub is_already_exists : Error → Bool
is_already_exists (not_found s) = false
is_already_exists (already_exists s) = true
is_already_exists (failure s) = false
is_already_exists (sentinel s) = false
is_already_exists (wrapped before e after) = is_already_exists e

-- An error, or the value that is returned where there is none.
pub data Result {ℓ} (A : Type ℓ) : Type ℓ where
  err : Error → Result A
  ok : A → Result A

infixl 5 ◌>>=◌
-- `if err != nil { return err }` between two steps.
abbrev pub ◌>>=◌ {ℓ κ} : {A : Type ℓ} {B : Type κ} → Result A → (A → Result B) → Result B
err e >>= next = err e
ok value >>= next = next value

infixl 5 ◌>>◌
abbrev pub ◌>>◌ {ℓ} : {B : Type ℓ} → Result (Unit {0}) → Result B → Result B
step >> next = step >>= λ _. next

-- `fmt.Errorf("…: %w", err)`
abbrev pub wrap : String → Error → Error
wrap text e = wrapped (text <> ": ") e ""

abbrev pub wrap_err {ℓ} : {A : Type ℓ} → String → Result A → Result A
wrap_err text (ok a) = ok a
wrap_err text (err e) = err (wrap text e)

pub is_not_found-wrap : (text : String) (e : Error) → is_not_found (wrap text e) ≡ is_not_found e
unfolding is_not_found
is_not_found-wrap text e = refl

-- A chain that succeeds has a first step that succeeds.
pub >>=-eq-ok {ℓ κ} :
    {A : Type ℓ} {B : Type κ} {last : B} (first : Result A) (next : A → Result B)
    → (first >>= next) ≡ ok last
    → (value : A) × (first ≡ ok value) × (next value ≡ ok last)
>>=-eq-ok (err e) next h = absurd (cc h)
>>=-eq-ok (ok value) next h = (value, refl, h)

pub ok-injective {ℓ} : {A : Type ℓ} {a b : A} → ok a ≡ ok b → a ≡ b
ok-injective h = cc

pub wrap_err-eq-ok {ℓ} :
    {A : Type ℓ} (text : String) (r : Result A) {a : A} → wrap_err text r ≡ ok a → r ≡ ok a
wrap_err-eq-ok text (ok a) h = h
wrap_err-eq-ok text (err e) h = absurd (cc h)

pub Result-cases {ℓ} :
    {A : Type ℓ} (r : Result A) → ((e : Error) × (r ≡ err e)) ⊎ ((a : A) × (r ≡ ok a))
Result-cases (ok a) = inr (a, refl)
Result-cases (err e) = inl (e, refl)
