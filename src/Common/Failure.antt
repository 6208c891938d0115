-- ===== src/Common/Failure.antt =====
-- Go's `error` values, as far as the code looks into them, and functions that may fail.
-- A failing call returns its error in `Result`; `errors.Is` and `errors.As` walk the tree of causes.
use Prim.Native.String.{String}
use mathlib.Core.Path.{◌≡◌, ap}
use mathlib.Core.Bool.{Bool, false, ◌||◌}
use idp_sdk.Common.Tests.{◌==◌}
use idp_sdk.Common.Text.{◌<>◌}
use idp_sdk.Common.Value.{Fields}

mutual
  pub data GoError : Type 0 where
    -- a package's error variable: its name stands for its identity
    variable : (name message : String) → GoError
    -- an error with no cause that the code can reach, `fmt.Errorf` with no `%w`
    plain : (message : String) → GoError
    -- `fmt.Errorf` with one `%w`
    wrapped : (message : String) → GoError → GoError
    -- `errors.Join`
    joined : GoErrors → GoError
    -- the `*errors.Error` of the SDK's errors package
    sdk : (code message : String) → Cause → Fields → GoError

  pub data GoErrors : Type 0 where
    none_left : GoErrors
    error : GoError → GoErrors → GoErrors

  pub data Cause : Type 0 where
    no_cause : Cause
    cause : GoError → Cause

unfoldable mutual
  -- The text of an error, `err.Error()`; that of the SDK's own error names its code first.
  pub error_text : GoError → String
  error_text (variable n m) = m
  error_text (plain m) = m
  error_text (wrapped m e) = m
  error_text (joined es) = joined_text es
  error_text (sdk c m k d) = c <> ": " <> m <> cause_text k

  pub joined_text : GoErrors → String
  joined_text none_left = ""
  joined_text (error e es) = error_text e <> rest_text es

  pub rest_text : GoErrors → String
  rest_text none_left = ""
  rest_text (error e es) = "\n" <> error_text e <> rest_text es

  pub cause_text : Cause → String
  cause_text no_cause = ""
  cause_text (cause e) = ": " <> error_text e

-- `fmt.Errorf("…: %w", err)`
unfoldable pub wrap_with : String → GoError → GoError
unfolding error_text
wrap_with prefix e = wrapped (prefix <> error_text e) e

unfoldable mutual
  -- `errors.Is` against an error variable, by its name.
  pub is_variable : String → GoError → Bool
  is_variable name (variable n m) = n == name
  is_variable name (plain m) = false
  is_variable name (wrapped m e) = is_variable name e
  is_variable name (joined es) = is_variable_any name es
  is_variable name (sdk c m k d) = is_variable_cause name k

  pub is_variable_any : String → GoErrors → Bool
  is_variable_any name none_left = false
  is_variable_any name (error e es) = is_variable name e || is_variable_any name es

  pub is_variable_cause : String → Cause → Bool
  is_variable_cause name no_cause = false
  is_variable_cause name (cause e) = is_variable name e

-- A pair `(A, error)` of which one half counts, as the code returns it.
pub data Result {ℓ} (A : Type ℓ) : Type ℓ where
  err : GoError → Result A
  ok : A → Result A

-- `if err != nil { return err }` between two steps.
infixl 10 ◌>>=◌
abbrev pub ◌>>=◌ : {A B : Type 0} → Result A → (A → Result B) → Result B
err e >>= next = err e
ok a >>= next = next a

abbrev value_or {ℓ} : {A : Type ℓ} → A → Result A → A
value_or a (err e) = a
value_or a (ok b) = b

pub ok-injective {ℓ} : {A : Type ℓ} {a b : A} → ok a ≡ ok b → a ≡ b
ok-injective {a} h = ap (value_or a) h
