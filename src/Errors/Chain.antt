-- ===== src/Errors/Chain.antt =====
-- Which error `As` and `Is` of errors/errors.go see in a tree of wrapped and joined errors.
use idp_sdk.Common.{
  String, ◌≡◌, refl, ◌↔◌, true, none, some, arith, eq_iff, GoError, Option-cases, inl, inr,
}
use idp_sdk.Common.Failure.{GoErrors, variable, plain, wrapped, joined, sdk, none_left, error}
use idp_sdk.Errors.{Error, to_go, wrap, as_error, as_error_any, is_code}

-- A tree without an `*Error` that can be reached by unwrapping.
mutual
  pub data Lacks : GoError → Type 0 where
    a_variable : {n m : String} → Lacks (variable n m)
    a_plain : {m : String} → Lacks (plain m)
    a_wrapped : {m : String} {e : GoError} → Lacks e → Lacks (wrapped m e)
    a_joined : {es : GoErrors} → LacksAll es → Lacks (joined es)

  pub data LacksAll : GoErrors → Type 0 where
    done : LacksAll none_left
    more : {e : GoError} {es : GoErrors} → Lacks e → LacksAll es → LacksAll (error e es)

-- The first `*Error` of a tree, in the order in which causes are unwrapped.
mutual
  pub data First (x : Error) : GoError → Type 0 where
    here : {e : GoError} → e ≡ to_go x → First x e
    under : {m : String} {e : GoError} → First x e → First x (wrapped m e)
    among : {es : GoErrors} → FirstAmong x es → First x (joined es)

  pub data FirstAmong (x : Error) : GoErrors → Type 0 where
    now : {e : GoError} {es : GoErrors} → First x e → FirstAmong x (error e es)
    later : {e : GoError} {es : GoErrors} → Lacks e → FirstAmong x es → FirstAmong x (error e es)

mutual
  unfolding as_error

  as_error-Lacks : (e : GoError) → as_error e ≡ none → Lacks e
  as_error-Lacks (variable n m) h = a_variable
  as_error-Lacks (plain m) h = a_plain
  as_error-Lacks (wrapped m e) h = a_wrapped (as_error-Lacks e h)
  as_error-Lacks (joined es) h = a_joined (as_error_any-Lacks es h)
  as_error-Lacks (sdk c m k d) h = cc

  as_error_any-Lacks : (es : GoErrors) → as_error_any es ≡ none → LacksAll es
  as_error_any-Lacks none_left h = done
  as_error_any-Lacks (error e es) h =
      more (as_error-Lacks e (ground arith)) (as_error_any-Lacks es (ground arith))

mutual
  unfolding as_error

  Lacks-as_error : {e : GoError} → Lacks e → as_error e ≡ none
  Lacks-as_error a_variable = refl
  Lacks-as_error a_plain = refl
  Lacks-as_error (a_wrapped l) = Lacks-as_error l
  Lacks-as_error (a_joined l) = Lacks-as_error_any l

  Lacks-as_error_any : {es : GoErrors} → LacksAll es → as_error_any es ≡ none
  Lacks-as_error_any done = refl
  Lacks-as_error_any (more l ls) = rw (Lacks-as_error l) (Lacks-as_error_any ls)

mutual
  unfolding as_error

  as_error-First : (e : GoError) (x : Error) → as_error e ≡ some x → First x e
  as_error-First (variable n m) x h = cc
  as_error-First (plain m) x h = cc
  as_error-First (wrapped m e) x h = under (as_error-First e x h)
  as_error-First (joined es) x h = among (as_error_any-First es x h)
  as_error-First (sdk c m k d) x h = here (ground arith)

  as_error_any-First : (es : GoErrors) (x : Error) → as_error_any es ≡ some x → FirstAmong x es
  as_error_any-First none_left x h = cc
  as_error_any-First (error e es) x h = elim (Option-cases (as_error e)) [
    | inl nothing ↦ later (as_error-Lacks e nothing) (as_error_any-First es x (ground arith))
    | inr (y, found) ↦ now (as_error-First e x (ground arith))
  ]

mutual
  unfolding as_error

  First-as_error : {x : Error} {e : GoError} → First x e → as_error e ≡ some x
  First-as_error (here p) = rw p
  First-as_error (under f) = First-as_error f
  First-as_error (among f) = First-as_error_any f

  First-as_error_any : {x : Error} {es : GoErrors} → FirstAmong x es → as_error_any es ≡ some x
  First-as_error_any (now f) = rw (First-as_error f)
  First-as_error_any (later l f) = rw (Lacks-as_error l) (First-as_error_any f)

-- `As` returns exactly the first `*Error` of the tree, in the order of unwrapping, and fails exactly
-- where no `*Error` can be reached.
pub as_error_iff :
    (e : GoError)
    → ((x : Error) → (as_error e ≡ some x) ↔ First x e) × ((as_error e ≡ none) ↔ Lacks e)
as_error_iff e = (λ x. (as_error-First e x, First-as_error), (as_error-Lacks e, Lacks-as_error))

-- Under any wrapping by `%w`, an error made by `Wrap`, with details attached or not, hides the codes
-- of its causes: `Is` holds for its own code and for no other.
pub is_code-wrap :
    (outer code message asked : String) (e : GoError)
    → (is_code (wrapped outer (to_go (wrap code message e))) asked ≡ true) ↔ (code ≡ asked)
unfolding is_code as_error wrap
is_code-wrap outer code message asked e = eq_iff code asked
