-- ===== src/Verdicts.antt =====
-- How messages were handled and how they were settled: what the consumers of messaging/ are judged by.
use idp_sdk.Common.{
  ◌≡◌, refl, sym, ap, ◌∙◌, Bool, true, false, Option, none, some, List, [], ◌∷◌, map, GoError,
}
use idp_sdk.Common.{◌++◌}
use mathlib.Core.List.{append_assoc, append-nil}

-- A message and whether it succeeded: its handling, or its settlement by an acknowledgement.
abbrev pub Verdict : Type 0 → Type 0
Verdict M = M × Bool

abbrev pub message_of : {M : Type 0} → Verdict M → M
message_of (m, b) = m

abbrev pub succeeded : Option GoError → Bool
succeeded none = true
succeeded (some e) = false

-- The verdicts of the handler, and those that the broker was told.
pub record History (M : Type 0) : Type 0 where
  pub handled : List (Verdict M)
  pub settled : List (Verdict M)

module _ {M : Type 0} where
  -- Some more messages, each settled as it was handled.
  abbrev pub behind : History M → List (Verdict M) → History M
  behind r es = record { handled = r.handled ++ es; settled = r.settled ++ es }

  pub behind-nil : (r : History M) → behind r [] ≡ r
  behind-nil r = rw (append-nil r.handled) (rw (append-nil r.settled) refl)

  pub behind-behind :
      (r : History M) (a b : List (Verdict M)) → behind (behind r a) b ≡ behind r (a ++ b)
  behind-behind r a b = rw (append_assoc r.handled a b) (rw (append_assoc r.settled a b) refl)

  -- One message handled, and settled by its verdict.
  abbrev pub add_handled : History M → Verdict M → History M
  add_handled r e = record r { handled = r.handled ++ (e ∷ []) }

  abbrev pub add_settled : History M → Verdict M → History M
  add_settled r e = record r { settled = r.settled ++ (e ∷ []) }

  -- The messages were all handled, in order, and each was settled as it was handled.
  abbrev pub Settles : List M → History M → History M → Type 0
  Settles ms r r' = (es : List (Verdict M)) × (map message_of es ≡ ms) × (r' ≡ behind r es)

  pub Settles-none : (r r' : History M) → r' ≡ r → Settles [] r r'
  Settles-none r r' h = ([], refl, h ∙ sym (behind-nil r))

  pub Settles-more :
      (m : M) (b : Bool) (ms : List M) (r v r' : History M)
      → v ≡ behind r ((m, b) ∷ [])
      → Settles ms v r'
      → Settles (m ∷ ms) r r'
  Settles-more m b ms r v r' first (es, all, h) = (
    (m, b) ∷ es,
    ap (λ l. m ∷ l) all,
    h ∙ ap (λ x. behind x es) first ∙ behind-behind r ((m, b) ∷ []) es,
  )
