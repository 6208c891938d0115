-- ===== src/Gin/Chain.antt =====
-- Gin's chains of handlers, where a handler may panic. A middleware is given the rest of its chain,
-- what `c.Next()` runs.
use Prim.Native.String.{String}
use mathlib.Core.List.{List, [], ◌∷◌}

-- How a handler ends: in a state, or in a panic with a value.
pub data Ended (S : Type 0) : Type 0 where
  finished : S → Ended S
  panicked : String → S → Ended S

abbrev pub Handler : Type 0 → Type 0
Handler S = S → Ended S

abbrev pub Middleware : Type 0 → Type 0
Middleware S = Handler S → Handler S

-- `engine.Use`: the first middleware is the outermost.
abbrev pub chain : {S : Type 0} → List (Middleware S) → Handler S → Handler S
chain [] handler = handler
chain (m ∷ ms) handler = m (chain ms handler)
