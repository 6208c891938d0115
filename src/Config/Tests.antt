-- ===== src/Config/Tests.antt =====
-- Runs of config/config.go, and its theorems at concrete inputs.
use idp_sdk.Common.{
  trim_space, String, ◌≡◌, refl, ◌↔◌, true, false, Option, none, some, List, [], ◌∷◌, ℤ, pos, ◌==◌,
  if◌then◌else◌, ok, err,
}
use idp_sdk.Common.{All}
use idp_sdk.Common.Failure.{plain, error_text}
use idp_sdk.Config.Presets.{
  server, postgres, embed, Target, struct_type, other_type, load, must_load, returned, exited,
}
use idp_sdk.Config.Accepted.{ReadsDefaults}
use idp_sdk.Config.Defaults.{WellSet, must_load_iff}
use idp_sdk.Config.{
  Parsers, Tags, text, int, texts, unsupported, Fields, leaf, struct, end, field, set_field,
  set_int, load_struct, load_field, load_slot,
}
use idp_sdk.Config.Parsing.{parse_int, unsigned, digits_from, split_commas}
use idp_sdk.Config.Loading.{Loads, reached, load_struct-Loads}
use idp_sdk.Config.Widths.{IsInt32, set_field-IsInt32}

-- No float and no duration is read.
abbrev parsers : Parsers
parsers = record {
  Float = String;
  Custom = String;
  parse_float = λ s. err (plain "no floats");
  narrow = λ bits f. f;
  parse_duration = λ s. err (plain "no durations");
  unmarshal_text = λ c s. (none, s);
}

abbrev tags : String → String → Tags
tags env def = record { env = env; env_default = some def; env_required = "" }

abbrev required : String → Tags
required env = record { env = env; env_default = none; env_required = "true" }

abbrev bare : Tags
bare = record { env = ""; env_default = none; env_required = "" }

abbrev config : String → ℤ → List String → Fields parsers
config dsn port hosts =
    field
      (struct true bare (unsupported "Postgres")
        (field (leaf true (required "DSN") (text dsn)) end))
      (field (leaf true (tags "PORT" "8080") (int 32 port)) (
        field (leaf true (tags "HOSTS" "a, b") (texts hosts))
          (field (leaf false bare (text "")) end)))

abbrev env : String → Option String
env key = if key == "DSN" then some "db" else none

abbrev nothing : String → Option String
nothing _ = none

loads :
    load_struct parsers env (config "" (pos 0) []) ≡ (none, config "db" (pos 8080) ("a" ∷ "b" ∷ []))
unfolding load_struct load_field load_slot set_field set_int parse_int unsigned digits_from
    split_commas trim_space
loads = refl

load_struct-Loads_example :
    Loads parsers nothing
      (reached parsers (config "" (pos 0) []))
      (load_struct parsers nothing (config "" (pos 0) [])).0
      (reached parsers (load_struct parsers nothing (config "" (pos 0) [])).1)
load_struct-Loads_example = load_struct-Loads parsers nothing (config "" (pos 0) [])

read : parse_int "8589934592" ≡ ok (pos 8_589_934_592)
unfolding parse_int unsigned digits_from
read = refl

set_field-IsInt32_example :
    (m : ℤ) × (set_field parsers (int 32 (pos 20)) "8589934592" ≡ (none, int 32 m))
    × IsInt32 m
    × ((m ≡ pos 8_589_934_592) ↔ IsInt32 (pos 8_589_934_592))
set_field-IsInt32_example = set_field-IsInt32 parsers "8589934592" (pos 20) (pos 8_589_934_592) read

-- A number of connections that is far too large is stored as 0.
wrapped : set_field parsers (int 32 (pos 20)) "8589934592" ≡ (none, int 32 (pos 0))
unfolding set_field set_int parse_int unsigned digits_from
wrapped = refl

-- A service with a server and a database, and its environment.
abbrev reader : Parsers
reader = record parsers {
  parse_float = λ s. ok s;
  parse_duration = λ s. ok (if s == "15s" then pos 15_000_000_000 else pos 5_000_000_000);
}

reader-ReadsDefaults : ReadsDefaults reader
reader-ReadsDefaults = record { fifteen_seconds = refl; five_seconds = refl; one = ("1.0", refl) }

abbrev deployed : String → Option String
deployed key =
    if key == "POSTGRES_DSN"
    then some "postgres://db"
    else if key == "HTTP_PORT"
    then some "http"
    else none

must_load_iff_example :
    ((cfg : Target reader deployed) × (must_load reader deployed
          (struct_type (embed reader "" (server ∷ postgres ∷ [])))
        ≡ returned cfg))
    ↔ All (WellSet reader "" reader-ReadsDefaults deployed) (server ∷ postgres ∷ [])
must_load_iff_example =
    must_load_iff reader "" reader-ReadsDefaults deployed (server ∷ postgres ∷ [])

-- A database alone starts; with the server, the port is refused.
started :
    (cfg : Target reader deployed) × (must_load reader deployed
        (struct_type (embed reader "" (postgres ∷ [])))
      ≡ returned cfg)
unfolding must_load load load_struct load_field load_slot set_field set_int parse_int unsigned
    digits_from
started = (_, refl)

refused_type :
    must_load reader deployed (other_type "int")
    ≡ exited "config: config: Load requires a struct type, got int" 1
unfolding must_load load error_text
refused_type = refl
