-- ===== src/Logging/Tests.antt =====
-- Runs of logging/.
use idp_sdk.Common.{◌≡◌, refl, false, none, []}
use idp_sdk.Slog.{debug, info, warn, error, json_format, Logger}
use idp_sdk.Logging.{lowers_to, parse_level, new, Context, with_context, from_context, with_trace}

levels :
    (parse_level "WARNING" ≡ warn)
    × (parse_level "Debug" ≡ debug)
    × (parse_level "verbose" ≡ info)
    × (parse_level "" ≡ info)
unfolding parse_level lowers_to
levels = (refl, refl, refl, refl)

abbrev quiet : Logger
quiet = record { format = json_format; level = error; attrs = [] }

built : new (record { level = "error"; format = "logfmt" }) ≡ quiet
unfolding new parse_level lowers_to
built = refl

abbrev empty : Context
empty = record { logger = none; span = record { valid = false; trace_id = ""; span_id = "" } }

found : from_context (with_context empty quiet) (record quiet { level = info }) ≡ quiet
unfolding from_context with_context
found = refl

untraced : with_trace empty quiet ≡ quiet
unfolding with_trace
untraced = refl
