-- ===== src/Slog.antt =====
-- log/slog, as logging/ and server/ use it: a logger with its attributes, and the lines it writes.
use idp_sdk.Common.{ℕ, String, List, ◌++◌, ℤ, leb, if◌then◌else◌}

pub data Level : Type 0 where
  debug : Level
  info : Level
  warn : Level
  error : Level

abbrev pub rank : Level → ℕ
rank debug = 0
rank info = 1
rank warn = 2
rank error = 3

pub data Format : Type 0 where
  text_format : Format
  json_format : Format

pub data Value : Type 0 where
  text : String → Value
  int : ℤ → Value
  duration : ℤ → Value

abbrev pub Attr : Type 0
Attr = String × Value

pub record Logger : Type 0 where
  pub format : Format
  pub level : Level
  pub attrs : List Attr

pub record Line : Type 0 where
  pub format : Format
  pub level : Level
  pub message : String
  pub attrs : List Attr

-- `logger.With`
unfoldable pub with_attrs : List Attr → Logger → Logger
with_attrs attrs l = record l { attrs = l.attrs ++ attrs }

-- What the SDK uses of its process: the clock in nanoseconds, the standard output, and the package
-- uuid, over a state that handlers change too.
pub record Process : Type 1 where
  pub World : Type 0
  pub now : World → ℤ
  pub print : Line → World → World
  pub new_uuid : World → String × World

-- `logger.Error` and the like: a line, where the level is enabled.
unfoldable pub log : (p : Process) → Logger → Level → String → List Attr → p.World → p.World
log p l level message attrs w =
    if leb (rank l.level) (rank level)
    then p.print
        (record { format = l.format; level = level; message = message; attrs = l.attrs ++ attrs }) w
    else w
