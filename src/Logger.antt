-- ===== src/Logger.antt =====
-- internal/logger/logger.go: the levels, and the lines that each method writes to the standard output.
-- A message is given as formatted; the time of day is a text. `Printf` of Go's package log puts
-- the prefix and the time in front of the message.
use Prim.Native.String.{◌++◌, count}
use sprawler.Common.{ℕ, zero, suc, ◌-◌, String, List, [], ◌∷◌, leb, str_eq, if◌then◌else◌}

pub data LogLevel : Type 0 where
  error warn info debug trace : LogLevel

-- The value of `iota`.
abbrev pub rank : LogLevel → ℕ
rank error = 0
rank warn = 1
rank info = 2
rank debug = 3
rank trace = 4

abbrev pub append : List String → String → List String
append [] s = s ∷ []
append (t ∷ ts) s = t ∷ append ts s

-- 23 spaces.
abbrev pub pad : String
pad = "                       "

pub record Logger : Type 0 where
  pub prefix : String
  pub level : LogLevel

abbrev spaces : ℕ → String
spaces zero = ""
spaces (suc n) = " " ++ spaces n

-- `[%-4s] ` of the name.
abbrev pub prefix_of : String → String
prefix_of name = "[" ++ (name ++ (spaces (4 - count name) ++ "] "))

unfoldable pub get_log_level_from_env : (String → String) → String → LogLevel
get_log_level_from_env to_upper text =
    let s = to_upper text in
    if str_eq s "ERROR"
    then error
    else if str_eq s "WARN"
    then warn
    else if str_eq s "WARNING"
    then warn
    else if str_eq s "INFO"
    then info
    else if str_eq s "DEBUG"
    then debug
    else if str_eq s "TRACE"
    then trace
    else info

unfoldable pub new_logger : (String → String) → String → String → Logger
unfolding get_log_level_from_env
new_logger to_upper text name = record {
  prefix = prefix_of name;
  level = get_log_level_from_env to_upper text;
}

module _ (l : Logger) where
  -- `log.Printf` with the prefix and the time.
  abbrev line : String → String → String
  line time text = l.prefix ++ (time ++ (" " ++ text))

  -- The lines written so far, and one more where the level is at least as verbose.
  abbrev write_at : LogLevel → String → String → List String → List String
  write_at at time text out =
      if leb (rank at) (rank l.level) then append out (line time text) else out

  unfoldable pub errorf : String → String → List String → List String
  errorf time message out = write_at error time ("[ERROR] " ++ message) out

  unfoldable pub warnf : String → String → List String → List String
  warnf time message out = write_at warn time ("[WARN] " ++ message) out

  unfoldable pub infof : String → String → List String → List String
  infof time message out = write_at info time ("[INFO] " ++ message) out

  unfoldable pub debugf : String → String → List String → List String
  debugf time message out = write_at debug time ("[DEBUG] " ++ message) out

  unfoldable pub tracef : String → String → List String → List String
  tracef time message out = write_at trace time ("[TRACE] " ++ message) out

  -- A continuation line has neither prefix nor time.
  unfoldable pub continuef : String → List String → List String
  continuef message out =
      if leb (rank info) (rank l.level) then append out (pad ++ message) else out
