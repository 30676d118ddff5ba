-- ===== src/Logging/Logger.antt =====
-- modules/logging/src/logger.cpp and json_formatter.cpp. A level of spdlog is its number.
pub mod Levels
use chain_forge.Base.Text.{codes, Text}
use chain_forge.Base.{
  [], ◌∷◌, nat_eq, false, not, leb, ◌==◌, ◌++◌, Option, Bool, List, if◌then◌else◌, ℕ,
}

pub data LogLevel : Type 0 where
  trace debug info warn error critical off : LogLevel

unfoldable pub to_spdlog_level : LogLevel → ℕ
to_spdlog_level trace = 0
to_spdlog_level debug = 1
to_spdlog_level info = 2
to_spdlog_level warn = 3
to_spdlog_level error = 4
to_spdlog_level critical = 5
to_spdlog_level off = 6

-- What the code calls of nlohmann's JSON.
pub record JsonValues (J : Type 0) : Type 0 where
  pub null : J
  pub text : Text → J
  -- `j[key] = value`
  pub assign : Text → J → J → J
  pub is_empty : J → Bool
  pub items : J → List (Text × J)
  -- Pretty or not
  pub dump : Bool → J → Text

-- A logger of spdlog: `written` are the levels and the messages it was given to write.
pub record SpdLogger : Type 0 where
  pub name : Text
  pub level : ℕ
  pub written : List (ℕ × Text)

-- `spdlog::logger::should_log`
abbrev pub passes : ℕ → SpdLogger → Bool
passes l s = leb s.level l

-- `spdlog::logger::log`
abbrev pub write : ℕ → Text → SpdLogger → SpdLogger
write l message s = if passes l s then record s { written = s.written ++ (l, message) ∷ [] } else s

pub record Logger : Type 0 where
  pub name : Text
  pub logger : SpdLogger

unfoldable pub set_level : LogLevel → Logger → Logger
set_level l g = record g { logger = record (g.logger) { level = to_spdlog_level l } }

abbrev pub level_of : ℕ → LogLevel
level_of n =
    if n == 0
    then trace
    else if n == 1
    then debug
    else if n == 2
    then info
    else if n == 3
    then warn
    else if n == 4
    then error
    else if n == 5
    then critical
    else if n == 6
    then off
    else info

unfoldable pub get_level : Logger → LogLevel
get_level g = level_of g.logger.level

unfoldable pub should_log : LogLevel → Logger → Bool
should_log l g = passes (to_spdlog_level l) g.logger

-- `JsonFormatter`
pub record JsonFormatter (J : Type 0) : Type 0 where
  pub pretty_print : Bool
  pub global_fields : J

module _ {J : Type 0} (json : JsonValues J) where
  -- The message, with the fields of the context as JSON where there are any.
  abbrev pub payload : Text → J → Text
  payload message context =
      if not (json.is_empty context)
      then json.dump false (
          json.assign (codes "fields") context
            (json.assign (codes "message") (json.text message) json.null))
      else message

  unfoldable pub log : LogLevel → Text → J → Logger → Logger
  unfolding should_log
  log l message context g =
      if not (should_log l g)
      then g
      else record g { logger = write (to_spdlog_level l) (payload message context) g.logger }

  unfoldable pub new_formatter : Bool → JsonFormatter J
  new_formatter pretty_print = record {
    pretty_print = pretty_print;
    global_fields =
        json.assign (codes "version") (json.text (codes "1.0.0"))
          (json.assign (codes "service") (json.text (codes "chainforge")) json.null);
  }

  unfoldable pub add_global_field : Text → J → JsonFormatter J → JsonFormatter J
  add_global_field key value f = record f { global_fields = json.assign key value f.global_fields }

  abbrev pub add_all : List (Text × J) → JsonFormatter J → JsonFormatter J
  add_all [] f = f
  add_all ((key, value) ∷ rest) f = add_all rest (add_global_field key value f)
