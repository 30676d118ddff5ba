-- ===== src/Logging/Manager.antt =====
-- `LogManager` of modules/logging/src/log_manager.cpp, with the registry of spdlog that it uses. What
-- the file system answers is an argument. To flush a logger is output only.
pub mod Registration
use chain_forge.Base.Map.{insert, lookup, Map}
use chain_forge.Base.Text.{codes, Text}
use chain_forge.Logging.Logger as Log
use chain_forge.Logging.Logger.{
  new_formatter, add_all, to_spdlog_level, Logger, SpdLogger, JsonFormatter, LogLevel, JsonValues,
}
use chain_forge.Base.{
  false, bytes_eq, ◌++◌, not, ◌&&◌, none, List, ◌∷◌, true, [], map, some, if◌then◌else◌, Option,
  Bool, min, ℕ,
}

-- A size is in bytes.
pub record LogConfig (J : Type 0) : Type 0 where
  pub console_level : LogLevel
  pub file_level : LogLevel
  pub log_directory : Text
  pub log_file_pattern : Text
  pub max_file_size : ℕ
  pub max_files : ℕ
  pub enable_json_format : Bool
  pub enable_console_output : Bool
  pub enable_file_output : Bool
  pub pretty_print_console : Bool
  pub pretty_print_file : Bool
  pub global_fields : J

-- A rotating file has a directory, a name, a largest size and a number of files.
pub data Target : Type 0 where
  console : Target
  rotating_file : Text → Text → ℕ → ℕ → Target

pub data Formatter (J : Type 0) : Type 0 where
  json_lines : JsonFormatter J → Formatter J
  pattern_lines : Text → Formatter J

pub record Sink (J : Type 0) : Type 0 where
  pub target : Target
  pub level : ℕ
  pub formatter : Formatter J

-- The registry of spdlog with the loggers in use. `register_logger` throws, here `none`, and so does
-- `stdout_color_mt`, where the name is taken.
pub record Spdlog (R J : Type 0) : Type 0 where
  pub is_registered : Text → R → Bool
  pub register_logger : SpdLogger → List (Sink J) → R → Option R
  pub stdout_color_mt : Text → R → Option (SpdLogger × R)
  pub set_level : ℕ → R → R
  pub shutdown : R → R

-- `loggers_` with the state of the registry.
pub record LogManager (R J : Type 0) : Type 0 where
  pub config : LogConfig J
  pub initialized : Bool
  pub loggers : Map Text Logger
  pub sinks : List (Sink J)
  pub console_sink : Option (Sink J)
  pub file_sink : Option (Sink J)
  pub registry : R

-- Without a result the call threw.
abbrev pub Call : Type 0 → Type 0 → Type 0 → Type 0
Call R J A = Option A × LogManager R J

abbrev pub lower_level : {J : Type 0} → LogConfig J → ℕ
lower_level config = min (to_spdlog_level config.console_level) (to_spdlog_level config.file_level)

module _ {R J : Type 0} (json : JsonValues J) (spdlog : Spdlog R J) where
  abbrev formatter_of : Bool → Text → LogConfig J → Formatter J
  formatter_of pretty_print pattern_text config =
      if config.enable_json_format
      then json_lines
          (add_all json (json.items config.global_fields) (new_formatter json pretty_print))
      else pattern_lines pattern_text

  abbrev pub console_sink_of : LogConfig J → Sink J
  console_sink_of config = record {
    target = console;
    level = to_spdlog_level config.console_level;
    formatter =
        formatter_of config.pretty_print_console (codes "[%Y-%m-%d %H:%M:%S.%e] [%n] [%^%l%$] %v")
          config;
  }

  abbrev pub file_sink_of : LogConfig J → Sink J
  file_sink_of config = record {
    target =
        rotating_file config.log_directory config.log_file_pattern config.max_file_size
          config.max_files;
    level = to_spdlog_level config.file_level;
    formatter =
        formatter_of config.pretty_print_file (codes "[%Y-%m-%d %H:%M:%S.%e] [%n] [%l] %v") config;
  }

  abbrev with_console : LogManager R J → LogManager R J
  with_console m =
      if m.config.enable_console_output
      then record m {
        console_sink = some (console_sink_of m.config);
        sinks = console_sink_of m.config ∷ [];
      }
      else record m { sinks = [] }

  abbrev with_file : Bool → LogManager R J → Call R J (Unit {0})
  with_file opened m =
      if not m.config.enable_file_output then (some tt, m) else if not opened then (none, m) else (
        some tt,
        record m {
          file_sink = some (file_sink_of m.config);
          sinks = m.sinks ++ file_sink_of m.config ∷ [];
        },
      )

  -- `opened` says whether the file was opened.
  unfoldable pub create_sinks : Bool → LogManager R J → Call R J (Unit {0})
  create_sinks opened m = with_file opened (with_console m)

  abbrev start : Call R J (Unit {0}) → Call R J (Unit {0})
  start (none, m) = (none, m)
  start (some u, m) = (
    some u,
    record m {
      loggers = [];
      registry = spdlog.set_level (lower_level m.config) m.registry;
      initialized = true;
    },
  )

  -- `created` says whether the directory was created.
  unfoldable pub initialize : LogConfig J → Bool → Bool → LogManager R J → Call R J (Unit {0})
  unfolding create_sinks
  initialize config created opened m =
      let configured = record m { config = config } in
      if config.enable_file_output && not created
      then (none, configured)
      else start (create_sinks opened configured)

  unfoldable pub update_config : LogConfig J → Bool → Bool → LogManager R J → Call R J (Unit {0})
  update_config config created opened m = initialize config created opened m

-- The logger for spdlog, before it is registered
abbrev pub made : {R J : Type 0} → Text → LogManager R J → SpdLogger
made name m = record { name = name; level = lower_level m.config; written = [] }

-- What the constructor of `Logger` makes of a logger for the console.
abbrev at_info : Text → SpdLogger → Logger
at_info name own = record { name = name; logger = record own { level = 2 } }

module _ {R J : Type 0} (spdlog : Spdlog R J) where
  unfoldable pub shutdown : LogManager R J → LogManager R J
  shutdown m = record m {
    registry = spdlog.shutdown m.registry;
    loggers = [];
    sinks = [];
    console_sink = none;
    file_sink = none;
    initialized = false;
  }

  -- The constructor of `Logger` registers a logger of its own for the console. What `get_logger`
  -- assigns to the result of `spdlog_logger()` is a copy of the pointer.
  abbrev constructed : Text → Option (SpdLogger × R) → LogManager R J → Call R J Logger
  constructed name none m = (none, m)
  constructed name (some (own, r)) m = (
    some (at_info name own),
    record m { loggers = insert name (at_info name own) m.loggers; registry = r },
  )

  abbrev registered : Text → Option R → LogManager R J → Call R J Logger
  registered name none m = (none, m)
  registered name (some r) m =
      constructed name (spdlog.stdout_color_mt name r) (record m { registry = r })

  abbrev found_or_made : Text → Option Logger → LogManager R J → Call R J Logger
  found_or_made name (some logger) m = (some logger, m)
  found_or_made name none m =
      registered name (spdlog.register_logger (made name m) m.sinks m.registry) m

  unfoldable pub get_logger : Text → LogManager R J → Call R J Logger
  get_logger name m = found_or_made name (lookup name m.loggers) m

  unfoldable pub get_default_logger : LogManager R J → Call R J Logger
  get_default_logger m = get_logger (codes "chainforge") m

  unfoldable pub get_performance_logger : LogManager R J → Call R J Logger
  get_performance_logger m = get_logger (codes "performance") m

  abbrev all_at : LogLevel → Map Text Logger → Map Text Logger
  all_at l [] = []
  all_at l ((name, logger) ∷ rest) = (name, Log.set_level l logger) ∷ all_at l rest

  unfoldable pub set_global_level : LogLevel → LogManager R J → LogManager R J
  set_global_level l m = record m {
    registry = spdlog.set_level (to_spdlog_level l) m.registry;
    loggers = all_at l m.loggers;
  }
