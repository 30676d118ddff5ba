-- ===== src/Logging/Tests.antt =====
-- The manager of loggers at a concrete history, with names as the registry and texts as JSON.
use chain_forge.Base.Text.{Text, codes}
use chain_forge.Logging.Logger.{JsonValues, debug, info}
use chain_forge.Logging.Logger as Log
use chain_forge.Logging.Manager.{
  Spdlog, LogManager, LogConfig, get_logger, get_default_logger, get_performance_logger, initialize,
  create_sinks,
}
use chain_forge.Logging.Manager.Registration.{
  Event, initializes, updates, gets, shuts_down, sets_level, run, IsDocumented, get_logger-throws,
}
use chain_forge.Base.{
  beq_self, bytes_eq, ◌||◌, nat_eq, some, refl, if◌then◌else◌, ◌==◌, length, Option, ◌∷◌, none,
  false, ◌++◌, true, ◌≡◌, [], List, map, Bool,
}

abbrev has : Text → List Text → Bool
has name [] = false
has name (n ∷ names) = (name == n) || has name names

abbrev unless_taken : {A : Type 0} → Text → List Text → A → Option A
unless_taken name names a = if has name names then none else some a

abbrev names_only : Spdlog (List Text) Text
names_only = record {
  is_registered = has;
  register_logger = λ logger sinks names. unless_taken logger.name names (logger.name ∷ names);
  stdout_color_mt = λ name names.
      unless_taken name names (record { name = name; level = 2; written = [] }, name ∷ names);
  set_level = λ l names. names;
  shutdown = λ names. [];
}

abbrev text_values : JsonValues Text
text_values = record {
  null = [];
  text = λ t. t;
  assign = λ key value t. t ++ key ++ value;
  is_empty = λ t. length t == 0;
  items = λ t. (codes "service", t) ∷ [];
  dump = λ pretty t. t;
}

has-first : (name : Text) (names : List Text) → has name (name ∷ names) ≡ true
has-first name names = rw (beq_self name) refl

taken_or_first :
    (b : Bool) (names names' : List Text)
    → (if b then none else some names) ≡ some names'
    → names ≡ names'
taken_or_first true names names' h = absurd cc
taken_or_first false names names' h = cc

names_only-registered :
    (name : Text) (names names' : List Text)
    → unless_taken name names (name ∷ names) ≡ some names'
    → has name names' ≡ true
names_only-registered name names names' h =
    rw⁻¹ (taken_or_first (has name names) (name ∷ names) names' h) (has-first name names)

abbrev names_only-IsDocumented : IsDocumented names_only
names_only-IsDocumented = record {
  registered = λ logger sinks r r' h. names_only-registered logger.name r r' h;
  stdout_color_mt-taken = λ name r h. rw h refl;
}

abbrev console_config : LogConfig Text
console_config = record {
  console_level = info;
  file_level = debug;
  log_directory = codes "logs";
  log_file_pattern = codes "chainforge.log";
  max_file_size = 10485760;
  max_files = 5;
  enable_json_format = true;
  enable_console_output = true;
  enable_file_output = true;
  pretty_print_console = false;
  pretty_print_file = false;
  global_fields = codes "main";
}

abbrev first : LogManager (List Text) Text
first = record {
  config = console_config;
  initialized = false;
  loggers = [];
  sinks = [];
  console_sink = none;
  file_sink = none;
  registry = [];
}

abbrev history : List (Event Text)
history =
    initializes console_config true true
    ∷ gets (codes "mempool")
    ∷ shuts_down
    ∷ updates console_config true false
    ∷ sets_level debug
    ∷ []

-- Both sinks are made, at their levels.
two_sinks :
    map
      (λ s. s.level)
      (run text_values names_only (initializes console_config true true ∷ []) first).sinks
    ≡ 2 ∷ 1 ∷ []
unfolding initialize create_sinks Log.to_spdlog_level
two_sinks = refl

get_logger-throws_example :
    ((get_logger names_only (codes "mempool") (run text_values names_only history first)).0 ≡ none)
    × ((get_default_logger names_only (run text_values names_only history first)).0 ≡ none)
    × ((get_performance_logger names_only (run text_values names_only history first)).0 ≡ none)
    × ((run text_values names_only history first).loggers ≡ [])
get_logger-throws_example =
    get_logger-throws text_values names_only names_only-IsDocumented history first (codes "mempool")
      refl
