-- ===== src/Logging/Manager/Registration.antt =====
-- Every logger is registered twice: by `setup_logger`, and by the constructor of `Logger`.
use chain_forge.Logging.Logger.{LogLevel, SpdLogger, JsonValues}
use chain_forge.Logging.Manager.{
  made, codes, update_config, Sink, set_global_level, create_sinks, Text, get_performance_logger,
  LogManager, shutdown, get_logger, initialize, LogConfig, Spdlog, get_default_logger,
}
use chain_forge.Base.{
  refl, inr, inl, Option-cases, true, none, arith, [], some, ◌≡◌, ◌∷◌, List, Bool,
}

-- A name stays registered, and is taken then.
pub record IsDocumented {R J : Type 0} (spdlog : Spdlog R J) : Type 0 where
  pub registered :
      (logger : SpdLogger) (sinks : List (Sink J)) (r r' : R)
      → spdlog.register_logger logger sinks r ≡ some r'
      → spdlog.is_registered logger.name r' ≡ true
  pub stdout_color_mt-taken :
      (name : Text) (r : R)
      → spdlog.is_registered name r ≡ true
      → spdlog.stdout_color_mt name r ≡ none

-- The calls that change the manager; the two answers of the file system go with a configuration.
pub data Event (J : Type 0) : Type 0 where
  initializes : LogConfig J → Bool → Bool → Event J
  updates : LogConfig J → Bool → Bool → Event J
  shuts_down : Event J
  gets : Text → Event J
  sets_level : LogLevel → Event J

module _ {R J : Type 0} (json : JsonValues J) (spdlog : Spdlog R J) where
  abbrev pub step : Event J → LogManager R J → LogManager R J
  step (initializes config created opened) m = (initialize json spdlog config created opened m).1
  step (updates config created opened) m = (update_config json spdlog config created opened m).1
  step shuts_down m = shutdown spdlog m
  step (gets name) m = (get_logger spdlog name m).1
  step (sets_level l) m = set_global_level spdlog l m

  abbrev pub run : List (Event J) → LogManager R J → LogManager R J
  run [] m = m
  run (e ∷ es) m = run es (step e m)

  module _ (documented : IsDocumented spdlog) where
    get_logger-empty :
        (name : Text) (m : LogManager R J)
        → m.loggers ≡ []
        → ((get_logger spdlog name m).0 ≡ none) × ((get_logger spdlog name m).1.loggers ≡ [])
    unfolding get_logger
    get_logger-empty name m h =
        elim (Option-cases (spdlog.register_logger (made name m) m.sinks m.registry)) [
          | inl e ↦ rw (h, e) (refl, refl)
          | inr (r, e) ↦
              let taken = documented.registered (made name m) m.sinks m.registry r e in
              rw (h, e, documented.stdout_color_mt-taken name r taken) (refl, refl)
        ]

    initialize-empty :
        (config : LogConfig J) (created opened : Bool) (m : LogManager R J)
        → m.loggers ≡ []
        → (initialize json spdlog config created opened m).1.loggers ≡ []
    unfolding initialize create_sinks
    initialize-empty config created opened m h = ground arith

    step-empty : (e : Event J) (m : LogManager R J) → m.loggers ≡ [] → (step e m).loggers ≡ []
    unfolding shutdown set_global_level update_config
    step-empty (initializes config created opened) m h = initialize-empty config created opened m h
    step-empty (updates config created opened) m h = initialize-empty config created opened m h
    step-empty shuts_down m h = refl
    step-empty (gets name) m h = (get_logger-empty name m h).1
    step-empty (sets_level l) m h = rw h refl

    run-empty :
        (es : List (Event J)) (m : LogManager R J) → m.loggers ≡ [] → (run es m).loggers ≡ []
    run-empty [] m h = h
    run-empty (e ∷ es) m h = run-empty es (step e m) (step-empty e m h)

-- With a registry of spdlog that refuses a name that is taken, every call of get_logger throws,
-- whatever was called before on a manager that starts without loggers, and no logger is ever kept.
pub get_logger-throws :
    {R J : Type 0} (json : JsonValues J) (spdlog : Spdlog R J)
    → IsDocumented spdlog
    → (es : List (Event J)) (m : LogManager R J) (name : Text) → m.loggers ≡ []
    → ((get_logger spdlog name (run json spdlog es m)).0 ≡ none)
      × ((get_default_logger spdlog (run json spdlog es m)).0 ≡ none)
      × ((get_performance_logger spdlog (run json spdlog es m)).0 ≡ none)
      × ((run json spdlog es m).loggers ≡ [])
unfolding get_default_logger get_performance_logger
get_logger-throws json spdlog documented es m name h =
    let empty = run-empty json spdlog documented es m h in
    (
      (get_logger-empty json spdlog documented name (run json spdlog es m) empty).0,
      (get_logger-empty json spdlog documented (codes "chainforge") (run json spdlog es m) empty).0,
      (get_logger-empty json spdlog documented (codes "performance") (run json spdlog es m)
          empty).0,
      empty,
    )
