-- ===== src/Logging/Logger/Levels.antt =====
-- Levels of a logger, and what it writes.
use chain_forge.Base.Text.{Text}
use chain_forge.Logging.Logger.{
  payload, trace, debug, info, warn, error, critical, off, Logger, LogLevel, JsonValues,
  to_spdlog_level, should_log, set_level, log, get_level,
}
use chain_forge.Base.{
  arith, [], ◌∷◌, length-append, refl, inr, inl, leb, Bool-cases, if◌then◌else◌, ◌+◌, ◌≡◌, length,
}

-- The level of a logger is the one that was set last.
pub get_level-set_level : (l : LogLevel) (g : Logger) → get_level (set_level l g) ≡ l
unfolding get_level set_level to_spdlog_level
get_level-set_level trace g = refl
get_level-set_level debug g = refl
get_level-set_level info g = refl
get_level-set_level warn g = refl
get_level-set_level error g = refl
get_level-set_level critical g = refl
get_level-set_level off g = refl

-- A logger writes a message exactly where its level is not above that of the message.
pub log-written :
    {J : Type 0} (json : JsonValues J) (l : LogLevel) (message : Text) (context : J) (g : Logger)
    → length (log json l message context g).logger.written
      ≡ length g.logger.written + (if should_log l g then 1 else 0)
unfolding log should_log
log-written json l message context g = elim (Bool-cases (leb g.logger.level (to_spdlog_level l))) [
  | inl e ↦
      rw e (length-append g.logger.written ((to_spdlog_level l, payload json message context) ∷ []))
  | inr e ↦ rw e (omega arith)
]
