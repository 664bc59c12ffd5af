-- ===== src/Logging/Levels.antt =====
-- The levels at which the statements log.
use cevent_loop.Prelude.{◌≡◌, ◌⊎◌, inl, inr, refl, true, false, leb}
use cevent_loop.Logging.{
  LogLevel, trace, debug, info, warn, error, fatal, num_log_levels, rank, Macro, log_trace,
  log_debug, log_info, log_warn, log_syserr, log_fatal, enabled,
}

-- The level that the name of a macro says.
abbrev named : Macro → LogLevel
named log_trace = trace
named log_debug = debug
named log_info = info
named log_warn = warn
named log_syserr = error
named log_fatal = fatal

-- A statement logs exactly if the level of the logger is at most the one that the macro is named for,
-- except for LOG_WARN at the level WARN: it does not log there, where its name says that it should.
enabled_lem :
    (m : Macro) (level : LogLevel)
    → (enabled m level ≡ leb (rank level) (rank (named m)))
      ⊎ ((m ≡ log_warn)
          × (level ≡ warn)
          × (enabled m level ≡ false)
          × (leb (rank level) (rank (named m)) ≡ true))
unfolding enabled
enabled_lem log_trace trace = inl refl
enabled_lem log_trace debug = inl refl
enabled_lem log_trace info = inl refl
enabled_lem log_trace warn = inl refl
enabled_lem log_trace error = inl refl
enabled_lem log_trace fatal = inl refl
enabled_lem log_trace num_log_levels = inl refl
enabled_lem log_debug level = inl refl
enabled_lem log_info level = inl refl
enabled_lem log_warn trace = inl refl
enabled_lem log_warn debug = inl refl
enabled_lem log_warn info = inl refl
enabled_lem log_warn warn = inr (refl, refl, refl, refl)
enabled_lem log_warn error = inl refl
enabled_lem log_warn fatal = inl refl
enabled_lem log_warn num_log_levels = inl refl
enabled_lem log_syserr level = inl refl
enabled_lem log_fatal level = inl refl
