-- ===== src/Zzlog.antt =====
-- zzlog/logger.go and zzlog/options.go: the logger of the process and the functions that write to it.
-- zap and its sinks are parameters.
pub mod Laws
use gffg.Prelude.{ℕ, ◌≡◌, Option, none, some, List, [], ◌∷◌, Bool, true, false}
use gffg.Prelude.Text.{Text}

-- `zapcore.Level`, in which `DPanic` and its siblings are methods of their own.
pub data Level : Type 0 where
  debug_level info_level warn_level error_level : Level
  dpanic_level panic_level fatal_level : Level

-- The four ways to write: `Info(args...)`, `Infof`, `Infoln` and `Infow`, and their siblings.
pub data Style : Type 0 where
  plain formatted line keyed : Style

pub record Options : Type 0 where
  pub level : Text
  pub log_name : Text

-- `LoggerOption`: `WithLevel` and `WithLogName`.
pub data LoggerOption : Type 0 where
  with_level with_log_name : Text → LoggerOption

abbrev apply : LoggerOption → Options → Options
apply (with_level t) o = record o { level = t }
apply (with_log_name t) o = record o { log_name = t }

abbrev apply_all : List LoggerOption → Options → Options
apply_all [] o = o
apply_all (f ∷ opts) o = apply_all opts (apply f o)

-- `initOpts`.
unfoldable pub init_opts : List LoggerOption → Options
init_opts opts = apply_all opts (record { level = []; log_name = [] })

-- The file of lumberjack, next to the standard output, and the level of the core.
pub record Sink : Type 0 where
  pub filename : Text
  pub max_size : ℕ
  pub max_backups : ℕ
  pub max_age : ℕ
  pub compress : Bool
  pub level : Level

-- What zap has: the logger of `NewProduction`, `ParseLevel`, the logger on a sink, and what a method of a
-- logger does with its arguments, printed in one text.
pub record Zap : Type 1 where
  pub Logger : Type 0
  pub Effect : Type 0
  pub production : Logger
  pub parse_level : Text → Option Level
  pub new_logger : Sink → Logger
  pub effect_of : Logger → Level → Style → Text → Effect

module _ (zap : Zap) where
  abbrev pub level_of : Option Level → Level
  level_of none = info_level
  level_of (some level) = level

  abbrev configured : zap.Logger → Text → Text → zap.Logger
  configured def_logger level [] = def_logger
  configured def_logger level (c ∷ name) = zap.new_logger (record {
    filename = c ∷ name;
    max_size = 16;
    max_backups = 3;
    max_age = 7;
    compress = true;
    level = level_of (zap.parse_level level);
  })

  -- `Init`: the new `defLogger`.
  unfoldable pub init : List LoggerOption → zap.Logger → zap.Logger
  unfolding init_opts
  init opts def_logger = let opt = init_opts opts in configured def_logger opt.level opt.log_name

  -- `DPanic` to `Warnw`: the method of the same name of `defLogger`.
  abbrev pub log : Level → Style → Text → zap.Logger → zap.Effect
  log level style args def_logger = zap.effect_of def_logger level style args

-- What a process does with the package.
pub data Event : Type 0 where
  init_with : List LoggerOption → Event
  log_to : Level → Style → Text → Event

module _ (zap : Zap) where
  -- The logger and the effects, in order, from the logger of `init`.
  unfoldable pub run : List Event → zap.Logger → zap.Logger × List zap.Effect
  unfolding init
  run [] def_logger = (def_logger, [])
  run (init_with opts ∷ events) def_logger = run events (init zap opts def_logger)
  run (log_to level style args ∷ events) def_logger =
      let (last, effects) = run events def_logger in
      (last, log zap level style args def_logger ∷ effects)
