-- ===== src/Zzlog/Laws.antt =====
-- Which logger the messages go to.
use gffg.Prelude.{ℕ, ◌≡◌, refl, ap, ◌∙◌, List, [], ◌∷◌, ◌++◌, map, true}
use gffg.Prelude.Text.{Text}
use gffg.Zzlog.{
  Level, Style, LoggerOption, Zap, level_of, init_opts, init, Event, init_with, log_to, run,
}

-- A message, and how it is written.
pub record Message : Type 0 where
  pub level : Level
  pub style : Style
  pub args : Text

abbrev pub calls : List Message → List Event
calls [] = []
calls (m ∷ ms) = log_to m.level m.style m.args ∷ calls ms

module _ (zap : Zap) where
  abbrev pub written : zap.Logger → List Message → List zap.Effect
  written logger ms = map (λ (m : Message). zap.effect_of logger m.level m.style m.args) ms

  run-append :
      (events rest : List Event) (logger : zap.Logger)
      → (run zap (events ++ rest) logger).1
        ≡ (run zap events logger).1 ++ (run zap rest (run zap events logger).0).1
  unfolding run
  run-append [] rest logger = refl
  run-append (init_with opts ∷ events) rest logger = run-append events rest (init zap opts logger)
  run-append (log_to level style args ∷ events) rest logger =
      ap (λ es. zap.effect_of logger level style args ∷ es) (run-append events rest logger)

  run-calls :
      (ms : List Message) (logger : zap.Logger) → (run zap (calls ms) logger).1 ≡ written logger ms
  unfolding run
  run-calls [] logger = refl
  run-calls (m ∷ ms) logger =
      ap (λ es. zap.effect_of logger m.level m.style m.args ∷ es) (run-calls ms logger)

  -- After Init with a log name the messages go to a new logger on that file, of the level that is named or
  -- of the level info; after Init without one they go to the logger that was there.
  pub init_lem :
      (events : List Event) (opts : List LoggerOption) (ms : List Message) (c : ℕ) (name : Text)
      → (((init_opts opts).log_name ≡ c ∷ name)
          → (run zap (events ++ init_with opts ∷ calls ms) zap.production).1
            ≡ (run zap events zap.production).1
              ++ written
                  (zap.new_logger (record {
                    filename = c ∷ name;
                    max_size = 16;
                    max_backups = 3;
                    max_age = 7;
                    compress = true;
                    level = level_of zap (zap.parse_level (init_opts opts).level);
                  }))
                  ms)
        × (((init_opts opts).log_name ≡ [])
            → (run zap (events ++ init_with opts ∷ calls ms) zap.production).1
              ≡ (run zap events zap.production).1 ++ written (run zap events zap.production).0 ms)
  unfolding run init
  init_lem events opts ms c name =
      let before = (run zap events zap.production).1 in
      let at = run-append events (init_with opts ∷ calls ms) zap.production in
      (
        λ e.
            at
            ∙ ap (λ es. before ++ es)
                (run-calls ms (init zap opts (run zap events zap.production).0) ∙ rw e refl),
        λ e.
            at
            ∙ ap (λ es. before ++ es)
                (run-calls ms (init zap opts (run zap events zap.production).0) ∙ rw e refl),
      )
