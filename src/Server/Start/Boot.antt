-- ===== src/Server/Start/Boot.antt =====
-- `NewServer` of server/server.go from its first line on: the configuration, the logger and the server.
pub mod Laws
use gffg.Prelude.{Option, [], ◌∷◌}
use gffg.Prelude.Text.{Text, codes}
use gffg.Config.{Values, Dom, Xml, init, get, read_string}
use gffg.Registry.{Ended}
use gffg.Zzlog
use gffg.Zzlog.{Zap}
use gffg.Server.Start.{Methods, Started, new_server}

module _ (v : Values) (dom : Dom) (zap : Zap) {File : Type 0} (open_file : Text → Option File)
    (read_all : File → Option Text)
    (load_document : Text → Option (Text → Option dom.Element)) where
  -- The globals of the packages config and zzlog.
  pub record Globals : Type 0 where
    pub iconf : Option (Xml v dom)
    pub def_logger : zap.Logger

  -- `config.Init` and `zzlog.Init`, with the level and the file of the configuration.
  unfoldable pub globals : Text → Globals → Globals
  unfolding init get read_string Zzlog.init
  globals conf_file g =
      let iconf = init v dom open_file read_all load_document conf_file g.iconf in
      let log_name = read_string v (get v dom iconf (codes "log" ∷ codes "log_file" ∷ [])) [] in
      let level =
        read_string v (get v dom iconf (codes "log" ∷ codes "level" ∷ [])) (codes "info") in
      record {
        iconf = iconf;
        def_logger =
            Zzlog.init zap (Zzlog.with_log_name log_name ∷ Zzlog.with_level level ∷ [])
              g.def_logger;
      }

  module _ {R : Type 0} (methods : Methods R) where
    -- `NewServer` of a file, on the registry of its options or the default one.
    unfoldable pub boot : Text → R → Globals → Globals × Ended (Started R)
    unfolding globals new_server
    boot conf_file r g =
        let after = globals conf_file g in (after, new_server v (get v dom after.iconf) methods r)
