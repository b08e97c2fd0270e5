-- ===== src/Server/Start/Boot/Laws.antt =====
-- A server whose configuration file is not there.
use gffg.Prelude.{◌≡◌, refl, Option, none, [], false, Bool-cases, inl, inr}
use gffg.Prelude.Int.{pos}
use gffg.Prelude.Text.{Text, codes}
use gffg.Prelude.Split.{has_suffix}
use gffg.Config.{Values, Dom, init, get, get_xml, xml_get, read_string, read_int}
use gffg.Registry.{Node, node, done}
use gffg.Zzlog
use gffg.Zzlog.{Zap}
use gffg.Server.Start.{Methods, Started, no_sock, new_server, server_node}
use gffg.Server.Start.Boot.{globals, boot}

-- The node of a server without settings.
abbrev pub unnamed : Node
unnamed = record {
  group = [];
  name = [];
  version = codes "v0.0.1";
  token = [];
  location = record { region = []; zone = []; campus = [] };
}

abbrev pub default_server : {R : Type 0} → R → Started R
default_server r = record {
  registry = r;
  sock = no_sock;
  addrs = [];
  coroutines = pos 32;
  channels = 10000;
  workers = 0;
  cancelled = false;
}

module _ (v : Values) (dom : Dom) (zap : Zap) {File : Type 0} (open_file : Text → Option File)
    (read_all : File → Option Text) (load_document : Text → Option (Text → Option dom.Element))
    {R : Type 0} (methods : Methods R) where
  -- Where the file of the configuration cannot be opened and none was read before, NewServer goes on:
  -- the logger stays as it was, and the server has the defaults.
  boot_defaults :
      (conf_file : Text) (r provided : R) (logger : zap.Logger)
      → open_file conf_file ≡ none
      → methods.provider unnamed r ≡ done provided
      → ((boot v dom zap open_file read_all load_document methods conf_file r
            (record { iconf = none; def_logger = logger })).0.def_logger
          ≡ logger)
        × ((boot v dom zap open_file read_all load_document methods conf_file r
              (record { iconf = none; def_logger = logger })).1
            ≡ done (default_server provided))
  unfolding boot globals init get get_xml xml_get read_string read_int Zzlog.init Zzlog.init_opts
      new_server server_node node
  boot_defaults conf_file r provided logger missing p =
      elim (Bool-cases (has_suffix conf_file (codes ".xml"))) [
        | inl e ↦ (rw (e, missing) refl, rw (e, missing, p) refl)
        | inr e ↦ (rw e refl, rw (e, p) refl)
      ]
