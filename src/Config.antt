-- ===== src/Config.antt =====
-- config/config.go, config/xml.go and config/reader.go: the lookup of a path in the configuration and
-- the readers of what it finds. The XML document of tinydom and the machine floats are parameters.
pub mod Laws
pub mod Sample
mod Runs
use gffg.Prelude.{ℕ, ◌≡◌, Option, none, some, List, [], ◌∷◌, if◌then◌else◌, Bool, true, false}
use gffg.Prelude.Int.{ℤ}
use gffg.Prelude.Text.{Text, codes, text_eq}
use gffg.Prelude.Decimal.{Parsed, parse_int, format_int}
use gffg.Prelude.Split.{has_suffix}

-- float32, float64 and the other types that an `interface{}` may hold: `%.f` and `%v`, strconv's
-- ParseFloat at 32 and 64 bits, and the conversions.
pub record Values : Type 1 where
  pub Float32 : Type 0
  pub Float64 : Type 0
  pub Other : Type 0
  pub print_float32 : Float32 → Text
  pub print_float64 : Float64 → Text
  pub print_other : Other → Text
  pub parse_float : ℕ → Text → Option Float64
  pub int_to_float32 : ℤ → Float32
  pub int_to_float64 : ℤ → Float64
  pub narrow : Float64 → Float32
  pub widen : Float32 → Float64

module _ (v : Values) where
  -- The `interface{}` of `aReader`; `nothing` is nil.
  pub data Conf : Type 0 where
    nothing : Conf
    int : ℤ → Conf
    int64 : ℤ → Conf
    float32 : v.Float32 → Conf
    float64 : v.Float64 → Conf
    string : Text → Conf
    other : v.Other → Conf

  -- `aReader.String`.
  unfoldable pub read_string : Conf → Text → Text
  read_string nothing def = def
  read_string (int n) def = format_int n
  read_string (int64 n) def = format_int n
  read_string (float32 x) def = v.print_float32 x
  read_string (float64 x) def = v.print_float64 x
  read_string (string s) def = s
  read_string (other x) def = v.print_other x

  abbrev pub parsed_or : ℤ → Parsed → ℤ
  parsed_or def p = if p.ok then p.value else def

  -- `aReader.Int`; int has 64 bits.
  unfoldable pub read_int : Conf → ℤ → ℤ
  read_int nothing def = def
  read_int (int n) def = n
  read_int (int64 n) def = n
  read_int (float32 x) def = def
  read_int (float64 x) def = def
  read_int (string s) def = parsed_or def (parse_int s)
  read_int (other x) def = def

  -- `aReader.Int64`.
  unfoldable pub read_int64 : Conf → ℤ → ℤ
  read_int64 nothing def = def
  read_int64 (int n) def = n
  read_int64 (int64 n) def = n
  read_int64 (float32 x) def = def
  read_int64 (float64 x) def = def
  read_int64 (string s) def = parsed_or def (parse_int s)
  read_int64 (other x) def = def

  abbrev narrowed_or : v.Float32 → Option v.Float64 → v.Float32
  narrowed_or def none = def
  narrowed_or def (some x) = v.narrow x

  -- `aReader.Float32`.
  unfoldable pub read_float32 : Conf → v.Float32 → v.Float32
  read_float32 nothing def = def
  read_float32 (int n) def = v.int_to_float32 n
  read_float32 (int64 n) def = v.int_to_float32 n
  read_float32 (float32 x) def = x
  read_float32 (float64 x) def = v.narrow x
  read_float32 (string s) def = narrowed_or def (v.parse_float 32 s)
  read_float32 (other x) def = def

  abbrev float_or : v.Float64 → Option v.Float64 → v.Float64
  float_or def none = def
  float_or def (some x) = x

  -- `aReader.Float64`.
  unfoldable pub read_float64 : Conf → v.Float64 → v.Float64
  read_float64 nothing def = def
  read_float64 (int n) def = v.int_to_float64 n
  read_float64 (int64 n) def = v.int_to_float64 n
  read_float64 (float32 x) def = v.widen x
  read_float64 (float64 x) def = x
  read_float64 (string s) def = float_or def (v.parse_float 64 s)
  read_float64 (other x) def = def

  -- `aReader.Bool`.
  unfoldable pub read_bool : Conf → Bool
  read_bool nothing = false
  read_bool (int n) = false
  read_bool (int64 n) = false
  read_bool (float32 x) = false
  read_bool (float64 x) = false
  read_bool (string s) = text_eq (codes "true") s
  read_bool (other x) = false

-- tinydom: `FirstChildElement`, nil where there is none, and `Text`.
pub record Dom : Type 1 where
  pub Element : Type 0
  pub first_child : Element → Text → Option Element
  pub text : Element → Text

module _ (v : Values) (dom : Dom) where
  -- `aXml`: the document by its `FirstChildElement`, or nil.
  pub record Xml : Type 0 where
    pub document : Option (Text → Option dom.Element)

  -- The loop of `aXml.Get`.
  unfoldable pub walk :
      (Text → Option dom.Element) → Option dom.Element → List Text → Option dom.Element
  walk document xml [] = xml
  walk document none (arg ∷ args) = walk document (document arg) args
  walk document (some xml) (arg ∷ args) = walk document (dom.first_child xml arg) args

  abbrev pub text_of : Option dom.Element → Conf v
  text_of none = nothing
  text_of (some xml) = string (dom.text xml)

  abbrev from_document : Option (Text → Option dom.Element) → List Text → Conf v
  from_document none args = nothing
  from_document (some document) args = text_of (walk document none args)

  -- `aXml.Get`.
  unfoldable pub xml_get : Xml → List Text → Conf v
  unfolding walk
  xml_get this [] = nothing
  xml_get this (arg ∷ args) = from_document this.document (arg ∷ args)

  -- `os.Open`, `io.ReadAll` and the document of `tinydom.LoadDocument`, whose error is dropped.
  module _ {File : Type 0} (open_file : Text → Option File) (read_all : File → Option Text)
      (load_document : Text → Option (Text → Option dom.Element)) where
    abbrev from_bytes : Option Text → Xml
    from_bytes none = record { document = none }
    from_bytes (some byte_value) = record { document = load_document byte_value }

    abbrev from_file : Option File → Xml
    from_file none = record { document = none }
    from_file (some xml_file) = from_bytes (read_all xml_file)

    -- `GetXml`.
    unfoldable pub get_xml : Text → Xml
    get_xml f = from_file (open_file f)

    -- `Init`: the global `iconf`, which only a file with the suffix `.xml` sets.
    unfoldable pub init : Text → Option Xml → Option Xml
    unfolding has_suffix get_xml
    init f iconf = if has_suffix f (codes ".xml") then some (get_xml f) else iconf

  -- `Get`.
  unfoldable pub get : Option Xml → List Text → Conf v
  unfolding xml_get
  get none args = nothing
  get (some iconf) args = xml_get iconf (codes "gffg" ∷ args)
