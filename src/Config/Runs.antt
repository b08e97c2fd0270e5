-- ===== src/Config/Runs.antt =====
-- A small document, and the lookups in it.
use gffg.Prelude.{
  ◌≡◌, refl, Option, none, some, List, [], ◌∷◌, ◌++◌, if◌then◌else◌, Bool, true, false, ◌&&◌, arith,
}
use gffg.Prelude.Int.{pos}
use gffg.Prelude.Text.{Text, codes, text_eq}
use gffg.Prelude.Decimal.{format_int}
use gffg.Config.{string, read_string, read_int, read_int64, read_bool, Dom, Xml, walk, init, get}
use gffg.Config.Sample.{plain}
use gffg.Config.Laws.{get-read, get_missing}

abbrev path_eq : List Text → List Text → Bool
path_eq [] [] = true
path_eq [] (b ∷ bs) = false
path_eq (a ∷ as') [] = false
path_eq (a ∷ as') (b ∷ bs) = text_eq a b && path_eq as' bs

abbrev text_at : List (List Text × Text) → List Text → Option Text
text_at [] path = none
text_at ((p, t) ∷ table) path = if path_eq p path then some t else text_at table path

-- An element is its path from the root.
abbrev table : List (List Text × Text)
table =
    (codes "gffg" ∷ [], [])
    ∷ (codes "gffg" ∷ codes "server" ∷ [], [])
    ∷ (codes "gffg" ∷ codes "server" ∷ codes "channels" ∷ [], codes "100")
    ∷ (codes "gffg" ∷ codes "enable" ∷ [], codes "1")
    ∷ (codes "name" ∷ [], codes "top")
    ∷ []

abbrev present : List Text → Option Text → Option (List Text)
present path none = none
present path (some t) = some path

abbrev or_empty : Option Text → Text
or_empty none = []
or_empty (some t) = t

abbrev dom : Dom
dom = record {
  Element = List Text;
  first_child = λ e arg. present (e ++ arg ∷ []) (text_at table (e ++ arg ∷ []));
  text = λ e. or_empty (text_at table e);
}

abbrev document : Text → Option (List Text)
document arg = present (arg ∷ []) (text_at table (arg ∷ []))

abbrev loaded : Option (Xml plain dom)
loaded = some (record { document = some document })

-- A file is its name and its text is its name as well.
abbrev open_file : Text → Option Text
open_file f = if text_eq f (codes "conf/gffg.xml") then some f else none

abbrev read_all : Text → Option Text
read_all f = some f

abbrev load_document : Text → Option (Text → Option (List Text))
load_document t = some document

-- A file with another suffix is not read.
not_xml : init plain dom open_file read_all load_document (codes "gffg.json") none ≡ none
unfolding init
not_xml = refl

xml : init plain dom open_file read_all load_document (codes "conf/gffg.xml") none ≡ loaded
unfolding init
xml = refl

-- A file that is not there is like one without a document.
no_file :
    init plain dom open_file read_all load_document (codes "other.xml") none
    ≡ some (record { document = none })
unfolding init
no_file = refl

-- Of the truth values only `true` is one.
enable_one : read_bool plain (get plain dom loaded (codes "enable" ∷ [])) ≡ false
unfolding read_bool get
enable_one = refl

get-read_example :
    (read_int plain (get plain dom loaded (codes "server" ∷ codes "channels" ∷ [])) (pos 5)
      ≡ pos 100)
    × (read_int64 plain (get plain dom loaded (codes "server" ∷ codes "channels" ∷ [])) (pos 5)
        ≡ pos 100)
    × (read_string plain (get plain dom loaded (codes "server" ∷ codes "channels" ∷ [])) []
        ≡ format_int (pos 100))
get-read_example =
    get-read plain dom document (codes "server" ∷ codes "channels" ∷ [])
      (codes "gffg" ∷ codes "server" ∷ codes "channels" ∷ []) (pos 100) (pos 5) refl
      (unfold format_int in refl) (omega arith)

-- `server.log` is missing, so that the rest of the path is looked up in the document.
get_missing_example :
    get plain dom loaded (codes "server" ∷ codes "log" ∷ codes "name" ∷ []) ≡ string (codes "top")
unfolding walk
get_missing_example =
    get_missing plain dom document (codes "server" ∷ []) (codes "name" ∷ [])
      (codes "gffg" ∷ codes "server" ∷ []) (codes "log") refl refl
