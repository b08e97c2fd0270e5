-- ===== src/Config/Laws.antt =====
-- The lookup of a path against the descent through the elements, and the settings that are numbers.
use gffg.Prelude.{◌≡◌, ap, ◌∙◌, Option, none, some, List, [], ◌∷◌, ◌++◌}
use gffg.Prelude.Int.{ℤ, IsInt64}
use gffg.Prelude.Text.{Text, codes}
use gffg.Prelude.Decimal.{format_int, parse_int-format_int}
use gffg.Config.{
  Values, string, read_string, read_int, read_int64, parsed_or, Dom, Xml, walk, text_of, xml_get,
  get,
}

module _ (dom : Dom) where
  abbrev pub descend_from :
      (Text → Option dom.Element) → Option dom.Element → List Text → Option dom.Element
  descend_from document none args = none
  descend_from document (some xml) [] = some xml
  descend_from document (some xml) (arg ∷ args) =
      descend_from document (dom.first_child xml arg) args

  -- The element at a path, each name a child of the element before it.
  abbrev pub descend : (Text → Option dom.Element) → List Text → Option dom.Element
  descend document [] = none
  descend document (arg ∷ args) = descend_from document (document arg) args

module _ (v : Values) (dom : Dom) (document : Text → Option dom.Element) where
  walk-descend_from :
      (xml : Option dom.Element) (args : List Text) (e : dom.Element)
      → descend_from dom document xml args ≡ some e
      → walk v dom document xml args ≡ some e
  unfolding walk
  walk-descend_from none args e h = absurd (cc h)
  walk-descend_from (some xml) [] e h = h
  walk-descend_from (some xml) (arg ∷ args) e h =
      walk-descend_from (dom.first_child xml arg) args e h

  walk-missing :
      (xml : Option dom.Element) (args : List Text) (e : dom.Element) (missing : Text)
      (rest : List Text)
      → descend_from dom document xml args ≡ some e
      → dom.first_child e missing ≡ none
      → walk v dom document xml (args ++ missing ∷ rest) ≡ walk v dom document none rest
  unfolding walk
  walk-missing none args e missing rest h m = absurd (cc h)
  walk-missing (some xml) [] e missing rest h m =
      ap (λ x. walk v dom document x rest) (ap (λ x. dom.first_child x missing) (same h) ∙ m)
    where
      same : some xml ≡ some e → xml ≡ e
      same h = cc h
  walk-missing (some xml) (arg ∷ args) e missing rest h m =
      walk-missing (dom.first_child xml arg) args e missing rest h m

  abbrev loaded : Xml v dom
  loaded = record { document = some document }

  get-descend :
      (path : List Text) (e : dom.Element)
      → descend dom document (codes "gffg" ∷ path) ≡ some e
      → get v dom (some loaded) path ≡ string (dom.text e)
  unfolding get xml_get
  get-descend path e h = ap (text_of v dom) (walk-descend_from (document (codes "gffg")) path e h)

  -- A path whose elements are all there, each a child of the one before, and whose text is the
  -- decimal print of an int64, is read as this number by Int and Int64, whatever the default, and
  -- as its print by String.
  pub get-read :
      (path : List Text) (e : dom.Element) (z def : ℤ)
      → descend dom document (codes "gffg" ∷ path) ≡ some e
      → dom.text e ≡ format_int z
      → IsInt64 z
      → (read_int v (get v dom (some loaded) path) def ≡ z)
        × (read_int64 v (get v dom (some loaded) path) def ≡ z)
        × (read_string v (get v dom (some loaded) path) [] ≡ format_int z)
  unfolding read_int read_int64 read_string
  get-read path e z def h t i =
      let found = get-descend path e h ∙ ap string t in
      (
        ap (λ c. read_int v c def) found ∙ ap (parsed_or v def) (parse_int-format_int z i),
        ap (λ c. read_int64 v c def) found ∙ ap (parsed_or v def) (parse_int-format_int z i),
        ap (λ c. read_string v c []) found,
      )

  -- Where a path leads to an element and the next name is no child of it, the lookup goes on with
  -- the names behind that one from the root of the document.
  pub get_missing :
      (path rest : List Text) (e : dom.Element) (missing : Text)
      → descend dom document (codes "gffg" ∷ path) ≡ some e
      → dom.first_child e missing ≡ none
      → get v dom (some loaded) (path ++ missing ∷ rest)
        ≡ text_of v dom (walk v dom document none rest)
  unfolding get xml_get
  get_missing path rest e missing h m =
      ap (text_of v dom) (walk-missing (document (codes "gffg")) path e missing rest h m)
