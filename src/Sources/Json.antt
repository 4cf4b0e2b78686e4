-- ===== src/Sources/Json.antt =====
-- JSON sources: the values that field paths lead to, and the proxies that they are put together to.
use proxy_in_a_box.Prelude.{
  ◌||◌, Option, none, some, ite, List, [], ◌∷◌, ◌++◌, Text, bytes, text_dec, length, ◌==◌,
  if◌then◌else◌,
}
use proxy_in_a_box.Endpoint.{Proxy}
use proxy_in_a_box.Fetch.{split_at_byte}
use proxy_in_a_box.Sources.{Source, new_proxy}

-- What `json.Unmarshal` makes of a document. A number carries the text that `toString` gives for
-- it; `other` is a Boolean, with the text of `%v`.
mutual
  pub data Json : Type 0 where
    null : Json
    text : Text → Json
    number : Text → Json
    other : Text → Json
    array : Elements → Json
    object : Members → Json

  pub data Elements : Type 0 where
    no_elements : Elements
    element : Json → Elements → Elements

  -- The keys are distinct: of two members with one key, `json.Unmarshal` keeps the last.
  pub data Members : Type 0 where
    no_members : Members
    member : Text → Json → Members → Members

unfoldable pub elements_of : Elements → List Json
elements_of no_elements = []
elements_of (element j es) = j ∷ elements_of es

-- `v[part]`
unfoldable pub field_of : Text → Members → List Json
field_of k no_members = []
field_of k (member j v ms) = ite (text_dec j k) (v ∷ []) (field_of k ms)

-- The values that one part of a path leads to, from one value.
unfoldable pub follow : Text → Json → List Json
follow part (array es) = ite (text_dec part (bytes "*")) (elements_of es) []
follow part (object ms) = ite (text_dec part (bytes "*")) [] (field_of part ms)
follow part null = []
follow part (text s) = []
follow part (number s) = []
follow part (other s) = []

unfoldable pub follow_all : Text → List Json → List Json
follow_all part [] = []
follow_all part (j ∷ js) = follow part j ++ follow_all part js

unfoldable pub extract_recursive : List Json → List Text → List Json
extract_recursive current [] = current
extract_recursive current (part ∷ rest) = extract_recursive (follow_all part current) rest

unfoldable pub extract_field_path : Json → Text → List Json
extract_field_path j path =
    if length path == 0 then [] else extract_recursive (j ∷ []) (split_at_byte 46 path)

-- `printed` is the text of `%v` for an array or an object.
unfoldable pub to_string : (Json → Text) → Json → Text
to_string printed null = []
to_string printed (text s) = s
to_string printed (number s) = s
to_string printed (other s) = s
to_string printed (array es) = printed (array es)
to_string printed (object ms) = printed (object ms)

-- The protocol of a row: that of the document, unless there is none or it is empty.
unfoldable pub row_protocol : Text → List Text → Text
row_protocol default [] = default
row_protocol default (p ∷ ps) = if length p == 0 then default else p

abbrev pub tail_of : List Text → List Text
tail_of [] = []
tail_of (p ∷ ps) = ps

-- The loop over the rows: the three lists of values side by side, as long as both the first two
-- last.
unfoldable pub rows_loop : Source → List Text → List Text → List Text → List Proxy
rows_loop src [] ports protocols = []
rows_loop src (ip ∷ ips) [] protocols = []
rows_loop src (ip ∷ ips) (port ∷ ports) protocols =
    let protocol = row_protocol src.protocol protocols in
    let rest = rows_loop src ips ports (tail_of protocols) in
    if length ip == 0 || length port == 0 then rest else new_proxy ip port src.name protocol ∷ rest

unfoldable pub strings : (Json → Text) → List Json → List Text
strings printed [] = []
strings printed (j ∷ js) = to_string printed j ∷ strings printed js

-- `parseJSONResponse`, of the answer of `json.Unmarshal`, which is `none` for an error.
unfoldable pub parse_json_response : (Json → Text) → Option Json → Source → Option (List Proxy)
parse_json_response printed none src = none
parse_json_response printed (some raw) src = some (
    rows_loop src (strings printed (extract_field_path raw src.ip_field))
      (strings printed (extract_field_path raw src.port_field))
      (strings printed (extract_field_path raw src.protocol_field)))
