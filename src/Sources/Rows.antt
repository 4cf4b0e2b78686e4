-- ===== src/Sources/Rows.antt =====
-- JSON documents whose rows are complete.
use proxy_in_a_box.Prelude.{
  ◌≡◌, ◌≢◌, refl, ap, ◌∙◌, false, some, if_pos, if_neg, append-nil, List, [], ◌∷◌, map, Text, bytes,
  text_dec, length, ◌==◌, arith,
}
use proxy_in_a_box.Endpoint.{Proxy}
use proxy_in_a_box.Fetch.{split_at_byte}
use proxy_in_a_box.Sources.{Source, new_proxy, has_byte}
use proxy_in_a_box.Sources.Json.{
  Json, Elements, no_elements, element, Members, array, object, text, elements_of, field_of, follow,
  follow_all, extract_recursive, extract_field_path, to_string, row_protocol, rows_loop, strings,
  parse_json_response,
}

-- A row of a document with the address and the port that it gives.
pub record Row : Type 0 where
  pub members : Members
  pub ip : Text
  pub port : Text

abbrev pub document : List Row → Elements
document [] = no_elements
document (r ∷ rows) = element (object r.members) (document rows)

-- Each row has both fields, and neither is empty.
abbrev pub IsComplete : Text → Text → List Row → Type 0
IsComplete ip_key port_key [] = Unit {0}
IsComplete ip_key port_key (r ∷ rows) =
    (field_of ip_key r.members ≡ text r.ip ∷ [])
    × (field_of port_key r.members ≡ text r.port ∷ [])
    × ((length r.ip == 0) ≡ false)
    × ((length r.port == 0) ≡ false)
    × IsComplete ip_key port_key rows

-- A key as the second part of a path: no dot, and not the star.
abbrev pub IsKey : Text → Type 0
IsKey k = (has_byte 46 k ≡ false) × (k ≢ bytes "*")

objects : List Row → List Json
objects [] = []
objects (r ∷ rows) = object r.members ∷ objects rows

split_at_byte-key : (k : Text) → has_byte 46 k ≡ false → split_at_byte 46 k ≡ k ∷ []
unfolding split_at_byte
split_at_byte-key [] h = refl
split_at_byte-key (c ∷ k) h =
    let e : (c == 46) ≡ false = ground arith in rw (e, split_at_byte-key k (ground arith)) refl

elements_of-document : (rows : List Row) → elements_of (document rows) ≡ objects rows
unfolding elements_of objects
elements_of-document [] = refl
elements_of-document (r ∷ rows) = ap (◌∷◌ (object r.members)) (elements_of-document rows)

-- The values of a path `*.key`.
extract-objects :
    (rows : List Row) (k : Text)
    → IsKey k
    → extract_field_path (array (document rows)) (42 ∷ 46 ∷ k) ≡ follow_all k (objects rows)
unfolding extract_field_path extract_recursive follow_all follow split_at_byte
extract-objects rows k (bare, other) =
    let full : (length (42 ∷ 46 ∷ k) == 0) ≡ false = ground arith in
    rw
      (
        full,
        split_at_byte-key k bare,
        if_pos (text_dec (bytes "*") (bytes "*")) refl,
        append-nil (elements_of (document rows)),
        elements_of-document rows,
      )
      refl

-- Each row has a field with the text that `get` gives.
abbrev HasField : Text → (Row → Text) → List Row → Type 0
HasField k get [] = Unit {0}
HasField k get (r ∷ rows) = (field_of k r.members ≡ text (get r) ∷ []) × HasField k get rows

follow_all-objects :
    (printed : Json → Text) (k : Text) (get : Row → Text) (rows : List Row)
    → k ≢ bytes "*"
    → HasField k get rows
    → strings printed (follow_all k (objects rows)) ≡ map get rows
unfolding follow_all follow objects strings to_string
follow_all-objects printed k get [] other h = refl
follow_all-objects printed k get (r ∷ rows) other (e, h) =
    rw (if_neg (text_dec k (bytes "*")) other, e)
      (ap (◌∷◌ (get r)) (follow_all-objects printed k get rows other h))

-- The values of a path `*.key` of a complete document.
strings-column :
    (printed : Json → Text) (k : Text) (get : Row → Text) (rows : List Row)
    → IsKey k
    → HasField k get rows
    → strings printed (extract_field_path (array (document rows)) (42 ∷ 46 ∷ k)) ≡ map get rows
strings-column printed k get rows h there =
    ap (strings printed) (extract-objects rows k h)
    ∙ follow_all-objects printed k get rows h.1 there

ip-HasField :
    (ip_key port_key : Text) (rows : List Row)
    → IsComplete ip_key port_key rows
    → HasField ip_key (λ r. r.ip) rows
ip-HasField ip_key port_key [] h = tt
ip-HasField ip_key port_key (r ∷ rows) (e, _, _, _, h) = (e, ip-HasField ip_key port_key rows h)

port-HasField :
    (ip_key port_key : Text) (rows : List Row)
    → IsComplete ip_key port_key rows
    → HasField port_key (λ r. r.port) rows
port-HasField ip_key port_key [] h = tt
port-HasField ip_key port_key (r ∷ rows) (_, e, _, _, h) = (e, port-HasField ip_key port_key rows h)

abbrev pub row_proxy : Source → Row → Proxy
row_proxy src r = new_proxy r.ip r.port src.name src.protocol

rows_loop-rows :
    (src : Source) (ip_key port_key : Text) (rows : List Row)
    → IsComplete ip_key port_key rows
    → rows_loop src (map (λ r. r.ip) rows) (map (λ r. r.port) rows) [] ≡ map (row_proxy src) rows
unfolding rows_loop row_protocol
rows_loop-rows src ip_key port_key [] h = refl
rows_loop-rows src ip_key port_key (r ∷ rows) (_, _, some', some2, h) =
    rw (some', some2) (ap (◌∷◌ (row_proxy src r)) (rows_loop-rows src ip_key port_key rows h))

-- A source whose paths are `*.ip_key` and `*.port_key`.
abbrev pub keyed : Text → Text → Source → Source
keyed ip_key port_key src = record src {
  ip_field = 42 ∷ 46 ∷ ip_key;
  port_field = 42 ∷ 46 ∷ port_key;
  protocol_field = [];
}

-- A document that is an array of objects, each with both of the two fields as strings that are not
-- empty, reads with the paths `*.ip_key` and `*.port_key` as one proxy for each row, in their
-- order, with the address and the port of that row and the name and protocol of the source.
pub parse_json_response-rows :
    (printed : Json → Text) (src : Source) (ip_key port_key : Text) (rows : List Row)
    → IsKey ip_key
    → IsKey port_key
    → IsComplete ip_key port_key rows
    → parse_json_response printed (some (array (document rows))) (keyed ip_key port_key src)
      ≡ some (map (row_proxy src) rows)
unfolding parse_json_response extract_field_path strings rows_loop
parse_json_response-rows printed src ip_key port_key rows h h' complete =
    let ips =
      strings-column printed ip_key (λ r. r.ip) rows h
        (ip-HasField ip_key port_key rows complete) in
    let ports =
      strings-column printed port_key (λ r. r.port) rows h'
        (port-HasField ip_key port_key rows complete) in
    ap some
      (rw (ips, ports) (rows_loop-rows (keyed ip_key port_key src) ip_key port_key rows complete))
