-- ===== src/Tests/SourceTests.antt =====
-- Tests of the sources (crawler/source.go).
use proxy_in_a_box.Prelude.{◌≡◌, refl, none, some, List, [], ◌∷◌, map, Text, bytes, text_dec, arith}
use proxy_in_a_box.Admission.{trim_space}
use proxy_in_a_box.Fetch.{cut, split_at_byte}
use proxy_in_a_box.Sources.{
  Source, new_proxy, split_host_port, split_plain, split_bracketed, cut_last, parse_text_response,
}
use proxy_in_a_box.Sources.Json.{
  Json, array, object, text, number, element, no_elements, member, no_members, field_of,
  parse_json_response, extract_field_path, extract_recursive, follow_all, follow, elements_of,
  strings, to_string, rows_loop, row_protocol,
}
use proxy_in_a_box.Sources.TextLines.{
  Line, bare, schemed, print_line, print_list, line_proxy, parse_text_response-print,
}
use proxy_in_a_box.Sources.Rows.{Row, document, keyed, row_proxy, parse_json_response-rows}

abbrev list_source : Source
list_source = record {
  name = bytes "list";
  kind = bytes "text";
  url = bytes "http://l";
  protocol = bytes "http";
  headers = [];
  interval = [];
  ip_field = [];
  port_field = [];
  protocol_field = [];
  script = [];
}

abbrev lines : List Line
lines =
    bare (bytes "1.1.1.1") (bytes "80")
    ∷ schemed (bytes "SOCKS5") (bytes "2.2.2.2") (bytes "81")
    ∷ []

parse_text_response-print_example :
    parse_text_response (print_list lines) list_source
    ≡ line_proxy list_source (bare (bytes "1.1.1.1") (bytes "80"))
      ∷ line_proxy list_source (schemed (bytes "SOCKS5") (bytes "2.2.2.2") (bytes "81"))
      ∷ []
unfolding print_line trim_space
parse_text_response-print_example = parse_text_response-print list_source lines (
  ((refl, refl, refl), (refl, refl, refl), refl),
  refl,
  refl,
  refl,
  ((refl, ((refl, refl, refl), (refl, refl, refl), refl)), refl, refl, refl, tt),
)

bracketed_host : split_host_port (bytes "[::1]:80") ≡ some (bytes "::1", bytes "80")
unfolding split_host_port split_bracketed cut
bracketed_host = refl

bare_ipv6 : split_host_port (bytes "::1:80") ≡ none
unfolding split_host_port split_plain cut_last
bare_ipv6 = refl

abbrev json_row : Text → Text → Row
json_row ip port = record {
  members = member (bytes "ip") (text ip) (member (bytes "port") (text port) no_members);
  ip = ip;
  port = port;
}

abbrev json_rows : List Row
json_rows = json_row (bytes "1.1.1.1") (bytes "80") ∷ json_row (bytes "2.2.2.2") (bytes "81") ∷ []

abbrev json_source : Source
json_source = keyed (bytes "ip") (bytes "port") list_source

parse_json_response-rows_example :
    parse_json_response (λ j. []) (some (array (document json_rows))) json_source
    ≡ some (map (row_proxy list_source) json_rows)
unfolding field_of text_dec
parse_json_response-rows_example =
    parse_json_response-rows (λ j. []) list_source (bytes "ip") (bytes "port") json_rows
      (refl, λ h. ground arith) (refl, λ h. ground arith)
      (refl, refl, refl, refl, (refl, refl, refl, refl, tt))

-- A row without a port takes the port of the row after it.
abbrev short_document : Json
short_document = array (
    element (object (member (bytes "ip") (text (bytes "1.1.1.1")) no_members)) (
      element
        (object (
          member (bytes "ip") (text (bytes "2.2.2.2"))
            (member (bytes "port") (number (bytes "81")) no_members)))
        no_elements))

missing_port :
    parse_json_response (λ j. []) (some short_document) json_source
    ≡ some (new_proxy (bytes "1.1.1.1") (bytes "81") (bytes "list") (bytes "http") ∷ [])
unfolding parse_json_response extract_field_path split_at_byte extract_recursive follow_all follow
    elements_of field_of text_dec strings to_string rows_loop row_protocol
missing_port = refl
