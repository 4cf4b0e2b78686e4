-- ===== src/Sources/TextLines.antt =====
-- Text documents that list a proxy on each line.
use proxy_in_a_box.Prelude.{
  ℕ, ◌≡◌, refl, ap, true, false, ◌||◌, none, some, List, [], ◌∷◌, ◌++◌, map, Text, length, ◌==◌,
  arith,
}
use proxy_in_a_box.Endpoint.{Proxy}
use proxy_in_a_box.Admission.{trim_space}
use proxy_in_a_box.Upstream.{to_lower}
use proxy_in_a_box.Fetch.{split_at_byte, cut}
use proxy_in_a_box.Fetch.Trace.{split_at_byte-line}
use proxy_in_a_box.Sources.{
  Source, new_proxy, has_byte, cut_last, split_plain, split_host_port, after_scheme, cut_scheme,
  parse_address, before_space, parse_line, parse_lines, parse_text_response,
}

-- A line of a list: with a scheme or without one.
pub data Line : Type 0 where
  bare : Text → Text → Line
  schemed : Text → Text → Text → Line

abbrev address : Text → Text → Text
address host port = host ++ (58 ∷ port)

unfoldable pub print_line : Line → Text
print_line (bare host port) = address host port
print_line (schemed scheme host port) = scheme ++ (58 ∷ 47 ∷ 47 ∷ address host port)

unfoldable pub print_list : List Line → Text
print_list [] = []
print_list (l ∷ ls) = print_line l ++ (10 ∷ print_list ls)

-- A part of an address: no colon, bracket, or slash.
abbrev IsPart : Text → Type 0
IsPart s = (has_byte 58 s ≡ false) × (has_byte 91 s ≡ false) × (has_byte 93 s ≡ false)

cut_last-end : (sep : ℕ) (b : Text) → has_byte sep b ≡ false → cut_last sep b ≡ none
unfolding cut_last
cut_last-end sep [] h = refl
cut_last-end sep (c ∷ b) h =
    let e : (c == sep) ≡ false = ground arith in rw (cut_last-end sep b (ground arith), e) refl

cut_last-parts :
    (sep : ℕ) (a b : Text) → has_byte sep b ≡ false → cut_last sep (a ++ (sep ∷ b)) ≡ some (a, b)
unfolding cut_last
cut_last-parts sep [] b h =
    let e : (sep == sep) ≡ true = ground arith in rw (cut_last-end sep b h, e) refl
cut_last-parts sep (c ∷ a) b h = rw (cut_last-parts sep a b h) refl

has_byte-append : (x : ℕ) (a b : Text) → has_byte x (a ++ b) ≡ (has_byte x a || has_byte x b)
has_byte-append x [] b = refl
has_byte-append x (c ∷ a) b = ground (arith, has_byte-append x a b)

split_plain-address :
    (host port : Text)
    → IsPart host
    → IsPart port
    → split_plain (address host port) ≡ some (host, port)
unfolding split_plain
split_plain-address host port (h, h2, h3) (k, k2, k3) =
    let open' = has_byte-append 91 host (58 ∷ port) in
    let close' = has_byte-append 93 host (58 ∷ port) in
    let e : has_byte 91 (address host port) ≡ false = ground (arith, open', h2, k2) in
    let e' : has_byte 93 (address host port) ≡ false = ground (arith, close', h3, k3) in
    rw (split_plain, cut_last-parts 58 host port k, h, e, e') refl

split_host_port-address :
    (host port : Text)
    → IsPart host
    → IsPart port
    → split_host_port (address host port) ≡ some (host, port)
unfolding split_host_port
split_host_port-address [] port h k = split_plain-address [] port h k
split_host_port-address (c ∷ host) port h k =
    let e : (c == 91) ≡ false = ground (arith, h.1) in
    rw e (split_plain-address (c ∷ host) port h k)

-- No `://` begins where there is no colon, and none at a colon before a text without slashes.
after_scheme-other : (c : ℕ) (s : Text) → (c == 58) ≡ false → after_scheme (c ∷ s) ≡ none
unfolding after_scheme
after_scheme-other c [] h = refl
after_scheme-other c (y ∷ []) h = refl
after_scheme-other c (y ∷ z ∷ s) h = rw h refl

after_scheme-bare : (s : Text) → has_byte 47 s ≡ false → after_scheme (58 ∷ s) ≡ none
unfolding after_scheme
after_scheme-bare [] h = refl
after_scheme-bare (y ∷ []) h = refl
after_scheme-bare (y ∷ z ∷ s) h = let e : (y == 47) ≡ false = ground arith in rw e refl

cut_scheme-free : (s : Text) → has_byte 58 s ≡ false → cut_scheme s ≡ none
unfolding cut_scheme
cut_scheme-free [] h = refl
cut_scheme-free (c ∷ s) h =
    rw (cut_scheme, after_scheme-other c s (ground arith), cut_scheme-free s (ground arith)) refl

cut_scheme-none :
    (a s : Text) → has_byte 58 a ≡ false → cut_scheme s ≡ none → cut_scheme (a ++ s) ≡ none
unfolding cut_scheme
cut_scheme-none [] s h e = e
cut_scheme-none (c ∷ a) s h e =
    rw
      (
        cut_scheme,
        after_scheme-other c (a ++ s) (ground arith),
        cut_scheme-none a s (ground arith) e,
      )
      refl

cut_scheme-some :
    (a s : Text) → has_byte 58 a ≡ false → cut_scheme (a ++ (58 ∷ 47 ∷ 47 ∷ s)) ≡ some (a, s)
unfolding cut_scheme after_scheme
cut_scheme-some [] s h = refl
cut_scheme-some (c ∷ a) s h =
    rw
      (
        cut_scheme,
        after_scheme-other c (a ++ (58 ∷ 47 ∷ 47 ∷ s)) (ground arith),
        cut_scheme-some a s (ground arith),
      )
      refl

cut_scheme-bare :
    (port : Text)
    → has_byte 58 port ≡ false
    → has_byte 47 port ≡ false
    → cut_scheme (58 ∷ port) ≡ none
unfolding cut_scheme
cut_scheme-bare port h h' =
    let e : cut_scheme port ≡ none = cut_scheme-free port h in
    rw (cut_scheme, after_scheme-bare port h', e) refl

-- The proxy that a line stands for.
abbrev pub line_proxy : Source → Line → Proxy
line_proxy src (bare host port) = new_proxy host port src.name src.protocol
line_proxy src (schemed scheme host port) = new_proxy host port src.name (to_lower scheme)

-- A line whose parts have no colon, slash, bracket or space, as a list has it.
abbrev IsAddress : Text → Text → Type 0
IsAddress host port = IsPart host × IsPart port × (has_byte 47 port ≡ false)

abbrev IsClean : Line → Type 0
IsClean (bare host port) = IsAddress host port
IsClean (schemed scheme host port) = (has_byte 58 scheme ≡ false) × IsAddress host port

-- Each line has clean parts and no white space.
abbrev pub IsList : List Line → Type 0
IsList [] = Unit {0}
IsList (l ∷ ls) =
    IsClean l
    × (has_byte 10 (print_line l) ≡ false)
    × (has_byte 32 (print_line l) ≡ false)
    × (trim_space (print_line l) ≡ print_line l)
    × IsList ls

parse_address-line :
    (src : Source) (l : Line)
    → IsClean l
    → parse_address src (print_line l) ≡ some (line_proxy src l)
unfolding parse_address print_line
parse_address-line src (bare host port) (h, k, k') =
    rw
      (
        parse_address,
        cut_scheme-none host (58 ∷ port) h.0 (cut_scheme-bare port k.0 k'),
        split_host_port-address host port h k,
      )
      refl
parse_address-line src (schemed scheme host port) (c, (h, k, k')) =
    rw
      (
        parse_address,
        cut_scheme-some scheme (address host port) c,
        split_host_port-address host port h k,
      )
      refl

cut-none : (sep : ℕ) (s : Text) → has_byte sep s ≡ false → cut sep s ≡ none
unfolding cut
cut-none sep [] h = refl
cut-none sep (c ∷ s) h =
    let e : (c == sep) ≡ false = ground arith in rw (e, cut-none sep s (ground arith)) refl

before_space-tight : (s : Text) → has_byte 32 s ≡ false → before_space s ≡ s
before_space-tight s h = rw (before_space, cut-none 32 s h) refl

print_line-full : (l : Line) → (length (print_line l) == 0) ≡ false
unfolding print_line
print_line-full (bare [] port) = ground arith
print_line-full (bare (c ∷ host) port) = ground arith
print_line-full (schemed [] host port) = ground arith
print_line-full (schemed (c ∷ scheme) host port) = ground arith

parse_lines-list :
    (src : Source) (ls : List Line)
    → IsList ls
    → parse_lines src (split_at_byte 10 (print_list ls)) ≡ map (line_proxy src) ls
unfolding parse_lines print_list split_at_byte parse_line trim_space
parse_lines-list src [] h = refl
parse_lines-list src (l ∷ ls) (clean, whole, tight, trimmed, h) =
    rw
      (
        split_at_byte-line 10 (print_line l) (print_list ls) whole,
        parse_lines,
        parse_line,
        trimmed,
        print_line-full l,
        before_space-tight (print_line l) tight,
        parse_address-line src l clean,
      )
      (ap (◌∷◌ (line_proxy src l)) (parse_lines-list src ls h))

-- A list of lines `host:port` and `scheme://host:port`, without white space, colons, brackets
-- or slashes in their parts, parses to one proxy for each line, in their order; a scheme gives the
-- protocol, in lower case, and a line without one has that of the source.
pub parse_text_response-print :
    (src : Source) (ls : List Line)
    → IsList ls
    → parse_text_response (print_list ls) src ≡ map (line_proxy src) ls
unfolding parse_text_response
parse_text_response-print src ls h = parse_lines-list src ls h
