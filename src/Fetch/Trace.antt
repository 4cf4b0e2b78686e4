-- ===== src/Fetch/Trace.antt =====
-- What `parseCloudflareTrace` reads of a body of `key=value` lines.
use proxy_in_a_box.Prelude.{
  ℕ, ◌≡◌, refl, Bool, true, false, ◌||◌, Option, inl, inr, none, some, Option-cases, ite, List, [],
  ◌∷◌, ◌++◌, reverse, Text, bytes, text_dec, Map, lookup, length, ◌==◌, if◌then◌else◌, arith,
}
use mathlib.Core.List.{reverse-cons}
use proxy_in_a_box.Admission.{trim_space, trim_left}
use proxy_in_a_box.Fetch.{
  CloudflareTraceResult, split_at_byte, cut, trace_line, trace_lines, parse_cloudflare_trace,
}

abbrev pub has_byte : ℕ → Text → Bool
has_byte b [] = false
has_byte b (c ∷ s) = (c == b) || has_byte b s

pub split_at_byte-line :
    (sep : ℕ) (line rest : Text)
    → has_byte sep line ≡ false
    → split_at_byte sep (line ++ (sep ∷ rest)) ≡ line ∷ split_at_byte sep rest
unfolding split_at_byte
split_at_byte-line sep [] rest h = let e : (sep == sep) ≡ true = ground arith in rw e
split_at_byte-line sep (c ∷ line) rest h =
    let e : (c == sep) ≡ false = ground arith in
    rw (e, split_at_byte-line sep line rest (ground arith))

pub cut-key :
    (sep : ℕ) (k v : Text) → has_byte sep k ≡ false → cut sep (k ++ (sep ∷ v)) ≡ some (k, v)
unfolding cut
cut-key sep [] v h = let e : (sep == sep) ≡ true = ground arith in rw e
cut-key sep (c ∷ k) v h =
    let e : (c == sep) ≡ false = ground arith in rw (e, cut-key sep k v (ground arith))

abbrev field_line : Text × Text → Text
field_line (k, v) = k ++ (61 ∷ v)

-- The body of a trace with the given fields, a line for each.
unfoldable pub print_trace : List (Text × Text) → Text
print_trace [] = []
print_trace (f ∷ fields) = field_line f ++ (10 ∷ print_trace fields)

-- Each key has no equals sign, and each line no line break and no space at its ends.
abbrev pub IsPlain : List (Text × Text) → Type 0
IsPlain [] = Unit {0}
IsPlain (f ∷ fields) =
    (has_byte 61 f.0 ≡ false)
    × (has_byte 10 (field_line f) ≡ false)
    × (trim_space (field_line f) ≡ field_line f)
    × IsPlain fields

abbrev pub or_empty : Option Text → Text
or_empty none = []
or_empty (some v) = v

-- The value of the last field with a key, as a default after the first fields.
abbrev last_value : Text → List (Text × Text) → Text → Text
last_value k [] d = d
last_value k ((j, v) ∷ fields) d = last_value k fields (ite (text_dec j k) v d)

lookup-append :
    (k : Text) (xs ys : Map Text)
    → lookup k (xs ++ ys) ≡ elim (lookup k xs) [ none ↦ lookup k ys | some v ↦ some v ]
unfolding lookup
lookup-append k [] ys = refl
lookup-append k ((j, v) ∷ xs) ys = ground (arith, lookup-append k xs ys)

last_value-lookup :
    (k : Text) (fields : List (Text × Text)) (d : Text)
    → last_value k fields d ≡ elim (lookup k (reverse fields)) [ none ↦ d | some v ↦ v ]
unfolding lookup
last_value-lookup k [] d = refl
last_value-lookup k ((j, v) ∷ fields) d =
    let before = reverse fields in
    let e = reverse-cons (j, v) fields in
    let e' = lookup-append k before ((j, v) ∷ []) in
    elim (Option-cases (lookup k before)) [
      | inr (w, found) ↦ rw (last_value-lookup k fields (ite (text_dec j k) v d), e, e', found) refl
      | inl missing ↦
          rw (last_value-lookup k fields (ite (text_dec j k) v d), e, e', missing) (ground arith)
    ]

or_empty-lookup :
    (k : Text) (fields : List (Text × Text))
    → or_empty (lookup k (reverse fields)) ≡ last_value k fields []
or_empty-lookup k fields = elim (Option-cases (lookup k (reverse fields))) [
  | inl missing ↦ rw (last_value-lookup k fields [], missing) refl
  | inr (v, found) ↦ rw (last_value-lookup k fields [], found) refl
]

ite-fields :
    {A B : Type 0} (a : Dec A) (b : Dec B)
    → ¬ (A × B)
    → (v : Text) (r : CloudflareTraceResult)
    → ite a (record r { ip = v }) (ite b (record r { loc = v }) r)
      ≡ record { ip = ite a v r.ip; loc = ite b v r.loc }
ite-fields (yes h) (yes h') other v r = absurd (other (h, h'))
ite-fields (yes h) (no h') other v r = refl
ite-fields (no h) (yes h') other v r = refl
ite-fields (no h) (no h') other v r = refl

trace_line-field :
    (k v : Text) (r : CloudflareTraceResult)
    → has_byte 61 k ≡ false
    → trim_space (field_line (k, v)) ≡ field_line (k, v)
    → trace_line (field_line (k, v)) r ≡ record {
      ip = ite (text_dec k (bytes "ip")) v r.ip;
      loc = ite (text_dec k (bytes "loc")) v r.loc;
    }
unfolding trace_line
trace_line-field k v r bare trimmed =
    let other : ¬ ((k ≡ bytes "ip") × (k ≡ bytes "loc")) = λ h. ground arith in
    rw (trace_line, trimmed, cut-key 61 k v bare)
      (ite-fields (text_dec k (bytes "ip")) (text_dec k (bytes "loc")) other v r)

trace_lines-print :
    (fields : List (Text × Text)) (r : CloudflareTraceResult)
    → IsPlain fields
    → trace_lines (split_at_byte 10 (print_trace fields)) r ≡ record {
      ip = last_value (bytes "ip") fields r.ip;
      loc = last_value (bytes "loc") fields r.loc;
    }
unfolding trace_lines trace_line print_trace split_at_byte trim_space trim_left cut
trace_lines-print [] r h = refl
trace_lines-print ((k, v) ∷ fields) r (bare, whole, trimmed, rest) =
    rw (split_at_byte-line 10 (field_line (k, v)) (print_trace fields) whole)
      (rw (trace_lines, trace_line-field k v r bare trimmed) (trace_lines-print fields _ rest))

-- A body of `key=value` lines, each with no equals sign in its key and no space at its ends, reads
-- as the last values of the keys `ip` and `loc`; without a value for `ip`, it is an error.
pub parse_cloudflare_trace-print :
    (fields : List (Text × Text))
    → IsPlain fields
    → let value = λ (k : Text). or_empty (lookup k (reverse fields)) in
      parse_cloudflare_trace (print_trace fields) ≡ (
        if length (value (bytes "ip")) == 0
        then none
        else some (record { ip = value (bytes "ip"); loc = value (bytes "loc") }))
unfolding parse_cloudflare_trace
parse_cloudflare_trace-print fields plain =
    rw
      (
        parse_cloudflare_trace,
        trace_lines-print fields (record { ip = []; loc = [] }) plain,
        or_empty-lookup (bytes "ip") fields,
        or_empty-lookup (bytes "loc") fields,
      )
      refl
