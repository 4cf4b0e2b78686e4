-- ===== src/Fetch.antt =====
-- Requests to sources and through proxies under check (crawler/crawler.go): the trace that
-- Cloudflare answers, and below it the retry loop with the callers that keep no other state.
pub mod Trace
pub mod Requests
pub mod Callers
pub mod Retries
pub mod Documents
use proxy_in_a_box.Prelude.{
  ℕ, zero, suc, ◌+◌, ◌-◌, Bool, true, false, ◌&&◌, not, Option, none, some, List, [], ◌∷◌, ◌++◌,
  Text, bytes, text_dec, ite, Map, insert, length, ltb, leb, ◌==◌, if◌then◌else◌, Time, Duration,
  second, unix,
}
use proxy_in_a_box.Prelude.Int.{ℤ, pos, negsuc}
use proxy_in_a_box.Endpoint.{Proxy, uri}
use proxy_in_a_box.Statistics.{NetworkRateBucket, record_rate}
use proxy_in_a_box.RateLimit.{AttemptRateLimiter, reserve}
use proxy_in_a_box.Admission.{trim_space}

abbrev pub split_step : Bool → ℕ → List Text → List Text
split_step true c lines = [] ∷ lines
split_step false c [] = (c ∷ []) ∷ []
split_step false c (line ∷ lines) = (c ∷ line) ∷ lines

-- `strings.Split(s, sep)` for a separator of one byte
unfoldable pub split_at_byte : ℕ → Text → List Text
split_at_byte sep [] = [] ∷ []
split_at_byte sep (c ∷ s) = split_step (c == sep) c (split_at_byte sep s)

-- `strings.Cut(s, "=")`
unfoldable pub cut : ℕ → Text → Option (Text × Text)
cut sep [] = none
cut sep (c ∷ s) =
    if c == sep
    then some ([], s)
    else elim (cut sep s) [ none ↦ none | some (k, v) ↦ some (c ∷ k, v) ]

pub record CloudflareTraceResult : Type 0 where
  pub ip : Text
  pub loc : Text

-- One line of the body.
unfoldable pub trace_line : Text → CloudflareTraceResult → CloudflareTraceResult
unfolding cut
trace_line line r = elim (cut 61 (trim_space line)) [
  | none ↦ r
  | some (k, v) ↦
      ite (text_dec k (bytes "ip")) (record r { ip = v })
        (ite (text_dec k (bytes "loc")) (record r { loc = v }) r)
]

unfoldable pub trace_lines : List Text → CloudflareTraceResult → CloudflareTraceResult
trace_lines [] r = r
trace_lines (line ∷ lines) r = trace_lines lines (trace_line line r)

-- A trace without an address is an error.
unfoldable pub parse_cloudflare_trace : Text → Option CloudflareTraceResult
unfolding trace_lines split_at_byte
parse_cloudflare_trace body =
    let r = trace_lines (split_at_byte 10 body) (record { ip = []; loc = [] }) in
    if length r.ip == 0 then none else some r
