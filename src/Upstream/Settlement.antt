-- ===== src/Upstream/Settlement.antt =====
-- The counters at the end of a request.
use proxy_in_a_box.Prelude.{
  ℕ, ◌+◌, ◌≡◌, inl, inr, false, Bool-cases, [], ◌∷◌, Text, length, ◌==◌, if◌then◌else◌, arith,
}
use proxy_in_a_box.Upstream.{
  Counters, add_success, add_failed, add_bytes, count_request, count_upstream, count_bytes,
  response_failed, response_written,
}
use proxy_in_a_box.Upstream.Balance.{
  IsBalanced, IsPending, add_success-IsBalanced, add_failed-IsBalanced, add_bytes-IsBalanced,
  IsPending-unnamed,
}

-- One request settled: its success or failure is counted, and its total is not.
abbrev pub Settles : Counters → Counters → Type 0
Settles c c' =
    (c'.requests.total_requests ≡ c.requests.total_requests)
    × (c'.requests.success_requests + c'.requests.failed_requests
        ≡ c.requests.success_requests + c.requests.failed_requests + 1)

-- The end of a request that went out through `scheme`.
pub settle_success :
    (scheme : Text) (c c' : Counters)
    → c'.requests ≡ c.requests
    → IsPending scheme c'
    → let d = count_upstream scheme add_success (count_request add_success c') in
      Settles c d × IsBalanced d
unfolding count_upstream
settle_success scheme c c' same pending =
    (ground (arith, same), add_success-IsBalanced scheme (count_request add_success c') pending)

pub settle_failed :
    (scheme : Text) (c c' : Counters)
    → c'.requests ≡ c.requests
    → IsPending scheme c'
    → let d = count_upstream scheme add_failed (count_request add_failed c') in
      Settles c d × IsBalanced d
unfolding count_upstream
settle_failed scheme c c' same pending =
    (ground (arith, same), add_failed-IsBalanced scheme (count_request add_failed c') pending)

some_length : (x : ℕ) (xs : Text) → (length (x ∷ xs) == 0) ≡ false
some_length x xs = ground arith

-- The end of a request with a response, which has a scheme or not.
pub settle_response_failed :
    (scheme : Text) (c c' : Counters)
    → c'.requests ≡ c.requests
    → IsPending scheme c'
    → Settles c (response_failed scheme c') × IsBalanced (response_failed scheme c')
unfolding response_failed
settle_response_failed [] c c' same pending =
    (ground (arith, same), IsPending-unnamed (count_request add_failed c') pending)
settle_response_failed (x ∷ xs) c c' same pending =
    rw (response_failed, some_length x xs) (settle_failed (x ∷ xs) c c' same pending)

count_bytes-IsBalanced :
    (scheme : Text) (n : ℕ) (c c' : Counters)
    → Settles c c' × IsBalanced c'
    → Settles c (count_bytes scheme n c') × IsBalanced (count_bytes scheme n c')
unfolding count_bytes count_upstream
count_bytes-IsBalanced [] n c c' (settled, h) = (settled, h)
count_bytes-IsBalanced (x ∷ xs) n c c' (settled, h) =
    rw (count_bytes, some_length x xs)
      (settled, add_bytes-IsBalanced (x ∷ xs) n (count_request (add_bytes n) c') h)

counted_bytes :
    (scheme : Text) (sent n : ℕ) (c c' : Counters)
    → Settles c c' × IsBalanced c'
    → let d = count_bytes scheme n (if sent == 0 then c' else count_bytes scheme sent c') in
      Settles c d × IsBalanced d
counted_bytes scheme sent n c c' h = elim (Bool-cases (sent == 0)) [
  | inl none' ↦ rw none' (count_bytes-IsBalanced scheme n c c' h)
  | inr some' ↦ rw some' (
      count_bytes-IsBalanced scheme n c (count_bytes scheme sent c')
        (count_bytes-IsBalanced scheme sent c c' h))
]

pub settle_response_written :
    (scheme : Text) (sent n : ℕ) (c c' : Counters)
    → c'.requests ≡ c.requests
    → IsPending scheme c'
    → let d = response_written scheme sent n c' in Settles c d × IsBalanced d
unfolding response_written
settle_response_written [] sent n c c' same pending =
    counted_bytes [] sent n c (count_request add_success c')
      (ground (arith, same), IsPending-unnamed (count_request add_success c') pending)
settle_response_written (x ∷ xs) sent n c c' same pending =
    rw (response_written, some_length x xs)
      (counted_bytes (x ∷ xs) sent n c
        (count_upstream (x ∷ xs) add_success (count_request add_success c'))
        (settle_success (x ∷ xs) c c' same pending))
