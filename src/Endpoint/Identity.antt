-- ===== src/Endpoint/Identity.antt =====
-- A URI names one endpoint: proxies with equal URIs have the same protocol, address and port.
use proxy_in_a_box.Prelude.{ℕ, ◌≡◌, ◌≢◌, [], ◌∷◌, ◌++◌, Text, arith}
use proxy_in_a_box.Endpoint.{Proxy, uri, normal_protocol}

-- The byte does not stand in the text.
abbrev pub Lacks : ℕ → Text → Type 0
Lacks c [] = Unit {0}
Lacks c (x ∷ xs) = (x ≢ c) × Lacks c xs

-- Two texts that are split at the first `c` have equal parts.
split_unique :
    (c : ℕ) (xs ys r s : Text)
    → Lacks c xs
    → Lacks c ys
    → xs ++ c ∷ r ≡ ys ++ c ∷ s
    → (xs ≡ ys) × (r ≡ s)
split_unique c [] [] r s h k e = ground arith
split_unique c [] (y ∷ ys) r s h k e = absurd (ground arith)
split_unique c (x ∷ xs) [] r s h k e = absurd (ground arith)
split_unique c (x ∷ xs) (y ∷ ys) r s h k e = ground (arith, split_unique c xs ys r s h.1 k.1)

normal_protocol-Lacks : (p : Text) → Lacks b':' p → Lacks b':' (normal_protocol p)
unfolding normal_protocol
normal_protocol-Lacks p h = ground arith

-- Equal URIs have the same protocol (an empty one read as http), IP and port, provided that no
-- protocol and no IP contains a colon.
pub uri_injective :
    (p q : Proxy)
    → Lacks b':' p.protocol
    → Lacks b':' q.protocol
    → Lacks b':' p.ip
    → Lacks b':' q.ip
    → uri p ≡ uri q
    → (normal_protocol p.protocol ≡ normal_protocol q.protocol) × (p.ip ≡ q.ip) × (p.port ≡ q.port)
unfolding uri
uri_injective p q hp hq ip iq e =
    let outer =
      split_unique b':' (normal_protocol p.protocol) (normal_protocol q.protocol) _ _
        (normal_protocol-Lacks _ hp) (normal_protocol-Lacks _ hq) e in
    let inner = split_unique b':' p.ip q.ip p.port q.port ip iq (ground (arith, outer.1)) in
    (outer.0, inner.0, inner.1)
