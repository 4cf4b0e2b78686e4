-- ===== src/Sources/Counts.antt =====
-- The counts of available proxies that the sources show.
use proxy_in_a_box.Prelude.{
  ℕ, ◌+◌, ◌≡◌, refl, ap, ite, List, [], ◌∷◌, map, Text, text_dec, Map, lookup, insert,
  lookup-insert, arith,
}
use proxy_in_a_box.Endpoint.{Proxy}
use proxy_in_a_box.Sources.Round.{
  SourceStatus, count_of, count_by_source, update_source_available_counts,
}

-- How many of the proxies a source gave.
abbrev pub proxies_of : Text → List Proxy → ℕ
proxies_of k [] = 0
proxies_of k (p ∷ ps) = ite (text_dec p.source k) 1 0 + proxies_of k ps

count_of-insert :
    (j k : Text) (n : ℕ) (m : Map ℕ)
    → count_of k (insert j n m) ≡ ite (text_dec j k) n (count_of k m)
count_of-insert j k n m = ground (arith, lookup-insert k j n m)

count_of-count_by_source :
    (k : Text) (ps : List Proxy) (m : Map ℕ)
    → count_of k (count_by_source ps m) ≡ count_of k m + proxies_of k ps
unfolding count_by_source
count_of-count_by_source k [] m = ground arith
count_of-count_by_source k (p ∷ ps) m = ground (
  arith,
  count_of-count_by_source k ps (insert p.source (count_of p.source m + 1) m),
  count_of-insert p.source k (count_of p.source m + 1) m,
)

-- After an update each source shows the number of proxies of the pool that it gave, and the rest of its
-- status is as it was.
pub update_source_available_counts-proxies_of :
    (ps : List Proxy) (l : List SourceStatus)
    → update_source_available_counts ps l
      ≡ map (λ (s : SourceStatus). record s { available_count = proxies_of s.name ps }) l
unfolding update_source_available_counts lookup
update_source_available_counts-proxies_of ps [] = refl
update_source_available_counts-proxies_of ps (s ∷ l) =
    let same : count_of s.name (count_by_source ps []) ≡ proxies_of s.name ps =
      omega (arith, count_of-count_by_source s.name ps []) in
    rw same (
      ap (◌∷◌ (record s { available_count = proxies_of s.name ps }))
        (update_source_available_counts-proxies_of ps l))
