-- ===== src/Pool/Rotation.antt =====
-- `GetProxy` hands the pool out in rotation.
use proxy_in_a_box.Prelude.{
  ℕ, zero, suc, ◌+◌, ◌≤◌, ◌≡◌, refl, sym, ap, ◌∙◌, ◌≢◌, Option, some, List, [], ◌∷◌, ◌++◌, map,
  append-nil, append_assoc, Text, length, length-append, get_elem?, get_elem?-middle, take, drop,
  take-append-drop, length-take, take_of_length-le, drop_of_length-le, dec_le, arith,
}
use native.Mathlib.Nat.{zero-add, suc-add}
use mathlib.Core.List.{map-append}
use proxy_in_a_box.Pool.{ProxyEntry, ProxyList, entry_uri, get_proxy}

-- What `k` calls in a row return, and the pool after them.
unfoldable pub serve : ℕ → ProxyList → ProxyList × List (Option Text)
serve zero l = (l, [])
serve (suc k) l = let (l', r) = get_proxy l in let (l'', rs) = serve k l' in (l'', r ∷ rs)

abbrev pub offers : List ProxyEntry → List (Option Text)
offers = map (λ e. some (entry_uri e))

-- At the index of an entry, that entry is offered.
get_proxy-middle :
    (l : ProxyList) (xs ys : List ProxyEntry) (e : ProxyEntry)
    → l.pl ≡ xs ++ e ∷ ys
    → l.get_proxy_index ≡ length xs
    → get_proxy l ≡ (record l { get_proxy_index = length xs + 1 }, some (entry_uri e))
unfolding get_proxy
get_proxy-middle l xs ys e split at = ground (
  arith,
  split,
  at,
  ap length split,
  length-append xs (e ∷ ys),
  get_elem?-middle xs ys e,
  ap (λ (es : List ProxyEntry). get_elem? es (length xs)) split,
  ap (get_elem? l.pl) at,
)

-- An index past the end counts as 0.
get_proxy-wraps :
    (l : ProxyList)
    → l.pl ≢ []
    → length l.pl ≤ l.get_proxy_index
    → get_proxy l ≡ get_proxy (record l { get_proxy_index = 0 })
unfolding get_proxy
get_proxy-wraps l filled at = ground arith

-- From index `length xs` the next `length ys` calls offer `ys`.
serve-middle :
    (ys xs zs : List ProxyEntry) (l : ProxyList)
    → l.pl ≡ xs ++ (ys ++ zs)
    → l.get_proxy_index ≡ length xs
    → serve (length ys) l ≡ (record l { get_proxy_index = length xs + length ys }, offers ys)
unfolding serve
serve-middle [] xs zs l split at = ground (arith, at)
serve-middle (y ∷ ys) xs zs l split at = rw (get_proxy-middle l xs (ys ++ zs) y split at) (
    rw
      (serve-middle ys (xs ++ y ∷ []) zs (record l { get_proxy_index = length xs + 1 })
        (split ∙ sym (append_assoc xs (y ∷ []) (ys ++ zs)))
        (omega (arith, length-append xs (y ∷ []))))
      (ground (arith, length-append xs (y ∷ []))))

serve-append :
    (a b : ℕ) (l : ProxyList) → (serve (a + b) l).1 ≡ (serve a l).1 ++ (serve b (serve a l).0).1
unfolding serve
serve-append zero b l = rw zero-add
serve-append (suc a) b l = rw suc-add (ap (◌∷◌ (get_proxy l).1) (serve-append a b (get_proxy l).0))

-- A pool whose index has run past the end serves as from index 0.
serve-wraps :
    (l : ProxyList)
    → length l.pl ≤ l.get_proxy_index
    → (k : ℕ) → k ≤ length l.pl
    → (serve k l).1 ≡ (serve k (record l { get_proxy_index = 0 })).1
unfolding serve
serve-wraps l past zero h = refl
serve-wraps l past (suc k) h =
    rw (get_proxy-wraps l (λ e. absurd (omega (arith, ap length e))) past)

serve_from_zero :
    (l : ProxyList)
    → length l.pl ≤ l.get_proxy_index
    → (xs zs : List ProxyEntry) → l.pl ≡ xs ++ zs
    → (serve (length xs) l).1 ≡ offers xs
serve_from_zero l past xs zs split =
    serve-wraps l past (length xs) (omega (arith, ap length split, length-append xs zs))
    ∙ ap (λ (r : ProxyList × List (Option Text)). r.1)
        (serve-middle xs [] zs (record l { get_proxy_index = 0 }) split refl)

split_rotation :
    (l : ProxyList) (xs ys : List ProxyEntry)
    → l.pl ≡ xs ++ ys
    → l.get_proxy_index ≡ length xs
    → (serve (length l.pl) l).1 ≡ offers (ys ++ xs)
split_rotation l xs ys split at =
    let total : length l.pl ≡ length ys + length xs =
      omega (arith, ap length split, length-append xs ys) in
    let first = serve-middle ys xs [] l (rw append-nil split) at in
    let l' = record l { get_proxy_index = length xs + length ys } in
    rw (total, serve-append, first, serve_from_zero l' (omega (arith, total)) xs ys split)
      (sym (map-append _ ys xs))

-- As many calls as the pool has entries offer every entry exactly once: those from the index on
-- (from the start, if the index is past the end), and then those before it.
pub get_proxy-rotation :
    (l : ProxyList)
    → (serve (length l.pl) l).1
      ≡ offers (drop l.get_proxy_index l.pl ++ take l.get_proxy_index l.pl)
get_proxy-rotation l = elim (dec_le (length l.pl) l.get_proxy_index) [
  | yes past ↦
      rw
        (
          drop_of_length-le l.get_proxy_index l.pl past,
          take_of_length-le l.get_proxy_index l.pl past,
        )
        (serve_from_zero l past l.pl [] (sym (append-nil l.pl)))
  | no inside ↦
      split_rotation l (take l.get_proxy_index l.pl) (drop l.get_proxy_index l.pl)
        (sym (take-append-drop l.get_proxy_index l.pl))
        (omega (arith, length-take l.get_proxy_index l.pl))
]
