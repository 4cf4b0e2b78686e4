-- ===== src/Pool/Index.antt =====
-- The index of the pool agrees with its entries, and no URI is in the pool twice.
use proxy_in_a_box.Prelude.{
  ℕ, true, false, leb, ◌≡◌, none, some, ite, List, [], ◌∷◌, Text, text_dec, Map, lookup,
  lookup-insert, select, arith,
}
use proxy_in_a_box.Pool.{
  ProxyEntry, ProxyList, entry_uri, remove_by_uri_from_cache_locked, remove_from_cache_locked,
  append_entry, has_proxy,
}
use proxy_in_a_box.Pool.Removal.{
  count_key, count_key-append, lookup-without, remove_loop_lem, count_key-reject-select,
}

abbrev pub count_uri : Text → List ProxyEntry → ℕ
count_uri = count_key entry_uri

abbrev pub indexed : Text → Map (Unit {0}) → ℕ
indexed u m = elim (lookup u m) [ none ↦ 0 | some _ ↦ 1 ]

-- Every URI is in the pool once if it is a key of the index, and not at all otherwise.
abbrev pub IsIndexed : ProxyList → Type 0
IsIndexed l = (u : Text) → count_uri u l.pl ≡ indexed u l.index

-- No entry that passes a test on the URI is counted twice under a constant key.
count_key-select_uri :
    (u v : Text) (es : List ProxyEntry)
    → count_uri v (select (λ e. text_dec (entry_uri e) u) es)
      ≡ ite (text_dec u v) (count_uri u es) 0
unfolding count_key select
count_key-select_uri u v [] = ground arith
count_key-select_uri u v (e ∷ es) = ground (arith, count_key-select_uri u v es)

count_key-constant :
    (u v : Text) (es : List ProxyEntry)
    → count_key (λ e. u) v (select (λ e. text_dec (entry_uri e) u) es)
      ≡ ite (text_dec u v) (count_uri u es) 0
unfolding count_key select
count_key-constant u v [] = ground arith
count_key-constant u v (e ∷ es) = ground (arith, count_key-constant u v es)

pub remove_by_uri-IsIndexed :
    (u : Text) (l : ProxyList) → IsIndexed l → IsIndexed (remove_by_uri_from_cache_locked u l)
unfolding remove_by_uri_from_cache_locked
remove_by_uri-IsIndexed u l h v =
    let d : (e : ProxyEntry) → Dec (entry_uri e ≡ u) = λ e. text_dec (entry_uri e) u in
    rw (remove_loop_lem d (λ e. u) l) (
      ground (
        arith,
        h v,
        lookup-without (λ e. u) v (select d l.pl) l.index,
        count_key-reject-select d entry_uri v l.pl,
        count_key-select_uri u v l.pl,
        count_key-constant u v l.pl,
      ))

-- Removing by IP, each entry's own URI goes from the index.
pub remove_by_ip-IsIndexed :
    (ip : Text) (l : ProxyList) → IsIndexed l → IsIndexed (remove_from_cache_locked ip l)
unfolding remove_from_cache_locked
remove_by_ip-IsIndexed ip l h v =
    let d : (e : ProxyEntry) → Dec (e.p.ip ≡ ip) = λ e. text_dec e.p.ip ip in
    rw (remove_loop_lem d entry_uri l) (
      ground (
        arith,
        h v,
        lookup-without entry_uri v (select d l.pl) l.index,
        count_key-reject-select d entry_uri v l.pl,
      ))

-- Appending an entry whose URI is not in the pool.
pub append_entry-IsIndexed :
    (e : ProxyEntry) (u : Text) (l : ProxyList)
    → entry_uri e ≡ u
    → count_uri u l.pl ≡ 0
    → IsIndexed l
    → IsIndexed (append_entry e u l)
unfolding append_entry count_key
append_entry-IsIndexed e u l same new h v =
    ground (arith, h v, count_key-append entry_uri v l.pl (e ∷ []), lookup-insert v u tt l.index)

pub count_uri-remove_by_uri :
    (u v : Text) (l : ProxyList)
    → count_uri v (remove_by_uri_from_cache_locked u l).pl ≡ ite (text_dec u v) 0 (count_uri v l.pl)
unfolding remove_by_uri_from_cache_locked
count_uri-remove_by_uri u v l =
    let d : (e : ProxyEntry) → Dec (entry_uri e ≡ u) = λ e. text_dec (entry_uri e) u in
    rw (remove_loop_lem d (λ e. u) l)
      (ground (arith, count_key-reject-select d entry_uri v l.pl, count_key-select_uri u v l.pl))

-- In a consistent pool `HasProxy` finds the URIs of the entries.
pub has_proxy-count :
    (u : Text) (l : ProxyList) → IsIndexed l → has_proxy u l ≡ leb 1 (count_uri u l.pl)
unfolding has_proxy
has_proxy-count u l h = ground (arith, h u)

pub has_proxy-remove_by_uri :
    (u v : Text) (l : ProxyList)
    → IsIndexed l
    → has_proxy v (remove_by_uri_from_cache_locked u l) ≡ ite (text_dec u v) false (has_proxy v l)
has_proxy-remove_by_uri u v l h = ground (
  arith,
  has_proxy-count v l h,
  has_proxy-count v (remove_by_uri_from_cache_locked u l) (remove_by_uri-IsIndexed u l h),
  count_uri-remove_by_uri u v l,
)

pub has_proxy-append_entry :
    (e : ProxyEntry) (u v : Text) (l : ProxyList)
    → has_proxy v (append_entry e u l) ≡ ite (text_dec u v) true (has_proxy v l)
unfolding has_proxy append_entry
has_proxy-append_entry e u v l = ground (arith, lookup-insert v u tt l.index)
