-- ===== src/Pool.antt =====
-- The live proxy pool: `proxyEntry`, `proxyList` and the methods of `MemCache` that only touch it
-- (service/memcache.go). Its mutex makes each method one step.
pub mod Removal
pub mod Index
pub mod Rotation
use proxy_in_a_box.Prelude.{
  ℕ, zero, suc, ◌+◌, Bool, true, false, Option, none, some, ite, List, [], ◌∷◌, ◌++◌, map, Text,
  text_dec, Map, lookup, insert, delete, length, get_elem?, remove_at, leb, ◌==◌, if◌then◌else◌,
}
use proxy_in_a_box.Endpoint.{Proxy, uri}

pub record ProxyEntry : Type 0 where
  pub p : Proxy
  pub n : ℕ

-- `index` is the Go map with empty values.
pub record ProxyList : Type 0 where
  pub pl : List ProxyEntry
  pub get_proxy_index : ℕ
  pub index : Map (Unit {0})

abbrev pub entry_uri : ProxyEntry → Text
entry_uri e = uri e.p

-- `for i := n - 1; i >= 0; i--` over the pool: an entry that the test accepts is cut out, and
-- `key` of it is deleted from the index. The index `i` stays below the length, so `none`, where
-- Go would panic, is not met.
unfoldable pub remove_loop {κ} :
    {P : ProxyEntry → Type κ}
    → ((e : ProxyEntry) → Dec (P e))
    → (ProxyEntry → Text)
    → ℕ
    → ProxyList
    → ProxyList
unfolding remove_at
remove_loop d key zero l = l
remove_loop d key (suc i) l = remove_loop d key i (elim (get_elem? l.pl i) [
  | none ↦ l
  | some e ↦ ite (d e) (record l { pl = remove_at i l.pl; index = delete (key e) l.index }) l
])

unfoldable pub remove_by_uri_from_cache_locked : Text → ProxyList → ProxyList
remove_by_uri_from_cache_locked u l =
    remove_loop (λ e. text_dec (entry_uri e) u) (λ e. u) (length l.pl) l

unfoldable pub remove_from_cache_locked : Text → ProxyList → ProxyList
remove_from_cache_locked ip l = remove_loop (λ e. text_dec e.p.ip ip) entry_uri (length l.pl) l

-- `append(pl, e)`, and the entry's key in the index.
unfoldable pub append_entry : ProxyEntry → Text → ProxyList → ProxyList
append_entry e u l = record l { pl = l.pl ++ e ∷ []; index = insert u tt l.index }

-- The two results of `GetProxy` are an optional URI.
unfoldable pub get_proxy : ProxyList → ProxyList × Option Text
get_proxy l =
    if length l.pl == 0
    then (l, none)
    else let i = if leb (length l.pl) l.get_proxy_index then 0 else l.get_proxy_index in
      elim (get_elem? l.pl i) [
        | none ↦ (l, none)
        | some e ↦ (record l { get_proxy_index = i + 1 }, some (entry_uri e))
      ]

-- `r` is what `rand.IntN(len(pl))` returns.
unfoldable pub random_proxy : ℕ → ProxyList → Option Text
random_proxy r l =
    if length l.pl == 0
    then none
    else elim (get_elem? l.pl r) [ none ↦ none | some e ↦ some (entry_uri e) ]

unfoldable pub proxy_length : ProxyList → ℕ
proxy_length l = length l.pl

unfoldable pub has_proxy : Text → ProxyList → Bool
has_proxy u l = elim (lookup u l.index) [ none ↦ false | some _ ↦ true ]

unfoldable pub get_all_proxies : ProxyList → List Proxy
get_all_proxies l = map (λ e. e.p) l.pl
