-- ===== src/Pool/Removal.antt =====
-- The backward removal loops of the pool are filters.
use proxy_in_a_box.Prelude.{
  ℕ, suc, ◌+◌, ◌≡◌, refl, sym, ap, none, ite, List, [], ◌∷◌, ◌++◌, reverse, append-nil,
  append_assoc, Text, text_dec, Map, lookup, delete, lookup-delete, length, ◌==◌, if◌then◌else◌,
  reject, select, get_elem?-middle, remove_at-middle, length-reverse, reverse-cons-append,
  reject-append, select-append, arith,
}
use mathlib.Core.List.{reverse-cons, reverse-reverse}
use proxy_in_a_box.Pool.{
  ProxyEntry, ProxyList, entry_uri, remove_loop, remove_by_uri_from_cache_locked,
  remove_from_cache_locked,
}

-- How many entries have the key.
unfoldable pub count_key : (ProxyEntry → Text) → Text → List ProxyEntry → ℕ
count_key key u [] = 0
count_key key u (e ∷ es) = ite (text_dec (key e) u) 1 0 + count_key key u es

pub count_key-append :
    (key : ProxyEntry → Text) (u : Text) (xs ys : List ProxyEntry)
    → count_key key u (xs ++ ys) ≡ count_key key u xs + count_key key u ys
unfolding count_key
count_key-append key u [] ys = omega arith
count_key-append key u (e ∷ es) ys = omega (arith, count_key-append key u es ys)

-- An index without the keys of some entries.
unfoldable pub without : {V : Type 0} → (ProxyEntry → Text) → List ProxyEntry → Map V → Map V
without key [] m = m
without key (e ∷ es) m = delete (key e) (without key es m)

without-append :
    {V : Type 0} (key : ProxyEntry → Text) (xs ys : List ProxyEntry) (m : Map V)
    → without key (xs ++ ys) m ≡ without key xs (without key ys m)
unfolding without
without-append key [] ys m = refl
without-append key (e ∷ es) ys m = ap (delete (key e)) (without-append key es ys m)

-- The pool with other entries and another index.
abbrev pool_of : List ProxyEntry → ℕ → Map (Unit {0}) → ProxyList
pool_of es i m = record { pl = es; get_proxy_index = i; index = m }

module _ {κ} {P : ProxyEntry → Type κ} (d : (e : ProxyEntry) → Dec (P e))
    (key : ProxyEntry → Text) where
  step_at :
      (zs ys : List ProxyEntry) (r : ProxyEntry) (k i : ℕ) (m : Map (Unit {0}))
      → k ≡ length zs
      → remove_loop d key (suc k) (pool_of (zs ++ r ∷ ys) i m)
        ≡ remove_loop d key k
            (ite (d r) (pool_of (zs ++ ys) i (delete (key r) m)) (pool_of (zs ++ r ∷ ys) i m))
  unfolding remove_loop
  step_at zs ys r k i m e = rw (e, get_elem?-middle zs ys r, e, remove_at-middle zs ys r)

  loop_from :
      (rs ys : List ProxyEntry) (i : ℕ) (m : Map (Unit {0}))
      → remove_loop d key (length rs) (pool_of (reverse rs ++ ys) i m)
        ≡ pool_of (reject d (reverse rs) ++ ys) i (without key (select d (reverse rs)) m)
  unfolding remove_loop reject select without
  loop_from [] ys i m = refl
  loop_from (r ∷ rs) ys i m =
      rw
        (
          reverse-cons-append r rs ys,
          step_at (reverse rs) ys r (length rs) i m (sym (length-reverse rs)),
          reverse-cons r rs,
          reject-append d (reverse rs) (r ∷ []),
          select-append d (reverse rs) (r ∷ []),
          without-append key (select d (reverse rs)) _ m,
        )
        (elim (d r) [
          | yes h ↦
              ground
                (arith, loop_from rs ys i (delete (key r) m), append-nil (reject d (reverse rs)))
          | no h ↦
              ground
                (arith, loop_from rs (r ∷ ys) i m, append_assoc (reject d (reverse rs)) (r ∷ []) ys)
        ])

  -- The whole loop keeps the entries that fail the test, in order, and takes the keys of the
  -- others out of the index.
  pub remove_loop_lem :
      (l : ProxyList)
      → remove_loop d key (length l.pl) l
        ≡ pool_of (reject d l.pl) l.get_proxy_index (without key (select d l.pl) l.index)
  remove_loop_lem l =
      let whole = loop_from (reverse l.pl) [] l.get_proxy_index l.index in
      rw (reverse-reverse, length-reverse, append-nil, append-nil) at whole

module _ {κ} {P : ProxyEntry → Type κ} (d : (e : ProxyEntry) → Dec (P e)) where
  pub count_key-reject-select :
      (key : ProxyEntry → Text) (u : Text) (es : List ProxyEntry)
      → count_key key u (reject d es) + count_key key u (select d es) ≡ count_key key u es
  unfolding count_key reject select
  count_key-reject-select key u [] = omega arith
  count_key-reject-select key u (e ∷ es) = ground (arith, count_key-reject-select key u es)

pub lookup-without :
    {V : Type 0} (key : ProxyEntry → Text) (u : Text) (es : List ProxyEntry) (m : Map V)
    → lookup u (without key es m) ≡ (if count_key key u es == 0 then lookup u m else none)
unfolding without count_key
lookup-without key u [] m = refl
lookup-without key u (e ∷ es) m =
    ground (arith, lookup-without key u es m, lookup-delete u (key e) (without key es m))

-- A backward removal by URI is a filter: the entries with another URI stay, in order.
pub remove_by_uri_from_cache_locked-reject :
    (u : Text) (l : ProxyList)
    → (remove_by_uri_from_cache_locked u l).pl ≡ reject (λ e. text_dec (entry_uri e) u) l.pl
unfolding remove_by_uri_from_cache_locked
remove_by_uri_from_cache_locked-reject u l = ap (λ x. x.pl) (remove_loop_lem _ (λ e. u) l)

-- A backward removal by IP is a filter: the entries with another IP stay, in order.
pub remove_from_cache_locked-reject :
    (ip : Text) (l : ProxyList)
    → (remove_from_cache_locked ip l).pl ≡ reject (λ e. text_dec e.p.ip ip) l.pl
unfolding remove_from_cache_locked
remove_from_cache_locked-reject ip l = ap (λ x. x.pl) (remove_loop_lem _ entry_uri l)
