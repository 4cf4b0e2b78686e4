-- ===== src/Store/Tables.antt =====
-- An implementation of the database interface by two lists of rows: it shows that the behaviour
-- the theorems rely on can be met.
use mathlib.Core.Option.{some-injective}
use proxy_in_a_box.Prelude.{
  ℕ, suc, ◌≡◌, refl, subst, ap, inl, inr, Bool, true, false, Bool-cases, ◌&&◌, Option, none, some,
  ite, if_pos, List, [], ◌∷◌, Text, text_dec, ltb, ◌==◌, not, if◌then◌else◌, length, arith,
}
use proxy_in_a_box.Endpoint.{Proxy, BlockedIp}
use proxy_in_a_box.Store.{Store, Columns, apply_columns}

pub record Tables : Type 0 where
  pub proxies : List Proxy
  pub blocked : List BlockedIp
  pub next_id : ℕ

-- The first row that passes a test.
unfoldable pub first {ℓ} : {A : Type ℓ} → (A → Bool) → List A → Option A
first test [] = none
first test (x ∷ xs) = if test x then some x else first test xs

unfoldable pub all_rows {ℓ} : {A : Type ℓ} → (A → Bool) → List A → List A
all_rows test [] = []
all_rows test (x ∷ xs) = if test x then x ∷ all_rows test xs else all_rows test xs

-- The row with the key, changed, and how many rows were.
unfoldable pub update_row : ℕ → (Proxy → Proxy) → List Proxy → List Proxy × ℕ
update_row i f [] = ([], 0)
update_row i f (p ∷ ps) =
    let (qs, n) = update_row i f ps in if p.id == i then (f p ∷ ps, 1) else (p ∷ qs, n)

abbrev pub has_id : ℕ → Proxy → Bool
has_id i p = p.id == i

abbrev pub same_ip : Text → Text → Bool
same_ip a b = ite (text_dec a b) true false

unfoldable pub delete_rows : Text → List BlockedIp → List BlockedIp
delete_rows ip [] = []
delete_rows ip (b ∷ bs) = ite (text_dec b.ip ip) (delete_rows ip bs) (b ∷ delete_rows ip bs)

unfoldable pub find_row : Text → List BlockedIp → Option BlockedIp
find_row ip [] = none
find_row ip (b ∷ bs) = ite (text_dec b.ip ip) (some b) (find_row ip bs)

unfoldable pub save_row : Tables → Proxy → Option (Tables × Proxy)
unfolding update_row
save_row t p =
    let q = record p { id = if p.id == 0 then t.next_id else p.id } in
    let (ps, n) = update_row q.id (λ _. q) t.proxies in
    some (record t { proxies = if n == 0 then q ∷ t.proxies else ps; next_id = suc t.next_id }, q)

unfoldable pub disable_rows : Text → List Proxy → List Proxy
disable_rows ip [] = []
disable_rows ip (p ∷ ps) =
    ite (text_dec p.ip ip) (record p { available = false }) p ∷ disable_rows ip ps

pub save_row-keeps :
    (t t' : Tables) (p p' : Proxy) → save_row t p ≡ some (t', p') → p' ≡ record p { id = p'.id }
unfolding save_row
save_row-keeps t t' p p' e = ground arith

update_row-finds :
    (ps : List Proxy) (i : ℕ) (c : Columns)
    → (update_row i (apply_columns c) ps).1 ≡ 1
    → (p : Proxy) × (first (has_id i) ps ≡ some p)
      × (first (has_id i) (update_row i (apply_columns c) ps).0 ≡ some (apply_columns c p))
unfolding update_row first
update_row-finds [] i c e = absurd (ground arith)
update_row-finds (p ∷ ps) i c e = elim (Bool-cases (p.id == i)) [
  | inl here ↦ (p, rw here, rw (here, here))
  | inr other ↦
      let (q, before, after) = update_row-finds ps i c (rw other at e) in
      (q, rw other before, rw (other, other) after)
]

pub update-finds :
    (t t' : Tables) (i : ℕ) (c : Columns)
    → ◌≡◌ {A = Option (Tables × ℕ)}
        (some (
          record t { proxies = (update_row i (apply_columns c) t.proxies).0 },
          (update_row i (apply_columns c) t.proxies).1,
        ))
        (some (t', 1))
    → (p : Proxy) × (first (has_id i) t.proxies ≡ some p)
      × (first (has_id i) t'.proxies ≡ some (apply_columns c p))
update-finds t t' i c e =
    let both = some-injective _ _ e in
    let (p, before, after) = update_row-finds t.proxies i c (ap (λ r. r.1) both) in
    (
      p,
      before,
      subst (λ ps. first (has_id i) ps ≡ some (apply_columns c p)) (ap (λ r. (r.0).proxies) both)
          after,
    )

pub find_row-ip :
    (bs : List BlockedIp) (ip : Text) (b : BlockedIp) → find_row ip bs ≡ some b → b.ip ≡ ip
unfolding find_row
find_row-ip [] ip b e = cc
find_row-ip (x ∷ bs) ip b e = ground (arith, find_row-ip bs ip b)

find_row-delete_rows : (ip : Text) (bs : List BlockedIp) → find_row ip (delete_rows ip bs) ≡ none
unfolding find_row delete_rows
find_row-delete_rows ip [] = refl
find_row-delete_rows ip (b ∷ bs) = ground (arith, find_row-delete_rows ip bs)

pub save-find :
    (t t' : Tables) (b : BlockedIp)
    → ◌≡◌ {A = Option Tables}
        (some (record t { blocked = b ∷ delete_rows b.ip t.blocked }))
        (some t')
    → find_row b.ip t'.blocked ≡ some b
unfolding find_row
save-find t t' b e =
    subst (λ (x : Tables). find_row b.ip x.blocked ≡ some b) (some-injective _ _ e)
      (if_pos (text_dec b.ip b.ip) refl (some b) (find_row b.ip (delete_rows b.ip t.blocked)))

pub disable-find :
    (t t' : Tables) (ip j : Text)
    → ◌≡◌ {A = Option Tables} (some (record t { proxies = disable_rows ip t.proxies })) (some t')
    → find_row j t'.blocked ≡ find_row j t.blocked
disable-find t t' ip j e =
    subst (λ (x : Tables). find_row j x.blocked ≡ find_row j t.blocked) (some-injective _ _ e) refl

pub delete-find :
    (t t' : Tables) (ip : Text)
    → ◌≡◌ {A = Option Tables} (some (record t { blocked = delete_rows ip t.blocked })) (some t')
    → find_row ip t'.blocked ≡ none
delete-find t t' ip e =
    subst (λ (x : Tables). find_row ip x.blocked ≡ none) (some-injective _ _ e)
      (find_row-delete_rows ip t.blocked)

abbrev pub tables : Store
tables = record {
  Db = Tables;
  find_proxy = λ t i. first (has_id i) t.proxies;
  find_endpoint = λ t ip port protocol.
      first (λ p. same_ip p.ip ip && same_ip p.port port && same_ip p.protocol protocol) t.proxies;
  save_proxy = save_row;
  update_proxy = λ t i c. some (
    record t { proxies = (update_row i (apply_columns c) t.proxies).0 },
    (update_row i (apply_columns c) t.proxies).1,
  );
  disable_ip = λ t ip. some (record t { proxies = disable_rows ip t.proxies });
  find_blocked = λ t ip. find_row ip t.blocked;
  save_blocked = λ t b. some (record t { blocked = b ∷ delete_rows b.ip t.blocked });
  delete_blocked = λ t ip. some (record t { blocked = delete_rows ip t.blocked });
  locked_after = λ t now. all_rows (λ b. ltb now b.locked_until) t.blocked;
  available_unlocked = λ t now. some (
      all_rows
        (λ p.
          p.available
          && (length (all_rows (λ b. ltb now b.locked_until && same_ip b.ip p.ip) t.blocked) == 0))
        t.proxies);
  delayed = λ t now. some (all_rows (λ p. not p.available && ltb now p.next_verify_at) t.proxies);
  stale = λ t cutoff. all_rows (λ p. ltb p.last_verify cutoff && ltb 0 p.last_verify) t.proxies;
  delete_stale = λ t cutoff. some (
    record t {
      proxies = all_rows (λ p. not (ltb p.last_verify cutoff && ltb 0 p.last_verify)) t.proxies;
    },
    length (all_rows (λ p. ltb p.last_verify cutoff && ltb 0 p.last_verify) t.proxies),
  );
  save_proxy-keeps = save_row-keeps;
  update_proxy-finds = update-finds;
  find_blocked-ip = λ t ip b. find_row-ip t.blocked ip b;
  find_blocked-save = save-find;
  find_blocked-disable = disable-find;
  find_blocked-delete = delete-find;
}
