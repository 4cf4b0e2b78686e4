-- ===== src/Migration/Endpoints.antt =====
-- Which rows the removal of duplicates keeps.
use mathlib.Core.List.{Memᴰ}
use proxy_in_a_box.Prelude.{
  ◌≡◌, ◌⊎◌, refl, sym, subst, inl, inr, Bool, true, false, ltb, Bool-cases, List, [], ◌∷◌,
  if◌then◌else◌, arith,
}
use proxy_in_a_box.Migration.{
  Row, has_same_endpoint, is_ranked_before, ranked_before, duplicate_number, without_duplicates,
  delete_duplicates,
}
use proxy_in_a_box.Migration.Order.{
  has_same_endpoint_refl, has_same_endpoint_symm, has_same_endpoint_trans, is_ranked_before_irrefl,
  is_ranked_before_trans, is_ranked_before_asymm, is_ranked_before_total,
}

-- A row of number 1 has no row of its endpoint before it.
ranked_before-zero :
    (k r : Row) (rows : List Row)
    → ranked_before k rows ≡ 0
    → Memᴰ r rows
    → has_same_endpoint r k ≡ true
    → is_ranked_before r k ≡ false
unfolding ranked_before
ranked_before-zero k r [] z m h = elim m [ ]
ranked_before-zero k r (s ∷ rows) z (Memᴰ.head e) h =
    let rk : has_same_endpoint s k ≡ true = subst (λ x. has_same_endpoint x k ≡ true) e h in
    subst (λ x. is_ranked_before x k ≡ false) (sym e)
      (elim (Bool-cases (is_ranked_before s k)) [ inl b ↦ ground (arith, b, rk) | inr b ↦ b ])
ranked_before-zero k r (s ∷ rows) z (Memᴰ.tail m) h = ranked_before-zero k r rows (ground arith) m h

-- No row of the endpoint comes before it.
abbrev pub IsFirst : Row → List Row → Type 0
IsFirst k rows =
    (s : Row) → Memᴰ s rows → has_same_endpoint s k ≡ true → is_ranked_before s k ≡ false

ranked_before-IsFirst : (k : Row) (rows : List Row) → IsFirst k rows → ranked_before k rows ≡ 0
unfolding ranked_before
ranked_before-IsFirst k [] h = refl
ranked_before-IsFirst k (s ∷ rows) h =
    let rest = ranked_before-IsFirst k rows λ r m. h r (Memᴰ.tail m) in
    elim (Bool-cases (has_same_endpoint s k)) [
      | inl same ↦ ground (arith, rest, same, h s (Memᴰ.head refl) same)
      | inr other ↦ ground (arith, rest, other)
    ]

kept-mem :
    (b : Bool) (k r : Row) (rest : List Row)
    → Memᴰ k (if b then rest else r ∷ rest)
    → ((b ≡ false) × (k ≡ r)) ⊎ Memᴰ k rest
kept-mem true k r rest m = inr m
kept-mem false k r rest (Memᴰ.head e) = inl (refl, e)
kept-mem false k r rest (Memᴰ.tail m) = inr m

mem-kept :
    (b : Bool) (k r : Row) (rest : List Row) → Memᴰ k rest → Memᴰ k (if b then rest else r ∷ rest)
mem-kept true k r rest m = m
mem-kept false k r rest m = Memᴰ.tail m

-- The rows that are kept are those of number 1.
without_duplicates-mem :
    (k : Row) (table rows : List Row)
    → Memᴰ k (without_duplicates table rows)
    → Memᴰ k rows × (ranked_before k table ≡ 0)
unfolding without_duplicates
without_duplicates-mem k table [] m = elim m [ ]
without_duplicates-mem k table (r ∷ rows) m =
    elim (kept-mem (ltb 1 (duplicate_number r table)) k r (without_duplicates table rows) m) [
      | inl (first, e) ↦
          (Memᴰ.head e, subst (λ x. ranked_before x table ≡ 0) (sym e) (ground (arith, first)))
      | inr rest ↦ let (m', z) = without_duplicates-mem k table rows rest in (Memᴰ.tail m', z)
    ]

mem-without_duplicates :
    (k : Row) (table rows : List Row)
    → Memᴰ k rows
    → ranked_before k table ≡ 0
    → Memᴰ k (without_duplicates table rows)
unfolding without_duplicates
mem-without_duplicates k table [] m z = elim m [ ]
mem-without_duplicates k table (r ∷ rows) (Memᴰ.head e) z =
    let z' : ranked_before r table ≡ 0 = subst (λ x. ranked_before x table ≡ 0) e z in
    let first : ltb 1 (duplicate_number r table) ≡ false = ground (arith, z') in
    subst
      (λ b. Memᴰ k (if b then without_duplicates table rows else r ∷ without_duplicates table rows))
      (sym first) (Memᴰ.head e)
mem-without_duplicates k table (r ∷ rows) (Memᴰ.tail m) z =
    mem-kept (ltb 1 (duplicate_number r table)) k r (without_duplicates table rows)
      (mem-without_duplicates k table rows m z)

mem-second : (s r z : Row) (rows : List Row) → Memᴰ s (r ∷ z ∷ rows) → (s ≡ z) ⊎ Memᴰ s (r ∷ rows)
mem-second s r z rows (Memᴰ.head e) = inr (Memᴰ.head e)
mem-second s r z rows (Memᴰ.tail (Memᴰ.head e)) = inl e
mem-second s r z rows (Memᴰ.tail (Memᴰ.tail m)) = inr (Memᴰ.tail m)

second-mem : (s r z : Row) (rows : List Row) → Memᴰ s (r ∷ rows) → Memᴰ s (r ∷ z ∷ rows)
second-mem s r z rows (Memᴰ.head e) = Memᴰ.head e
second-mem s r z rows (Memᴰ.tail m) = Memᴰ.tail (Memᴰ.tail m)

-- A row that comes before the first of the others is the first of all.
IsFirst-before :
    (k r z : Row) (rows : List Row)
    → IsFirst k (r ∷ rows)
    → has_same_endpoint z k ≡ true
    → is_ranked_before z k ≡ true
    → IsFirst z (r ∷ z ∷ rows)
IsFirst-before k r z rows first same before s m h = elim (mem-second s r z rows m) [
  | inl e ↦ subst (λ x. is_ranked_before x z ≡ false) (sym e) (is_ranked_before_irrefl z)
  | inr m' ↦
      is_ranked_before_asymm z s
        (is_ranked_before_trans s k z (first s m' (has_same_endpoint_trans s z k h same)) before)
]

IsFirst-after :
    (k r z : Row) (rows : List Row)
    → IsFirst k (r ∷ rows)
    → (has_same_endpoint z k ≡ true → is_ranked_before z k ≡ false)
    → IsFirst k (r ∷ z ∷ rows)
IsFirst-after k r z rows first after s m h = elim (mem-second s r z rows m) [
  | inl e ↦
      subst (λ x. is_ranked_before x k ≡ false) (sym e)
        (after (subst (λ x. has_same_endpoint x k ≡ true) e h))
  | inr m' ↦ first s m' h
]

-- Among a row and others, the first of its endpoint.
IsFirst-exists :
    (r : Row) (rows : List Row)
    → (k : Row) × Memᴰ k (r ∷ rows) × (has_same_endpoint k r ≡ true) × IsFirst k (r ∷ rows)
IsFirst-exists r [] = (
  r,
  Memᴰ.head refl,
  has_same_endpoint_refl r,
  λ s m h. elim m [
    | Memᴰ.head e ↦ subst (λ x. is_ranked_before x r ≡ false) (sym e) (is_ranked_before_irrefl r)
    | Memᴰ.tail n ↦ elim n [ ]
  ],
)
IsFirst-exists r (z ∷ rows) =
    let (k, m, same, first) = IsFirst-exists r rows in
    elim (Bool-cases (has_same_endpoint z k)) [
      | inl zk ↦ elim (Bool-cases (is_ranked_before z k)) [
        | inl before ↦ (
          z,
          Memᴰ.tail (Memᴰ.head refl),
          has_same_endpoint_trans z k r zk same,
          IsFirst-before k r z rows first zk before,
        )
        | inr after ↦ (k, second-mem k r z rows m, same, IsFirst-after k r z rows first λ h. after)
      ]
      | inr other ↦ (
        k,
        second-mem k r z rows m,
        same,
        IsFirst-after k r z rows first λ h. ground (arith, h, other),
      )
    ]

-- Two rows of one endpoint that are kept have the same key.
kept-id :
    (a b : Row) (rows : List Row)
    → Memᴰ a (delete_duplicates rows)
    → Memᴰ b (delete_duplicates rows)
    → has_same_endpoint a b ≡ true
    → (a.proxy).id ≡ (b.proxy).id
unfolding delete_duplicates
kept-id a b rows m n h =
    let (ma, za) = without_duplicates-mem a rows rows m in
    let (mb, zb) = without_duplicates-mem b rows rows n in
    is_ranked_before_total a b (ranked_before-zero b a rows zb ma h)
      (ranked_before-zero a b rows za mb (has_same_endpoint_symm a b h))

-- The rows of a row's endpoint have its key.
abbrev pub IsAlone : Row → List Row → Type 0
IsAlone k rows =
    (s : Row) → Memᴰ s rows → has_same_endpoint s k ≡ true → (s.proxy).id ≡ (k.proxy).id

-- For every row of the table, the removal of duplicates keeps a row of the same endpoint: one that
-- was in the table and that no row of the endpoint comes before in the order of deletion and key.
-- Every row that is left for the endpoint has the key of that row.
pub delete_duplicates-IsFirst :
    (rows : List Row) (r : Row)
    → Memᴰ r rows
    → (k : Row) × Memᴰ k rows
      × Memᴰ k (delete_duplicates rows)
      × (has_same_endpoint k r ≡ true)
      × IsFirst k rows
      × IsAlone k (delete_duplicates rows)
unfolding delete_duplicates
delete_duplicates-IsFirst rows r m =
    let (k, mk, same, first) = IsFirst-exists r rows in
    let first' : IsFirst k rows = λ s n. first s (Memᴰ.tail n) in
    let there : Memᴰ k rows = elim mk [
      | Memᴰ.head e ↦ subst (λ x. Memᴰ x rows) (sym e) m
      | Memᴰ.tail n ↦ n
    ] in
    let kept = mem-without_duplicates k rows rows there (ranked_before-IsFirst k rows first') in
    (k, there, kept, same, first', λ s n h. kept-id s k rows n kept h)
