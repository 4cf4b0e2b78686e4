-- ===== src/Prelude/Sequences.antt =====
-- Lists taken apart at a position, as Go's slices are.
use Prim.Native.Nat.{ℕ, zero, suc, ◌≤◌}
use mathlib.Core.List.{List, [], ◌∷◌, ◌++◌, reverse, reverse-cons, append-nil, append_assoc}
use mathlib.Core.Logic.{ite}
use mathlib.Core.Option.{some}
use mathlib.Core.Path.{◌≡◌, refl, sym, ap, ◌∙◌}
use native.Mathlib.Omega.{arith}
use proxy_in_a_box.Prelude.Lists.{length, get_elem?, take, drop, take-append-drop, length-append}

module _ {ℓ} {A : Type ℓ} where
  -- `append(xs[:i], xs[i+1:]...)`
  unfoldable pub remove_at : ℕ → List A → List A
  remove_at i xs = take i xs ++ drop (suc i) xs

  pub get_elem?-middle : (xs ys : List A) (a : A) → get_elem? (xs ++ a ∷ ys) (length xs) ≡ some a
  get_elem?-middle [] ys a = refl
  get_elem?-middle (x ∷ xs) ys a = get_elem?-middle xs ys a

  pub remove_at-middle : (xs ys : List A) (a : A) → remove_at (length xs) (xs ++ a ∷ ys) ≡ xs ++ ys
  unfolding remove_at
  remove_at-middle [] ys a = refl
  remove_at-middle (x ∷ xs) ys a = ap (◌∷◌ x) (remove_at-middle xs ys a)

  pub length-reverse : (xs : List A) → length (reverse xs) ≡ length xs
  length-reverse [] = refl
  length-reverse (x ∷ xs) =
      omega (
        arith,
        ap length (reverse-cons x xs),
        length-append (reverse xs) (x ∷ []),
        length-reverse xs,
      )

  pub reverse-cons-append : (x : A) (xs ys : List A) → reverse (x ∷ xs) ++ ys ≡ reverse xs ++ x ∷ ys
  reverse-cons-append x xs ys = rw reverse-cons (append_assoc (reverse xs) (x ∷ []) ys)

  -- The elements that fail, or pass, a test.
  module _ {κ} {P : A → Type κ} (dec : (a : A) → Dec (P a)) where
    unfoldable pub reject : List A → List A
    reject [] = []
    reject (x ∷ xs) = ite (dec x) (reject xs) (x ∷ reject xs)

    unfoldable pub select : List A → List A
    select [] = []
    select (x ∷ xs) = ite (dec x) (x ∷ select xs) (select xs)

    pub reject-append : (xs ys : List A) → reject (xs ++ ys) ≡ reject xs ++ reject ys
    unfolding reject
    reject-append [] ys = refl
    reject-append (x ∷ xs) ys = ground (arith, reject-append xs ys)

    pub select-append : (xs ys : List A) → select (xs ++ ys) ≡ select xs ++ select ys
    unfolding select
    select-append [] ys = refl
    select-append (x ∷ xs) ys = ground (arith, select-append xs ys)

module _ {ℓ} {A : Type ℓ} where
  pub drop_of_length-le : (n : ℕ) (xs : List A) → length xs ≤ n → drop n xs ≡ []
  drop_of_length-le zero [] h = refl
  drop_of_length-le zero (x ∷ xs) h = absurd (omega arith)
  drop_of_length-le (suc n) [] h = refl
  drop_of_length-le (suc n) (x ∷ xs) h = drop_of_length-le n xs (omega arith)

  pub take_of_length-le : (n : ℕ) (xs : List A) → length xs ≤ n → take n xs ≡ xs
  take_of_length-le n xs h =
      sym (append-nil (take n xs))
      ∙ ap (λ zs. take n xs ++ zs) (sym (drop_of_length-le n xs h))
      ∙ take-append-drop n xs

  pub take-length-append : (xs ys : List A) → take (length xs) (xs ++ ys) ≡ xs
  take-length-append [] ys = refl
  take-length-append (x ∷ xs) ys = ap (◌∷◌ x) (take-length-append xs ys)
