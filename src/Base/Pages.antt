-- ===== src/Base/Pages.antt =====
-- Pages of a list, counted from 1: together they are the list.
use Prim.Native.Nat.{ℕ, zero, suc, ◌+◌, ◌-◌, ◌*◌, ◌/◌, ◌≤◌}
use mathlib.Core.Path.{◌≡◌, refl, ap, sym, ◌∙◌}
use mathlib.Core.List.{List, [], ◌∷◌, ◌++◌}
use native.Mathlib.Omega.{arith}
use package.procore_intake_bridge.Base.Lists.{take, drop, length}

suc_plus : (m n : ℕ) → suc (m + n) ≡ suc m + n
suc_plus m n = omega arith

minus_one : (n : ℕ) → suc n - 1 ≡ n
minus_one n = omega arith

times_zero : (n : ℕ) → 0 ≡ 0 * n
times_zero n = omega arith

times_suc : (m n : ℕ) → m * n + n ≡ suc m * n
times_suc m n = grind arith

module _ {ℓ} {A : Type ℓ} where
  -- The pages from 1 to a number, one after the other.
  abbrev pub pages_upto : (ℕ → List A) → ℕ → List A
  pages_upto page zero = []
  pages_upto page (suc n) = pages_upto page n ++ page (suc n)

  pub pages_upto_eq :
      (f g : ℕ → List A)
      → ((n : ℕ) → f (suc n) ≡ g (suc n))
      → (n : ℕ) → pages_upto f n ≡ pages_upto g n
  pages_upto_eq f g h zero = refl
  pages_upto_eq f g h (suc n) = rw (h n, pages_upto_eq f g h n) refl

  take_all : (n : ℕ) (xs : List A) → length xs ≤ n → take n xs ≡ xs
  take_all zero [] h = refl
  take_all zero (x ∷ xs) h = absurd (omega (arith, h))
  take_all (suc n) [] h = refl
  take_all (suc n) (x ∷ xs) h = ap (λ ys. x ∷ ys) (take_all n xs (omega (arith, h)))

  take_nil : (n : ℕ) → ◌≡◌ {A = List A} (take n []) []
  take_nil zero = refl
  take_nil (suc n) = refl

  take-more : (m n : ℕ) (xs : List A) → take m xs ++ take n (drop m xs) ≡ take (m + n) xs
  take-more zero n xs = ap (λ k. take k xs) (omega arith)
  take-more (suc m) zero [] = sym (take_nil (suc m + 0))
  take-more (suc m) (suc n) [] = sym (take_nil (suc m + suc n))
  take-more (suc m) n (x ∷ xs) =
      ap (λ ys. x ∷ ys) (take-more m n xs) ∙ ap (λ k. take k (x ∷ xs)) (suc_plus m n)

  pages_upto-take :
      (size : ℕ) (xs : List A) (n : ℕ)
      → pages_upto (λ page. take size (drop ((page - 1) * size) xs)) n ≡ take (n * size) xs
  pages_upto-take size xs zero = ap (λ k. take k xs) (times_zero size)
  pages_upto-take size xs (suc n) =
      ap (λ ys. ys ++ take size (drop ((suc n - 1) * size) xs)) (pages_upto-take size xs n)
      ∙ ap (λ k. take (n * size) xs ++ take size (drop (k * size) xs)) (minus_one n)
      ∙ take-more (n * size) size xs
      ∙ ap (λ k. take k xs) (times_suc n size)

  -- Enough pages of a size, one after the other, are the whole list.
  pub pages_upto_all :
      (size : ℕ) (xs : List A) (n : ℕ)
      → length xs ≤ n * size
      → pages_upto (λ page. take size (drop ((page - 1) * size) xs)) n ≡ xs
  pages_upto_all size xs n h = pages_upto-take size xs n ∙ take_all (n * size) xs h

-- As many pages as `math.ceil(total / size)` are enough.
pub ceil_enough : (total size : ℕ) → 1 ≤ size → total ≤ (total + (size - 1)) / size * size
ceil_enough total size h = grind arith
