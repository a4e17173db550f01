-- ===== src/Base/Keyed.antt =====
-- Tables under a unique key that is no number: what a query by the key finds, and the row that is
-- changed if it is there and added otherwise.
use mathlib.Core.Path.{◌≡◌, refl}
use mathlib.Core.Bool.{Bool, true, false}
use mathlib.Core.Option.{Option, none, some}
use mathlib.Core.Logic.{◌↔◌, inl, inr}
use mathlib.Core.List.{List, [], ◌∷◌}
use package.procore_intake_bridge.Base.Tests.{if◌then◌else◌, Bool-cases}

module _ {ℓ κ} {A : Type ℓ} {K : Type κ} (key : A → K) (same : K → K → Bool) where
  unfoldable pub find_by : K → List A → Option A
  find_by k [] = none
  find_by k (r ∷ rs) = if same (key r) k then some r else find_by k rs

  unfoldable pub write_by : K → (Option A → A) → List A → List A
  write_by k f [] = f none ∷ []
  write_by k f (r ∷ rs) =
      let rest = write_by k f rs in if same (key r) k then f (some r) ∷ rs else r ∷ rest

  module _ (same_iff : (a b : K) → (same a b ≡ true) ↔ (a ≡ b)) where
    same_refl : (k : K) → same k k ≡ true
    same_refl k = (same_iff k k).1 refl

    -- What is found under the key of the write.
    pub find_by-write_by_same :
        (k : K) (f : Option A → A) (rs : List A)
        → ((o : Option A) → key (f o) ≡ k)
        → find_by k (write_by k f rs) ≡ some (f (find_by k rs))
    unfolding find_by write_by
    find_by-write_by_same k f [] keeps = rw (keeps none, same_refl k) refl
    find_by-write_by_same k f (r ∷ rs) keeps = elim (Bool-cases (same (key r) k)) [
      | inl own ↦ rw (own, keeps (some r), same_refl k) refl
      | inr not_own ↦ rw (not_own, not_own) (find_by-write_by_same k f rs keeps)
    ]

    other_key : (k j x : K) → same k j ≡ false → same x k ≡ true → same x j ≡ false
    other_key k j x h own = rw ((same_iff x k).0 own) h

    -- What is found under another key.
    pub find_by-write_by_other :
        (k j : K) (f : Option A → A) (rs : List A)
        → ((o : Option A) → key (f o) ≡ k)
        → same k j ≡ false
        → find_by j (write_by k f rs) ≡ find_by j rs
    unfolding find_by write_by
    find_by-write_by_other k j f [] keeps h = rw (keeps none, h) refl
    find_by-write_by_other k j f (r ∷ rs) keeps h = elim (Bool-cases (same (key r) k)) [
      | inl own ↦ rw (own, keeps (some r), h, other_key k j (key r) h own) refl
      | inr not_own ↦ elim (Bool-cases (same (key r) j)) [
        | inl there ↦ rw (not_own, there) refl
        | inr elsewhere ↦ rw (not_own, elsewhere) (find_by-write_by_other k j f rs keeps h)
      ]
    ]
