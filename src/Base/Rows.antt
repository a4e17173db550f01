-- ===== src/Base/Rows.antt =====
-- A table is the list of its rows in the order of the primary key, a number. `find_row` is
-- `session.get`, and `update_row` writes the changed attributes of the row of a key.
use Prim.Native.Nat.{ℕ}
use mathlib.Core.Path.{◌≡◌, refl, ◌∙◌, subst}
use mathlib.Core.Logic.{inl, inr}
use mathlib.Core.Option
use mathlib.Core.Bool.{Bool, true, false}
use package.procore_intake_bridge.Base.Lists.{All}
use mathlib.Core.Option.{Option, none, some, some-injective}
use mathlib.Core.List.{List, [], ◌∷◌, ◌++◌}
use native.Mathlib.Omega.{arith}
use package.procore_intake_bridge.Base.Tests.{◌==◌, if◌then◌else◌, Bool-cases}

module _ {ℓ} {A : Type ℓ} (key : A → ℕ) where
  unfoldable pub find_row : ℕ → List A → Option A
  find_row i [] = none
  find_row i (r ∷ rs) = if key r == i then some r else find_row i rs

  unfoldable pub update_row : ℕ → (A → A) → List A → List A
  update_row i f [] = []
  update_row i f (r ∷ rs) = if key r == i then f r ∷ rs else r ∷ update_row i f rs

  -- A row found under a key has that key.
  pub key-find_row : (i : ℕ) (rs : List A) (r : A) → find_row i rs ≡ some r → key r ≡ i
  unfolding find_row
  key-find_row i [] r h = ground arith
  key-find_row i (x ∷ rs) r h = ground (arith, key-find_row i rs r)

  -- Whether a key has a row.
  abbrev pub has_row : ℕ → List A → Bool
  has_row i rs = elim (find_row i rs) [ none ↦ false | some r ↦ true ]

  pub has_row-update_row :
      (f : A → A)
      → ((r : A) → key (f r) ≡ key r)
      → (i j : ℕ) (rs : List A) → has_row i (update_row j f rs) ≡ has_row i rs
  unfolding find_row update_row
  has_row-update_row f keeps i j [] = refl
  has_row-update_row f keeps i j (r ∷ rs) =
      ground (arith, keeps r, has_row-update_row f keeps i j rs)

  has_row-cons :
      (r x : A) (rs : List A) → has_row (key r) rs ≡ true → has_row (key r) (x ∷ rs) ≡ true
  unfolding find_row
  has_row-cons r x rs h = ground arith

  has_row_head : (r : A) (rs : List A) → has_row (key r) (r ∷ rs) ≡ true
  unfolding find_row
  has_row_head r rs = ground arith

  All-has_row-cons :
      (x : A) (rs ys : List A)
      → All (λ r. has_row (key r) rs ≡ true) ys
      → All (λ r. has_row (key r) (x ∷ rs) ≡ true) ys
  All-has_row-cons x rs [] h = tt
  All-has_row-cons x rs (y ∷ ys) h = (has_row-cons y x rs h.0, All-has_row-cons x rs ys h.1)

  -- Every row of a table is under its key.
  pub All-has_row : (rs : List A) → All (λ r. has_row (key r) rs ≡ true) rs
  All-has_row [] = tt
  All-has_row (r ∷ rs) = (has_row_head r rs, All-has_row-cons r rs rs (All-has_row rs))

  pub has_row-find_row :
      (i : ℕ) (rs : List A) → has_row i rs ≡ true → (r : A) × (find_row i rs ≡ some r)
  has_row-find_row i rs h = ground arith

  -- What is read after an update that leaves keys alone.
  pub find_row-update_row :
      (f : A → A)
      → ((r : A) → key (f r) ≡ key r)
      → (i j : ℕ) (rs : List A)
      → find_row i (update_row j f rs)
        ≡ (if i == j then Option.map f (find_row i rs) else find_row i rs)
  unfolding find_row update_row
  find_row-update_row f keeps i j [] = ground arith
  find_row-update_row f keeps i j (r ∷ rs) =
      ground (arith, keeps r, find_row-update_row f keeps i j rs)

  -- The updated row, where there is one.
  pub find_row-update_row_self :
      (f : A → A)
      → ((r : A) → key (f r) ≡ key r)
      → (i : ℕ) (rs : List A) (r : A) → find_row i rs ≡ some r
      → find_row i (update_row i f rs) ≡ some (f r)
  unfolding find_row update_row
  find_row-update_row_self f keeps i [] r h = ground arith
  find_row-update_row_self f keeps i (x ∷ rs) r h =
      ground (arith, keeps x, find_row-update_row_self f keeps i rs r)

  -- Two updates of one row are one.
  pub update_row-update_row :
      (f g : A → A)
      → ((r : A) → key (f r) ≡ key r)
      → (i : ℕ) (rs : List A) → update_row i g (update_row i f rs) ≡ update_row i (λ r. g (f r)) rs
  unfolding update_row
  update_row-update_row f g keeps i [] = refl
  update_row-update_row f g keeps i (x ∷ rs) =
      ground (arith, keeps x, update_row-update_row f g keeps i rs)

  pub update_row_thrice :
      (f g h : A → A)
      → ((r : A) → key (f r) ≡ key r)
      → ((r : A) → key (g r) ≡ key r)
      → (i : ℕ) (rs : List A)
      → update_row i h (update_row i g (update_row i f rs)) ≡ update_row i (λ r. h (g (f r))) rs
  update_row_thrice f g h keeps_f keeps_g i rs =
      update_row-update_row g h keeps_g i (update_row i f rs)
      ∙ update_row-update_row f (λ r. h (g r)) keeps_f i rs

  -- A row that is added under a new key is found under it.
  pub find_row-append_new :
      (i : ℕ) (rs : List A) (r : A)
      → find_row i rs ≡ none
      → key r ≡ i
      → find_row i (rs ++ (r ∷ [])) ≡ some r
  unfolding find_row
  find_row-append_new i [] r h k = ground arith
  find_row-append_new i (x ∷ rs) r h k = ground (arith, find_row-append_new i rs r)

  -- What holds of every row holds of one that is found.
  pub All-find_row {κ} :
      (P : A → Type κ) (i : ℕ) (rs : List A) (x : A) → All P rs → find_row i rs ≡ some x → P x
  unfolding find_row
  All-find_row P i [] x h found = cc found
  All-find_row P i (r ∷ rs) x h found = elim (Bool-cases (key r == i)) [
    | inl own ↦ subst P (some-injective _ _ (rw own at found)) h.0
    | inr not_own ↦ All-find_row P i rs x h.1 (rw not_own at found)
  ]
