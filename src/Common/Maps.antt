-- ===== src/Common/Maps.antt =====
-- Registers, bitmaps and sparse arrays as functions of an index.
use Prim.Native.Nat.{ℕ, ◌+◌, ◌≤◌, ◌<◌}
use mathlib.Core.Path.{◌≡◌, refl, sym, ap, fun_ext, ◌∙◌}
use mathlib.Core.Logic.{◌≢◌, ◌⊎◌, inl, inr}
use mathlib.Core.Option.{Option, none, some}
use mathlib.Core.Bool.{Bool, true, false, ◌&&◌}
use native.Mathlib.Omega.{arith}
use ravenna_fpga_drivers.Common.Tests.{◌==◌, leb, ltb, if◌then◌else◌, Bool-cases, ==_iff}

-- The map after a write at one index.
abbrev pub update {ℓ} : {A : Type ℓ} → (ℕ → A) → ℕ → A → ℕ → A
update f i v j = if i == j then v else f j

-- The map after a write of `v k` at the k-th of `n` indices from `b` on.
abbrev pub within : ℕ → ℕ → ℕ → Bool
within b n p = leb b p && ltb p (b + n)

abbrev pub InRange : ℕ → ℕ → ℕ → Type 0
InRange b n p = (b ≤ p) × (p < b + n)

module _ {ℓ} {A : Type ℓ} where
  pub update_self : (f : ℕ → A) (i : ℕ) (v : A) → update f i v i ≡ v
  update_self f i v = ground arith

  pub update_ne : (f : ℕ → A) (i : ℕ) (v : A) (j : ℕ) → i ≢ j → update f i v j ≡ f j
  update_ne f i v j h = ground arith

  pub update-eq-some :
      (f : ℕ → Option A) (i : ℕ) (v : A) (j : ℕ) {x : A}
      → update f i (some v) j ≡ some x
      → ((i ≡ j) × (v ≡ x)) ⊎ ((i ≢ j) × (f j ≡ some x))
  update-eq-some f i v j h = elim (Bool-cases (i == j)) [
    | inl e ↦ inl (ground arith)
    | inr e ↦ inr (ground arith)
  ]

  pub update-none-eq-some :
      (f : ℕ → Option A) (i j : ℕ) {x : A} → update f i none j ≡ some x → (i ≢ j) × (f j ≡ some x)
  update-none-eq-some f i j h = ground arith

  pub update-update : (f : ℕ → A) (i : ℕ) (v w : A) → update (update f i v) i w ≡ update f i w
  update-update f i v w = fun_ext λ j. again (i == j) j
    where
      again :
          (b : Bool) (j : ℕ) → (if b then w else (if b then v else f j)) ≡ (if b then w else f j)
      again true j = refl
      again false j = refl

  pub update_same : (f : ℕ → A) (i : ℕ) (v : A) → f i ≡ v → update f i v ≡ f
  update_same f i v h = fun_ext λ j. elim (Bool-cases (i == j)) [
    | inl e ↦ rw e (sym h ∙ ap f ((==_iff i j).0 e))
    | inr e ↦ rw e
  ]

-- A function of the values commutes with a write.
pub update_map {ℓ κ} :
    {A : Type ℓ} {B : Type κ} (g : A → B) (f : ℕ → A) (i : ℕ) (v : A)
    → update (λ j. g (f j)) i (g v) ≡ (λ j. g (update f i v j))
update_map g f i v = fun_ext λ j. at (i == j) j
  where
    at : (b : Bool) (j : ℕ) → (if b then g v else g (f j)) ≡ g (if b then v else f j)
    at true j = refl
    at false j = refl
