-- ===== src/Kernel.antt =====
-- What the drivers use of the Linux kernel. Data structures whose calls have one possible outcome
-- are maps; the calls whose outcome the kernel chooses are parameters.
use ravenna_fpga_drivers.Common.{
  ℕ, ◌+◌, ◌≤◌, ◌<◌, ◌≡◌, refl, ◌↔◌, ◌⊎◌, inl, inr, Bool, true, false, within, if◌then◌else◌,
}

-- The error numbers that the modelled functions return, negated in C; `number` is any other negative
-- result, by its magnitude.
pub data Errno : Type 0 where
  einval efault enomem enospc enoent eacces ebusy enotty etimedout eintr eopnotsupp eio
        eaddrnotavail :
      Errno
  number : ℕ → Errno

-- An `int` result: a number, or a negative error number.
pub data Result (A : Type 0) : Type 0 where
  ok : A → Result A
  err : Errno → Result A

infixl 5 ◌>>=◌
abbrev pub ◌>>=◌ : {A B : Type 0} → Result A → (A → Result B) → Result B
ok a >>= f = f a
err e >>= f = err e

infixl 5 ◌>>◌
abbrev pub ◌>>◌ : {B : Type 0} → Result (Unit {0}) → Result B → Result B
m >> k = m >>= λ _. k

-- `if (!test) return -e;`
abbrev pub require : Bool → Errno → Result (Unit {0})
require true e = ok tt
require false e = err e

abbrev pub Bitmap : Type 0
Bitmap = ℕ → Bool

abbrev pub bitmap_set : Bitmap → ℕ → ℕ → Bitmap
bitmap_set m start n p = if within start n p then true else m p

abbrev pub bitmap_clear : Bitmap → ℕ → ℕ → Bitmap
bitmap_clear m start n p = if within start n p then false else m p

-- The n bits from `start` on are clear.
abbrev pub IsClear : Bitmap → ℕ → ℕ → Type 0
IsClear m start n = (k : ℕ) → k < n → m (start + k) ≡ false

-- The index below `size` that `bitmap_find_next_zero_area(map, size, start, nr, 0)` returns, and a
-- value of at least `size` where there is none; the index that `xa_alloc` picks up to a limit,
-- given which are taken; and the byte order conversions.
pub record Kernel : Type 0 where
  pub bitmap_find_next_zero_area : Bitmap → ℕ → ℕ → ℕ → ℕ
  pub find_fits :
      (m : Bitmap) (size start nr : ℕ)
      → bitmap_find_next_zero_area m size start nr < size
      → bitmap_find_next_zero_area m size start nr + nr ≤ size
  pub find_clear :
      (m : Bitmap) (size start nr : ℕ)
      → bitmap_find_next_zero_area m size start nr < size
      → IsClear m (bitmap_find_next_zero_area m size start nr) nr
  pub find_finds :
      (m : Bitmap) (size start nr i : ℕ)
      → 0 < nr
      → start ≤ i
      → i + nr ≤ size
      → IsClear m i nr
      → bitmap_find_next_zero_area m size start nr < size
  pub xa_alloc : (ℕ → Bool) → ℕ → Result ℕ
  pub xa_alloc_free : (taken : ℕ → Bool) (max i : ℕ) → xa_alloc taken max ≡ ok i → taken i ≡ false
  pub xa_alloc_limit : (taken : ℕ → Bool) (max i : ℕ) → xa_alloc taken max ≡ ok i → i ≤ max
  pub be16_to_cpu : ℕ → ℕ
  pub be32_to_cpu : ℕ → ℕ
  pub be16_bound : (v : ℕ) → v < 65536 → be16_to_cpu v < 65536
  pub be32_zero : (v : ℕ) → (be32_to_cpu v ≡ 0) ↔ (v ≡ 0)

pub Result-cases :
    {A : Type 0} (r : Result A) → ((e : Errno) × (r ≡ err e)) ⊎ ((a : A) × (r ≡ ok a))
Result-cases (ok a) = inr (a, refl)
Result-cases (err e) = inl (e, refl)
