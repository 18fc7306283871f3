-- ===== src/StreamDevice/Tests/FirstFit.antt =====
-- A concrete `Kernel`: first fit, the lowest free index, and a little-endian CPU.
use ravenna_fpga_drivers.Common.{
  ℕ, zero, suc, ◌+◌, ◌*◌, ◌/◌, ◌%◌, ◌^◌, ◌≤◌, ◌<◌, ◌≡◌, ◌↔◌, Bool, true, false, not, ◌&&◌, arith,
  leb, if◌then◌else◌, Bool-cases, inl, inr, refl, subst, ap, ◌==◌, ==_iff,
}
use ravenna_fpga_drivers.Kernel.{Kernel, Result, ok, err, ebusy, Bitmap, IsClear}

clear_run : Bitmap → ℕ → ℕ → Bool
clear_run m i zero = true
clear_run m i (suc n) = not (m i) && clear_run m (suc i) n

scan : Bitmap → ℕ → ℕ → ℕ → ℕ → ℕ
scan m size nr i zero = size
scan m size nr i (suc fuel) =
    let rest = scan m size nr (suc i) fuel in
    if leb (i + nr) size && clear_run m i nr then i else rest

unfoldable pub first_fit : Bitmap → ℕ → ℕ → ℕ → ℕ
unfolding scan clear_run
first_fit m size start nr = scan m size nr start (suc size)

clear_run_sound : (m : Bitmap) (i n : ℕ) → clear_run m i n ≡ true → IsClear m i n
unfolding clear_run
clear_run_sound m i zero h q lt = absurd (omega arith)
clear_run_sound m i (suc n) h zero lt =
    subst (λ p. m p ≡ false) {x = i} (omega arith) (ground arith)
clear_run_sound m i (suc n) h (suc q) lt =
    subst (λ p. m p ≡ false) {x = suc i + q} (omega arith)
      (clear_run_sound m (suc i) n (ground arith) q (omega arith))

clear_run_complete : (m : Bitmap) (i n : ℕ) → IsClear m i n → clear_run m i n ≡ true
unfolding clear_run
clear_run_complete m i zero h = refl
clear_run_complete m i (suc n) h = ground (arith, first, clear_run_complete m (suc i) n later)
  where
    first : m i ≡ false
    first = subst (λ p. m p ≡ false) {x = i + 0} (omega arith) (h 0 (omega arith))

    later : IsClear m (suc i) n
    later q lt = subst (λ p. m p ≡ false) {x = i + suc q} (omega arith) (h (suc q) (omega arith))

scan_sound :
    (m : Bitmap) (size nr i fuel : ℕ)
    → scan m size nr i fuel < size
    → (scan m size nr i fuel + nr ≤ size) × (clear_run m (scan m size nr i fuel) nr ≡ true)
unfolding scan
scan_sound m size nr i zero h = absurd (omega arith)
scan_sound m size nr i (suc fuel) h = elim (Bool-cases (leb (i + nr) size && clear_run m i nr)) [
  | inl hit ↦ rw hit (ground arith, ground arith)
  | inr miss ↦ rw miss (scan_sound m size nr (suc i) fuel (rw miss at h))
]

not_here :
    (m : Bitmap) (size nr j i : ℕ)
    → i ≤ j
    → j + nr ≤ size
    → clear_run m j nr ≡ true
    → (leb (i + nr) size && clear_run m i nr) ≡ false
    → suc i ≤ j
not_here m size nr j i lo room clear miss = elim (Bool-cases (i == j)) [
  | inl e ↦ absurd (ground (arith, ap (λ (p : ℕ). clear_run m p nr) ((==_iff i j).0 e)))
  | inr e ↦ ground arith
]

scan_finds :
    (m : Bitmap) (size nr j i fuel : ℕ)
    → 0 < nr
    → i ≤ j
    → j < i + fuel
    → j + nr ≤ size
    → clear_run m j nr ≡ true
    → scan m size nr i fuel < size
unfolding scan
scan_finds m size nr j i zero pos lo hi room clear = absurd (omega arith)
scan_finds m size nr j i (suc fuel) pos lo hi room clear =
    elim (Bool-cases (leb (i + nr) size && clear_run m i nr)) [
      | inl hit ↦ rw hit (ground arith)
      | inr miss ↦ rw miss (
          scan_finds m size nr j (suc i) fuel pos (not_here m size nr j i lo room clear miss)
            (omega arith) room clear)
    ]

lowest : (ℕ → Bool) → ℕ → ℕ → Result ℕ
lowest taken i zero = err ebusy
lowest taken i (suc fuel) = let rest = lowest taken (suc i) fuel in if taken i then rest else ok i

unfoldable pub lowest_free : (ℕ → Bool) → ℕ → Result ℕ
unfolding lowest
lowest_free taken max = lowest taken 0 (suc max)

lowest_lem :
    (taken : ℕ → Bool) (i fuel j : ℕ)
    → lowest taken i fuel ≡ ok j
    → (taken j ≡ false) × (j < i + fuel)
unfolding lowest
lowest_lem taken i zero j h = absurd (ground arith)
lowest_lem taken i (suc fuel) j h = elim (Bool-cases (taken i)) [
  | inl used ↦
      let (free, below) = lowest_lem taken (suc i) fuel j (ground arith) in (free, omega arith)
  | inr unused ↦
      let same : i ≡ j = ground arith in (subst (λ p. taken p ≡ false) same unused, omega arith)
]

unfoldable pub swab16 : ℕ → ℕ
swab16 v = v % 256 * 256 + v / 256

unfoldable pub swab32 : ℕ → ℕ
swab32 v = v % 256 * 2 ^ 24 + v / 2 ^ 8 % 256 * 2 ^ 16 + v / 2 ^ 16 % 256 * 2 ^ 8 + v / 2 ^ 24

pub swab16_bound : (v : ℕ) → v < 65536 → swab16 v < 65536
unfolding swab16
swab16_bound v h = omega arith

pub swab32_zero : (v : ℕ) → (swab32 v ≡ 0) ↔ (v ≡ 0)
unfolding swab32
swab32_zero v = (λ h. omega arith, λ h. omega arith)

pub first_fit_fits :
    (m : Bitmap) (size start nr : ℕ)
    → first_fit m size start nr < size
    → first_fit m size start nr + nr ≤ size
unfolding first_fit
first_fit_fits m size start nr h = (scan_sound m size nr start (suc size) h).0

pub first_fit-IsClear :
    (m : Bitmap) (size start nr : ℕ)
    → first_fit m size start nr < size
    → IsClear m (first_fit m size start nr) nr
unfolding first_fit
first_fit-IsClear m size start nr h =
    clear_run_sound m _ nr (scan_sound m size nr start (suc size) h).1

pub first_fit_finds :
    (m : Bitmap) (size start nr i : ℕ)
    → 0 < nr
    → start ≤ i
    → i + nr ≤ size
    → IsClear m i nr
    → first_fit m size start nr < size
unfolding first_fit
first_fit_finds m size start nr i pos lo room clear =
    scan_finds m size nr i start (suc size) pos lo (omega arith) room
      (clear_run_complete m i nr clear)

pub lowest_free_unused :
    (taken : ℕ → Bool) (max i : ℕ) → lowest_free taken max ≡ ok i → taken i ≡ false
unfolding lowest_free
lowest_free_unused taken max i h = (lowest_lem taken 0 (suc max) i h).0

pub lowest_free-le : (taken : ℕ → Bool) (max i : ℕ) → lowest_free taken max ≡ ok i → i ≤ max
unfolding lowest_free
lowest_free-le taken max i h = omega (arith, (lowest_lem taken 0 (suc max) i h).1)

abbrev pub linux : Kernel
linux = record {
  bitmap_find_next_zero_area = first_fit;
  find_fits = first_fit_fits;
  find_clear = first_fit-IsClear;
  find_finds = first_fit_finds;
  xa_alloc = lowest_free;
  xa_alloc_free = lowest_free_unused;
  xa_alloc_limit = lowest_free-le;
  be16_to_cpu = swab16;
  be32_to_cpu = swab32;
  be16_bound = swab16_bound;
  be32_zero = swab32_zero;
}
