-- ===== src/Net/Filter/Vlan.antt =====
-- The VLAN filter is the set of the ids that were added last, and is on as long as there is one.
use ravenna_fpga_drivers.Common.{
  ℕ, zero, suc, ◌+◌, ◌*◌, ◌/◌, ◌%◌, ◌<◌, ◌≤◌, ◌≡◌, refl, ap, ◌∙◌, subst, fun_ext, Bool, true, false,
  List, [], ◌∷◌, arith, ◌==◌, if◌then◌else◌, Bool-cases, inl, inr, ==_iff,
}
use ravenna_fpga_drivers.Kernel.{Bitmap}
use ravenna_fpga_drivers.Net.Filter.{
  Mac, write_vid, vlan_rx_add_vid, any_from, is_set, vlan_words, vlan_rx_kill_vid,
}

-- The bit of a VLAN id.
abbrev pub accepts : Mac → ℕ → Bool
accepts mac v = mac.vlan (v / 32) (v % 32)

accepts-write_vid :
    (mac : Mac) (vid : ℕ) (on : Bool) (v : ℕ)
    → accepts (write_vid mac vid on) v ≡ (if vid == v then on else accepts mac v)
unfolding write_vid
accepts-write_vid mac vid on v = elim (Bool-cases (vid == v)) [
  | inl e ↦
      let same : vid ≡ v = (==_iff vid v).0 e in
      let word : (vid / 32 == v / 32) ≡ true = ground arith in
      let bit : (vid % 32 == v % 32) ≡ true = ground arith in rw (e, word, bit) refl
  | inr e ↦ rw e (elim (Bool-cases (vid / 32 == v / 32)) [
    | inr other ↦ rw other refl
    | inl word ↦
        let same : vid / 32 ≡ v / 32 = (==_iff (vid / 32) (v / 32)).0 word in
        let bit : (vid % 32 == v % 32) ≡ false = ground arith in
        rw (word, bit) (ap (λ w. mac.vlan w (v % 32)) same)
  ])
]

any_from-true :
    (p : Bitmap) (i n : ℕ) → any_from p i n ≡ true → (k : ℕ) × (k < i + n) × (p k ≡ true)
unfolding any_from
any_from-true p i zero h = absurd (ground arith)
any_from-true p i (suc n) h = elim (Bool-cases (p i)) [
  | inl e ↦ (i, omega arith, e)
  | inr e ↦ let (k, lt, e') = any_from-true p (suc i) n (ground arith) in (k, omega arith, e')
]

any_from-false : (p : Bitmap) (i n k : ℕ) → any_from p i n ≡ false → i ≤ k → k < i + n → p k ≡ false
unfolding any_from
any_from-false p i zero k h le lt = absurd (omega arith)
any_from-false p i (suc n) k h le lt = elim (Bool-cases (i == k)) [
  | inl e ↦ let e' : i ≡ k = (==_iff i k).0 e in subst (λ j. p j ≡ false) e' (ground arith)
  | inr e ↦ any_from-false p (suc i) n k (ground arith) (ground arith) (omega arith)
]

-- The filter is on and lets some id in, or it is off and has none.
pub data IsExact (mac : Mac) : Type 0 where
  filtering : (v : ℕ) → v < 4096 → accepts mac v ≡ true → mac.vlan_en ≡ true → IsExact mac
  off : ((v : ℕ) → v < 4096 → accepts mac v ≡ false) → mac.vlan_en ≡ false → IsExact mac

add-IsExact : (mac : Mac) (vid : ℕ) → vid < 4096 → IsExact (vlan_rx_add_vid mac vid)
unfolding vlan_rx_add_vid
add-IsExact mac vid h =
    let e : (vid == vid) ≡ true = ground arith in
    filtering vid h (accepts-write_vid mac vid true vid ∙ rw e refl) refl

accepts_word : (mac : Mac) (i b : ℕ) → b < 32 → accepts mac (i * 32 + b) ≡ mac.vlan i b
accepts_word mac i b h =
    ap (λ w. mac.vlan w ((i * 32 + b) % 32)) {x = (i * 32 + b) / 32} {y = i} (omega arith)
    ∙ ap (mac.vlan i) {x = (i * 32 + b) % 32} {y = b} (omega arith)

-- A word that is not zero has the bit of an id.
some_id :
    (mac : Mac)
    → any_from (λ i. is_set (mac.vlan i)) 0 vlan_words ≡ true
    → (v : ℕ) × (v < 4096) × (accepts mac v ≡ true)
some_id mac h =
    let (i, few, set) = any_from-true (λ i. is_set (mac.vlan i)) 0 vlan_words h in
    let (b, low, on) = any_from-true (mac.vlan i) 0 32 set in
    (i * 32 + b, omega arith, accepts_word mac i b low ∙ on)

no_id :
    (mac : Mac) (v : ℕ)
    → any_from (λ i. is_set (mac.vlan i)) 0 vlan_words ≡ false
    → v < 4096
    → accepts mac v ≡ false
no_id mac v h lt =
    any_from-false (mac.vlan (v / 32)) 0 32 (v % 32)
      (any_from-false (λ i. is_set (mac.vlan i)) 0 vlan_words (v / 32) h (omega arith)
        (omega arith))
      (omega arith) (omega arith)

was_on :
    (mac : Mac) (vid v : ℕ)
    → IsExact mac
    → v < 4096
    → accepts (write_vid mac vid false) v ≡ true
    → mac.vlan_en ≡ true
was_on mac vid v (filtering _ _ _ on) lt h = on
was_on mac vid v (off clear _) lt h =
    let e : accepts mac v ≡ false = clear v lt in
    absurd (ground (arith, accepts-write_vid mac vid false v))

vlan_en-write_vid : (mac : Mac) (vid : ℕ) (on : Bool) → (write_vid mac vid on).vlan_en ≡ mac.vlan_en
unfolding write_vid
vlan_en-write_vid mac vid on = refl

kill-IsExact : (mac : Mac) (vid : ℕ) → IsExact mac → IsExact (vlan_rx_kill_vid mac vid)
unfolding vlan_rx_kill_vid
kill-IsExact mac vid exact =
    let mac' = write_vid mac vid false in
    elim (Bool-cases (any_from (λ i. is_set (mac'.vlan i)) 0 vlan_words)) [
      | inl some ↦
          let (v, lt, e) = some_id mac' some in
          rw some (filtering v lt e (vlan_en-write_vid mac vid false ∙ was_on mac vid v exact lt e))
      | inr none ↦ rw none (off (λ v lt. no_id mac' v none lt) refl)
    ]

pub data VlanCall : Type 0 where
  add kill : ℕ → VlanCall

abbrev pub vid_of : VlanCall → ℕ
vid_of (add vid) = vid
vid_of (kill vid) = vid

pub vlan_call : Mac → VlanCall → Mac
vlan_call mac (add vid) = vlan_rx_add_vid mac vid
vlan_call mac (kill vid) = vlan_rx_kill_vid mac vid

pub vlan_calls : Mac → List VlanCall → Mac
vlan_calls mac [] = mac
vlan_calls mac (c ∷ cs) = vlan_calls (vlan_call mac c) cs

-- The ids are below 4096.
abbrev pub AllVids : List VlanCall → Type 0
AllVids [] = Unit {0}
AllVids (c ∷ cs) = (vid_of c < 4096) × AllVids cs

-- The set of ids after some calls.
abbrev pub with_call : (ℕ → Bool) → VlanCall → ℕ → Bool
with_call ids (add vid) v = if vid == v then true else ids v
with_call ids (kill vid) v = if vid == v then false else ids v

abbrev pub with_calls : (ℕ → Bool) → List VlanCall → ℕ → Bool
with_calls ids [] = ids
with_calls ids (c ∷ cs) = with_calls (with_call ids c) cs

accepts-vlan_call :
    (mac : Mac) (c : VlanCall) → accepts (vlan_call mac c) ≡ with_call (accepts mac) c
unfolding vlan_call vlan_rx_add_vid vlan_rx_kill_vid
accepts-vlan_call mac (add vid) = fun_ext λ v. accepts-write_vid mac vid true v
accepts-vlan_call mac (kill vid) = fun_ext λ v.
    elim (Bool-cases (any_from (λ i. is_set ((write_vid mac vid false).vlan i)) 0 vlan_words)) [
      | inl e ↦ rw e (accepts-write_vid mac vid false v)
      | inr e ↦ rw e (accepts-write_vid mac vid false v)
    ]

vlan_call-IsExact :
    (mac : Mac) (c : VlanCall) → vid_of c < 4096 → IsExact mac → IsExact (vlan_call mac c)
unfolding vlan_call
vlan_call-IsExact mac (add vid) h exact = add-IsExact mac vid h
vlan_call-IsExact mac (kill vid) h exact = kill-IsExact mac vid exact

-- After any calls that add and delete VLAN ids below 4096, from a filter that is exact, the bits of the
-- filter are the set of ids that these calls leave, and the filter is on exactly if it has an id.
pub vlan_calls-Filters :
    (mac : Mac) (cs : List VlanCall)
    → AllVids cs
    → IsExact mac
    → (accepts (vlan_calls mac cs) ≡ with_calls (accepts mac) cs) × IsExact (vlan_calls mac cs)
unfolding vlan_calls
vlan_calls-Filters mac [] h exact = (refl, exact)
vlan_calls-Filters mac (c ∷ cs) h exact =
    let (e, exact') =
      vlan_calls-Filters (vlan_call mac c) cs h.1 (vlan_call-IsExact mac c h.0 exact) in
    (e ∙ ap (λ ids. with_calls ids cs) (accepts-vlan_call mac c), exact')
