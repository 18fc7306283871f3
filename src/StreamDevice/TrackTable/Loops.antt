-- ===== src/StreamDevice/TrackTable/Loops.antt =====
-- What the loops of track-table.c leave in the registers.
use ravenna_fpga_drivers.Common.{
  ℕ, zero, suc, ◌+◌, ◌-◌, ◌≤◌, ◌<◌, ◌≡◌, sym, ap, fun_ext, ◌∙◌, some, none, get_elem?_past, List, ℤ,
  pos, arith, length, get_or, get_elem?-eq-get_or, update, within, if◌then◌else◌, lt→ltb,
  Bool-cases, leb, ltb, inl, inr, ◌&&◌, ◌==◌, true,
}
use ravenna_fpga_drivers.Kernel.{bitmap_clear}
use ravenna_fpga_drivers.StreamDevice.TrackTable.{
  TrackTable, mute, write, track_entry, set_from, set, mute_from, free, reset,
}

-- The registers with `entry k` at the k-th of `n` indices from `b` on.
abbrev pub filled : (ℕ → ℕ) → ℕ → ℕ → (ℕ → ℕ) → ℕ → ℕ
filled regs b n entry p = if within b n p then entry (p - b) else regs p

-- The entry of a channel of `tracks`.
abbrev pub entry_of : List ℤ → ℕ → ℕ
entry_of tracks i = track_entry (get_or tracks i (pos 0))

write_in :
    (t : TrackTable) (i v : ℕ)
    → i < t.max_entries
    → write t i v ≡ some (record t { regs = update t.regs i v })
unfolding write
write_in t i v h = rw (lt→ltb i t.max_entries h)

abbrev rest : (ℕ → ℕ) → ℕ → ℕ → ℕ → (ℕ → ℕ) → ℕ → ℕ
rest regs index i left entry p =
    if leb (index + i) p && ltb p (index + i + left) then entry (p - index) else regs p

rest_zero : (regs : ℕ → ℕ) (index i : ℕ) (entry : ℕ → ℕ) → rest regs index i 0 entry ≡ regs
rest_zero regs index i entry = fun_ext (λ p. ground arith)

rest-suc :
    (regs : ℕ → ℕ) (index i left : ℕ) (entry : ℕ → ℕ)
    → rest (update regs (index + i) (entry i)) index (suc i) left entry
      ≡ rest regs index i (suc left) entry
rest-suc regs index i left entry = fun_ext (λ p. elim (Bool-cases (index + i == p)) [
  | inl e ↦ ground (arith, ap entry (here p e))
  | inr e ↦ ground arith
])
  where
    here : (p : ℕ) → (index + i == p) ≡ true → p - index ≡ i
    here p e = ground arith

set_from_lem :
    (t : TrackTable) (index i left : ℕ) (tracks : List ℤ)
    → index + i + left ≤ t.max_entries
    → i + left ≤ length tracks
    → set_from t index i left tracks
      ≡ some (record t { regs = rest t.regs index i left (entry_of tracks) })
unfolding set_from
set_from_lem t index i zero tracks room long =
    ap (λ (r : ℕ → ℕ). some (record t { regs = r }))
      (sym (rest_zero t.regs index i (entry_of tracks)))
set_from_lem t index i (suc left) tracks room long =
    rw
      (
        get_elem?-eq-get_or tracks i (pos 0) (omega arith),
        write_in t (index + i) (entry_of tracks i) (omega arith),
      )
      (set_from_lem (record t { regs = update t.regs (index + i) (entry_of tracks i) }) index
          (suc i) left tracks (omega arith) (omega arith)
        ∙ ap (λ (r : ℕ → ℕ). some (record t { regs = r }))
            (rest-suc t.regs index i left (entry_of tracks)))

mute_from_lem :
    (t : TrackTable) (index i left : ℕ)
    → index + i + left ≤ t.max_entries
    → mute_from t index i left ≡ some (record t { regs = rest t.regs index i left (λ _. mute) })
unfolding mute_from
mute_from_lem t index i zero room =
    ap (λ (r : ℕ → ℕ). some (record t { regs = r })) (sym (rest_zero t.regs index i (λ _. mute)))
mute_from_lem t index i (suc left) room = rw (write_in t (index + i) mute (omega arith)) (
    mute_from_lem (record t { regs = update t.regs (index + i) mute }) index (suc i) left
      (omega arith)
    ∙ ap (λ (r : ℕ → ℕ). some (record t { regs = r })) (rest-suc t.regs index i left (λ _. mute)))

rest_start :
    (regs : ℕ → ℕ) (index n : ℕ) (entry : ℕ → ℕ)
    → rest regs index 0 n entry ≡ filled regs index n entry
rest_start regs index n entry = fun_ext (λ p. ground arith)

pub set_lem :
    (t : TrackTable) (index n : ℕ) (tracks : List ℤ)
    → index + n ≤ t.max_entries
    → n ≤ length tracks
    → set t index n tracks ≡ some (record t { regs = filled t.regs index n (entry_of tracks) })
unfolding set
set_lem t index n tracks room long =
    set_from_lem t index 0 n tracks (omega arith) (omega arith)
    ∙ ap (λ (r : ℕ → ℕ). some (record t { regs = r })) (rest_start t.regs index n (entry_of tracks))

pub free_lem :
    (t : TrackTable) (index n : ℕ)
    → index + n ≤ t.max_entries
    → free t index n
      ≡ some (record t {
        regs = filled t.regs index n (λ _. mute);
        used_entries = bitmap_clear t.used_entries index n;
      })
unfolding free
free_lem t index n room =
    rw (mute_from_lem t index 0 n (omega arith), rest_start t.regs index n (λ _. mute))

pub reset_lem :
    (t : TrackTable)
    → reset t
      ≡ some (record t {
        regs = filled t.regs 0 t.max_entries (λ _. mute);
        used_entries = bitmap_clear t.used_entries 0 t.max_entries;
      })
unfolding reset
reset_lem t =
    rw (
      mute_from_lem t 0 0 t.max_entries (omega arith),
      rest_start t.regs 0 t.max_entries (λ _. mute),
    )

set_from_overrun :
    (t : TrackTable) (index i left : ℕ) (tracks : List ℤ)
    → i ≤ length tracks
    → length tracks < i + left
    → set_from t index i left tracks ≡ none
unfolding set_from write
set_from_overrun t index i zero tracks inside over = absurd (omega arith)
set_from_overrun t index i (suc left) tracks inside over =
    elim (Bool-cases (ltb i (length tracks))) [
      | inr end ↦ rw (get_elem?_past tracks i (ground arith))
      | inl more ↦
          rw (get_elem?-eq-get_or tracks i (pos 0) (ground arith))
            (elim (Bool-cases (ltb (index + i) t.max_entries)) [
              | inr bug ↦ rw bug
              | inl ok ↦ rw ok (
                  set_from_overrun
                    (record t { regs = update t.regs (index + i) (entry_of tracks i) }) index
                    (suc i) left tracks (ground arith) (omega arith))
            ])
    ]

-- With more channels than tracks the loop leaves the array, unless it meets the BUG() before.
pub set_overrun :
    (t : TrackTable) (index n : ℕ) (tracks : List ℤ)
    → length tracks < n
    → set t index n tracks ≡ none
unfolding set
set_overrun t index n tracks over = set_from_overrun t index 0 n tracks (omega arith) (omega arith)
