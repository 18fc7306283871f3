-- ===== src/StreamDevice/StreamTable.antt =====
-- What stream-table-tx.c and stream-table-rx.c share: a table of entries in the FPGA. `writes` lists
-- the entries written over the bus, the last one first. `none` is a BUG().
use ravenna_fpga_drivers.Common.{
  ℕ, zero, suc, ◌+◌, ◌≤◌, ◌<◌, ◌≡◌, ◌≢◌, ◌∙◌, update_self, update_ne, refl, Option, none, some,
  List, ◌∷◌, ◌>>=◌, arith, ltb, lt→ltb, update, if◌then◌else◌, bit_or, ◌==◌,
}

pub record StreamTable (E : Type 0) : Type 0 where
  pub regs : ℕ → E
  pub max_entries : ℕ
  pub writes : List (ℕ × E)

-- `if (value) m |= bit;`
abbrev pub set_flag : ℕ → ℕ → ℕ → ℕ
set_flag value bit m = if value == 0 then m else bit_or m bit

module _ {E : Type 0} where
  abbrev pub written : StreamTable E → ℕ → E → StreamTable E
  written s index e = record s { regs = update s.regs index e; writes = (index, e) ∷ s.writes }

  pub stream_write : StreamTable E → ℕ → E → Option (StreamTable E)
  stream_write s index e = if ltb index s.max_entries then some (written s index e) else none

  pub stream_read : StreamTable E → ℕ → Option E
  stream_read s index = if ltb index s.max_entries then some (s.regs index) else none

  -- `for (i = 0; i < max_entries; i++)` with the same entry written at each `i`, from `i` on.
  pub write_all : StreamTable E → E → ℕ → ℕ → Option (StreamTable E)
  write_all s e i zero = some s
  write_all s e i (suc left) = do s' ← stream_write s i e; write_all s' e (suc i) left

  pub stream_write_lem :
      (s : StreamTable E) (i : ℕ) (e : E)
      → i < s.max_entries
      → stream_write s i e ≡ some (written s i e)
  unfolding stream_write
  stream_write_lem s i e h = rw (lt→ltb i s.max_entries h)

  pub stream_read_lem :
      (s : StreamTable E) (i : ℕ) → i < s.max_entries → stream_read s i ≡ some (s.regs i)
  unfolding stream_read
  stream_read_lem s i h = rw (lt→ltb i s.max_entries h)

  -- Every entry of the range ends up as `e`, and the table keeps its size.
  pub write_all_lem :
      (s : StreamTable E) (e : E) (i left : ℕ)
      → i + left ≤ s.max_entries
      → (s' : StreamTable E) × (write_all s e i left ≡ some s')
        × (s'.max_entries ≡ s.max_entries)
        × ((j : ℕ) → i ≤ j → j < i + left → s'.regs j ≡ e)
        × ((j : ℕ) → j < i → s'.regs j ≡ s.regs j)
  unfolding write_all
  write_all_lem s e i zero room = (s, refl, refl, λ j lo hi. absurd (omega arith), λ j lt. refl)
  write_all_lem s e i (suc left) room =
      let (s', done, size, inside, below) =
        write_all_lem (written s i e) e (suc i) left (omega arith) in
      (
        s',
        rw (stream_write_lem s i e (omega arith)) done,
        size,
        λ j lo hi. ground (arith, inside j, below j),
        λ j lt. ground (arith, below j),
      )

  -- A table whose entry at one index differs.
  pub record Differs (s s' : StreamTable E) (index : ℕ) (e : E) : Type 0 where
    pub size : s'.max_entries ≡ s.max_entries
    pub here : s'.regs index ≡ e
    pub elsewhere : (j : ℕ) → index ≢ j → s'.regs j ≡ s.regs j

  pub written-Differs :
      (s : StreamTable E) (index : ℕ) (e : E) → Differs s (written s index e) index e
  written-Differs s index e = record {
    size = refl;
    here = update_self s.regs index e;
    elsewhere = λ j ne. update_ne s.regs index e j ne;
  }

  pub Differs-again :
      (s t : StreamTable E) (index : ℕ) (e e' : E)
      → Differs s t index e
      → Differs s (written t index e') index e'
  Differs-again s t index e e' d = record {
    size = d.size;
    here = update_self t.regs index e';
    elsewhere = λ j ne. update_ne t.regs index e' j ne ∙ d.elsewhere j ne;
  }
