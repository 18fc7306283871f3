-- ===== src/Net/Poll/Delivers.antt =====
-- What a poll takes from the FIFO, and what it hands on.
use ravenna_fpga_drivers.Common.{ℕ, ◌+◌, ◌%◌, ◌^◌, ◌≡◌, Bool, false, List, [], ◌∷◌, ◌++◌, length}
use ravenna_fpga_drivers.Net.Hwtstamp.{Stamping}
use ravenna_fpga_drivers.Net.Poll.Fifo.{Packet, Holds, Matches}
use ravenna_fpga_drivers.Net.Poll.{Received, Reception}

abbrev pub AllMatch : Stamping → List Received → List Packet → Type 0
AllMatch c [] [] = Unit {0}
AllMatch c (skb ∷ skbs) (p ∷ ps) = Matches c skb p × AllMatch c skbs ps
AllMatch c _ _ = ⊥

-- Why a poll ends.
pub data Ends (has_memory : ℕ → Bool) (count budget : ℕ) (rest : List Packet) (errors errors' : ℕ)
    : Type 0 where
  by_budget : count ≡ budget → errors' ≡ errors → Ends has_memory count budget rest errors errors'
  by_no_packet : rest ≡ [] → errors' ≡ errors → Ends has_memory count budget rest errors errors'
  by_no_memory :
      has_memory count ≡ false
      → errors' ≡ (errors + 1) % 2 ^ 64
      → Ends has_memory count budget rest errors errors'

-- What the loop does with `left` rounds.
pub record Loops (c : Stamping) (words : ℕ → ℕ) (has_memory : ℕ → Bool) (left : ℕ)
    (ps : List Packet) (r r' : Reception) : Type 0 where
  pub done : List Packet
  pub rest : List Packet
  pub skbs : List Received
  pub splits : ps ≡ done ++ rest
  pub packets : r'.packets ≡ r.packets ++ skbs
  pub same : AllMatch c skbs done
  pub count : r'.count ≡ r.count + length done
  pub holds : Holds words r'.next rest
  pub ends : Ends has_memory r'.count (r.count + left) rest r.rx_fifo_errors r'.rx_fifo_errors
