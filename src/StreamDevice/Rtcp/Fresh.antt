-- ===== src/StreamDevice/Rtcp/Fresh.antt =====
-- Which data a reading of the RTCP statistics shows.
use ravenna_fpga_drivers.Common.{
  ℕ, ◌≤◌, ◌<◌, ◌≡◌, ◌≢◌, Bool, true, false, Option, none, some, List, [], ◌∷◌, ◌++◌, ◌⊎◌, ◌+◌, ◌%◌,
  ◌^◌,
}
use ravenna_fpga_drivers.Kernel.{Result, ok, err, Errno}
use ravenna_fpga_drivers.StreamDevice.Rtcp.{
  Rtcp, ReadRtcpStatCmd, Half, fetch, set_ready, Wait, Reading, halves, reset_ready, select_page,
}
use ravenna_fpga_drivers.StreamDevice.Rtcp

abbrev pub or_else : {F : Type 0} → F → Option F → F
or_else d none = d
or_else d (some f) = f

-- What the handler has read last.
abbrev pub latest : {F : Type 0} → List (Half F) → Option F
latest [] = none
latest (fetch f ∷ es) = some (or_else f (latest es))
latest (set_ready ∷ es) = latest es

abbrev pub finishes : {F : Type 0} → List (Half F) → Bool
finishes [] = false
finishes (fetch f ∷ es) = finishes es
finishes (set_ready ∷ es) = true

abbrev pub resumes : {F : Type 0} → List (Half F) → Bool
resumes (set_ready ∷ es) = true
resumes _ = false

-- The handler sets the flag before the page is selected, or right after it for data from before that.
abbrev pub Overlaps : {F : Type 0} → Wait F → Type 0
Overlaps wait = (finishes wait.early ≡ true) ⊎ (resumes wait.arrivals ≡ true)

-- The documented values of `wait_event_interruptible_timeout`: a positive number of jiffies only if the
-- condition holds in the end.
abbrev pub Documented : Bool → Result ℕ → Type 0
Documented condition returned =
    (jiffies : ℕ) → returned ≡ ok jiffies → jiffies ≢ 0 → condition ≡ true

-- The command that is copied to user space for the data `f`, with the page selected: the reported time
-- out and the time left add up to the requested one, in 32 bits.
pub record Copied {F D : Type 0} (parse : F → D) (jiffies_to_msecs : ℕ → ℕ)
    (cmd : ReadRtcpStatCmd D) (returned : Result ℕ) (o : Reading F D) (f : F) : Type 0 where
  pub r : Rtcp F
  pub jiffies : ℕ
  pub timeout_ms : ℕ
  pub waited : returned ≡ ok jiffies
  pub left : 0 < jiffies % 2 ^ 32
  pub page : r.page_select ≡ cmd.index
  pub time : (timeout_ms + jiffies_to_msecs (jiffies % 2 ^ 32)) % 2 ^ 32 ≡ cmd.timeout_ms % 2 ^ 32
  pub result :
      o
      ≡ (ok 0, r, some (record { index = cmd.index; timeout_ms = timeout_ms; rtcp_data = parse f }))

-- What a reading may be.
pub data Reads {F D : Type 0} (parse : F → D) (jiffies_to_msecs : ℕ → ℕ) (cmd : ReadRtcpStatCmd D)
    (old : F) (wait : Wait F) (o : Reading F D) : Type 0 where
  failed :
      (e : Errno) (r : Rtcp F) → o ≡ (err e, r, none) → Reads parse jiffies_to_msecs cmd old wait o
  fresh :
      (f : F)
      → latest (wait.arrivals ++ wait.late) ≡ some f
      → cmd.index ≤ 127
      → Copied parse jiffies_to_msecs cmd wait.returned o f
      → Reads parse jiffies_to_msecs cmd old wait o
  overlapped :
      latest (wait.arrivals ++ wait.late) ≡ none
      → Overlaps wait
      → cmd.index ≤ 127
      → Copied parse jiffies_to_msecs cmd wait.returned o (or_else old (latest wait.early))
      → Reads parse jiffies_to_msecs cmd old wait o

module _ {F D : Type 0} (parse : F → D) (jiffies_to_msecs : ℕ → ℕ) where
  abbrev selected : Rtcp F → ReadRtcpStatCmd D → Wait F → Rtcp F
  selected r cmd wait = select_page cmd.index (halves (reset_ready r) wait.early)
