-- ===== src/Net/TxTs/Spec.antt =====
-- What the time stamping of sent packets promises: two queues of at most 63 entries, and the pairing
-- of their entries by sequence id. The rings of timestamp.c implement it.
use ravenna_fpga_drivers.Common.{
  ℕ, zero, suc, ◌+◌, ◌-◌, ◌%◌, ◌^◌, Bool, true, false, not, ◌||◌, Option, none, some, List, [], ◌∷◌,
  ◌++◌, map, ltb, ◌==◌, if◌then◌else◌, length,
}
use ravenna_fpga_drivers.Net.TxTs.{
  Skb, Headers, FpgaTimestamp, Effect, kfree_skb, tstamp_tx, hwtstamp_of, packet_seq_id, id_offset,
}

-- A time stamp: the sequence id of its packet, and the time in nanoseconds.
abbrev pub TimeStamp : Type 0
TimeStamp = ℕ × ℕ

abbrev pub time_stamp : FpgaTimestamp → TimeStamp
time_stamp ts = (ts.sequence_id, hwtstamp_of ts)

pub record Queues : Type 0 where
  pub enable : Bool
  pub lost : ℕ
  pub work : Bool
  pub packets : List Skb
  pub stamps : List TimeStamp

module _ {A : Type 0} where
  -- A full queue loses its oldest entry.
  abbrev pub room : List A → List A
  room [] = []
  room (x ∷ xs) = if length (x ∷ xs) == 63 then xs else x ∷ xs

  abbrev pub evicted : List A → List A
  evicted [] = []
  evicted (x ∷ xs) = if length (x ∷ xs) == 63 then x ∷ [] else []

  abbrev pub take : ℕ → List A → List A
  take zero xs = []
  take (suc n) [] = []
  take (suc n) (x ∷ xs) = x ∷ take n xs

  abbrev pub drop : ℕ → List A → List A
  drop zero xs = xs
  drop (suc n) [] = []
  drop (suc n) (x ∷ xs) = drop n xs

-- The sequence id of a packet that is long enough to have one.
unfoldable pub seq_id : Headers → Skb → Option ℕ
seq_id h skb = if ltb skb.len (id_offset h skb + 2) then none else some (packet_seq_id h skb)

pub data Verdict : Type 0 where
  too_short same stamp_is_older stamp_is_newer : Verdict

unfoldable pub verdict : Option ℕ → ℕ → Verdict
verdict none t = too_short
verdict (some n) t = if t == n then same else if ltb t n then stamp_is_older else stamp_is_newer

-- What is left of the queues, and what happened to the packets.
pub record Paired : Type 0 where
  pub packets : List Skb
  pub stamps : List TimeStamp
  pub effects : List Effect

abbrev pub after : List Effect → Paired → Paired
after effects p = record p { effects = effects ++ p.effects }

-- The heads of the queues are paired where they have the same sequence id; else the one with the
-- smaller id is dropped.
unfoldable pub pair : Headers → List Skb → List TimeStamp → Paired
unfolding verdict seq_id
pair h [] ts = record { packets = []; stamps = ts; effects = [] }
pair h (k ∷ ks) [] = record { packets = k ∷ ks; stamps = []; effects = [] }
pair h (k ∷ ks) (t ∷ ts) = elim (verdict (seq_id h k) t.0) [
  | too_short ↦ after (kfree_skb k ∷ []) (pair h ks ts)
  | same ↦ after (tstamp_tx k t.1 ∷ kfree_skb k ∷ []) (pair h ks ts)
  | stamp_is_older ↦ pair h (k ∷ ks) ts
  | stamp_is_newer ↦ after (kfree_skb k ∷ []) (pair h ks (t ∷ ts))
]

-- A time stamp arrives, or is lost.
abbrev pub receive : Queues → Option TimeStamp → Queues
receive q none = record q { lost = (q.lost + 1) % 2 ^ 32; work = true; stamps = room q.stamps }
receive q (some t) = record q { work = true; stamps = room q.stamps ++ t ∷ [] }

-- A packet is handed over.
abbrev pub accept : Queues → Skb → Queues
accept q skb =
    if not q.enable || not skb.hw_tstamp
    then q
    else record q { packets = room q.packets ++ record skb { in_progress = true } ∷ [] }

abbrev pub accepted : Queues → Skb → List Skb
accepted q skb =
    if not q.enable || not skb.hw_tstamp then [] else record skb { in_progress = true } ∷ []

abbrev pub evicts : Queues → Skb → List Effect
evicts q skb = if not q.enable || not skb.hw_tstamp then [] else map kfree_skb (evicted q.packets)

-- As many packets as time stamps were lost are dropped first.
abbrev pub drain : Queues → Queues
drain q = record q {
  lost = q.lost - length q.packets;
  work = false;
  packets = drop q.lost q.packets;
}

abbrev pub drained : Queues → List Effect
drained q = map kfree_skb (take q.lost q.packets)

abbrev pub leave : Queues → Paired → Queues
leave q p = record q { packets = p.packets; stamps = p.stamps }

abbrev pub flushed : Queues → Queues
flushed q = record { enable = q.enable; lost = 0; work = false; packets = []; stamps = [] }
