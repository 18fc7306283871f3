-- ===== src/Net/TxTs/Ledger.antt =====
-- Every packet that was taken is freed once, or waits.

use ravenna_fpga_drivers.Common.{
  ℕ, zero, suc, ◌≡◌, refl, ap, List, [], ◌∷◌, ◌++◌, map, length, ◌==◌, Bool-cases, inl, inr,
}
use ravenna_fpga_drivers.Net.TxTs.{Skb, Headers, Effect, kfree_skb, tstamp_tx}
use ravenna_fpga_drivers.Net.TxTs.Spec.{
  TimeStamp, seq_id, Verdict, too_short, same, stamp_is_older, stamp_is_newer, verdict, Paired,
  pair, take, drop, room, evicted,
}

-- The packets that are freed, in order.
unfoldable pub freed : List Effect → List Skb
freed [] = []
freed (kfree_skb k ∷ es) = k ∷ freed es
freed (tstamp_tx k n ∷ es) = freed es

pub freed-append : (es fs : List Effect) → freed (es ++ fs) ≡ freed es ++ freed fs
unfolding freed
freed-append [] fs = refl
freed-append (kfree_skb k ∷ es) fs = ap (λ l. k ∷ l) (freed-append es fs)
freed-append (tstamp_tx k n ∷ es) fs = freed-append es fs

pub freed-kfree : (ks : List Skb) → freed (map kfree_skb ks) ≡ ks
unfolding freed
freed-kfree [] = refl
freed-kfree (k ∷ ks) = ap (λ l. k ∷ l) (freed-kfree ks)

abbrev Balanced : Paired → List Skb → Type 0
Balanced p ks = freed p.effects ++ p.packets ≡ ks

-- The pairing frees a first part of the packets in order, and leaves the rest.
pub pair-freed : (h : Headers) (ks : List Skb) (ts : List TimeStamp) → Balanced (pair h ks ts) ks
unfolding pair freed
pair-freed h [] ts = refl
pair-freed h (k ∷ ks) [] = refl
pair-freed h (k ∷ ks) (t ∷ ts) =
    by (verdict (seq_id h k) t.0) refl (pair-freed h ks ts) (pair-freed h (k ∷ ks) ts)
      (pair-freed h ks (t ∷ ts))
  where
    by :
        (v : Verdict)
        → verdict (seq_id h k) t.0 ≡ v
        → Balanced (pair h ks ts) ks
        → Balanced (pair h (k ∷ ks) ts) (k ∷ ks)
        → Balanced (pair h ks (t ∷ ts)) ks
        → Balanced (pair h (k ∷ ks) (t ∷ ts)) (k ∷ ks)
    by too_short e both ts_only skb_only = rw (e, pair) (ap (λ l. k ∷ l) both)
    by same e both ts_only skb_only = rw (e, pair) (ap (λ l. k ∷ l) both)
    by stamp_is_older e both ts_only skb_only = rw (e, pair) ts_only
    by stamp_is_newer e both ts_only skb_only = rw (e, pair) (ap (λ l. k ∷ l) skb_only)

pub take-append-drop : {A : Type 0} (n : ℕ) (xs : List A) → take n xs ++ drop n xs ≡ xs
take-append-drop zero xs = refl
take-append-drop (suc n) [] = refl
take-append-drop (suc n) (x ∷ xs) = ap (λ l. x ∷ l) (take-append-drop n xs)

pub evicted-append-room : {A : Type 0} (xs : List A) → evicted xs ++ room xs ≡ xs
evicted-append-room [] = refl
evicted-append-room (x ∷ xs) = elim (Bool-cases (length (x ∷ xs) == 63)) [
  | inl e ↦ rw e refl
  | inr e ↦ rw e refl
]
