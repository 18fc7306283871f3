-- ===== src/StreamDevice/Rx/Tracks.antt =====
-- The loops of rx.c over the tracks of a stream: which streams may have their tracks, and what marking
-- them does.
use ravenna_fpga_drivers.Common.{
  mem, Distinct, ℕ, zero, suc, ◌≤◌, ◌<◌, ◌≡◌, refl, ap, subst, fun_ext, ◌∙◌, Bool, true, false,
  Option, some, List, [], ◌∷◌, ℤ, pos, negsuc, arith, length, get_or, leb_ℤ, to_s16, ltb, lt→ltb,
  inl, inr, ◌⊎◌, update, Bool-cases, ◌==◌, ==_iff,
}
use ravenna_fpga_drivers.Kernel.{Bitmap, Result, ok, err, Errno, einval, ebusy, enomem}
use ravenna_fpga_drivers.Uapi.{RxStream}
use ravenna_fpga_drivers.StreamDevice.ActiveTracks.Routed.{
  routed_from, routed, if_routed, visit, for_each_active_track_lem,
}
use ravenna_fpga_drivers.StreamDevice.RxValidate.Verdict.{Below}
use ravenna_fpga_drivers.StreamDevice.Rx.{Rx, check_track, tracks_available, write_bit, mark}
use ravenna_fpga_drivers.StreamDevice.Rx.Exclusive.{marked}

-- The tracks that a stream writes to.
abbrev pub tracks_of : RxStream → List ℕ
tracks_of s = routed s.num_channels s.tracks

abbrev pub AllBelow : ℕ → List ℕ → Type 0
AllBelow max ts = (t : ℕ) → mem t ts ≡ true → t < max

if_routed-AllBelow :
    (max : ℕ) (z : ℤ) (ts : List ℕ)
    → max ≤ 256
    → leb_ℤ (to_s16 max) z ≡ false
    → AllBelow max ts
    → AllBelow max (if_routed z ts)
if_routed-AllBelow max (pos n) ts small below rest t m = elim (Bool-cases (n == t)) [
  | inl e ↦ ground arith
  | inr e ↦ rest t (ground arith)
]
if_routed-AllBelow max (negsuc n) ts small below rest t m = rest t m

routed_from-AllBelow :
    (max : ℕ) (tracks : List ℤ) (i left : ℕ)
    → max ≤ 256
    → Below (to_s16 max) tracks i left
    → AllBelow max (routed_from tracks i left)
unfolding routed_from
routed_from-AllBelow max tracks i zero small below = λ t m. absurd (ground arith)
routed_from-AllBelow max tracks i (suc left) small below =
    if_routed-AllBelow max (get_or tracks i (pos 0)) (routed_from tracks (suc i) left) small
      (below i (omega arith) (omega arith))
      (routed_from-AllBelow max tracks (suc i) left small
        (λ j lo hi. below j (omega arith) (omega arith)))

pub tracks_of-AllBelow :
    (max : ℕ) (s : RxStream)
    → max ≤ 256
    → Below (to_s16 max) s.tracks 0 s.num_channels
    → AllBelow max (tracks_of s)
unfolding routed
tracks_of-AllBelow max s small below =
    routed_from-AllBelow max s.tracks 0 s.num_channels small below

visit-write_bit :
    (max : ℕ) (b : Bool) (ts : List ℕ) (used : Bitmap)
    → AllBelow max ts
    → visit (write_bit max b) ts used ≡ some (marked b used ts)
unfolding visit write_bit
visit-write_bit max b [] used below = refl
visit-write_bit max b (x ∷ ts) used below = rw (lt→ltb x max (below x (ground arith))) (
    visit-write_bit max b ts (update used x b) (λ t m. below t (ground arith))
    ∙ ap some (fun_ext λ p. ground arith))

-- The tracks `ts` are different, and none is used or was seen.
abbrev pub Free : Bitmap → Bitmap → List ℕ → Type 0
Free used seen ts = Distinct ts × ((t : ℕ) → mem t ts ≡ true → (used t ≡ false) × (seen t ≡ false))

record Checks (used seen : Bitmap) (ts : List ℕ) (o : Option (Bitmap × Result ℕ)) : Type 0 where
  last : Bitmap × Result ℕ
  done : o ≡ some last
  verdict :
      ((last.1 ≡ ok 0) × Free used seen ts)
      ⊎ (((last.1 ≡ err einval) ⊎ (last.1 ≡ err ebusy)) × (Free used seen ts → ⊥))

visit-check_track :
    (max : ℕ) (used : Bitmap) (ts : List ℕ) (seen : Bitmap)
    → AllBelow max ts
    → Checks used seen ts (visit (check_track max used) ts (seen, ok 0))
unfolding visit check_track
visit-check_track max used [] seen below = record {
  last = (seen, ok 0);
  done = refl;
  verdict = inl (refl, (tt, λ t m. absurd (ground arith)));
}
visit-check_track max used (x ∷ ts) seen below = elim (Bool-cases (used x)) [
  | inl busy ↦ record {
    last = (update seen x true, err ebusy);
    done = rw (here, busy);
    verdict = inr (inr refl, λ f. absurd (ground (arith, f.1 x)));
  }
  | inr idle ↦ elim (Bool-cases (seen x)) [
    | inl again ↦ record {
      last = (update seen x true, err einval);
      done = rw (here, idle, again);
      verdict = inr (inl refl, λ f. absurd (ground (arith, f.1 x)));
    }
    | inr first ↦
        let ih =
          visit-check_track max used ts (update seen x true) (λ t m. below t (ground arith)) in
        record {
          last = ih.last;
          done = rw (here, idle, first) ih.done;
          verdict = elim ih.verdict [
            | inl (good, free) ↦ inl (good, to free idle first)
            | inr (bad, taken) ↦ inr (bad, λ f. taken (from f))
          ];
        }
  ]
]
  where
    here : ltb x max ≡ true
    here = lt→ltb x max (below x (ground arith))

    to :
        Free used (update seen x true) ts
        → used x ≡ false
        → seen x ≡ false
        → Free used seen (x ∷ ts)
    to free idle first = (
      (
        elim (Bool-cases (mem x ts)) [ inl m ↦ absurd (ground (arith, free.1 x m)) | inr m ↦ m ],
        free.0,
      ),
      λ t m. elim (Bool-cases (x == t)) [
        | inl e ↦ ground (arith, ap used ((==_iff x t).0 e), ap seen ((==_iff x t).0 e))
        | inr e ↦ ground (arith, free.1 t)
      ],
    )

    from : Free used seen (x ∷ ts) → Free used (update seen x true) ts
    from f = (
      f.0.1,
      λ t m. elim (Bool-cases (x == t)) [
        | inl e ↦
            absurd (ground (arith, f.0.0, subst (λ p. mem p ts ≡ true) {y = x} (ground arith) m))
        | inr e ↦ ground (arith, f.1 t)
      ],
    )

-- The tracks of a stream can be had: they are different, and none is marked as used.
abbrev pub TracksFree : Rx → RxStream → Type 0
TracksFree rx s =
    Distinct (tracks_of s) × ((t : ℕ) → mem t (tracks_of s) ≡ true → rx.used_tracks t ≡ false)

-- What `tracks_available` may answer.
pub data Available (rx : Rx) (s : RxStream) (scratch : Bool) (o : Option (Result ℕ)) : Type 0 where
  all_free : o ≡ some (ok 0) → TracksFree rx s → Available rx s scratch o
  in_use :
      (e : Errno)
      → o ≡ some (err e)
      → (e ≡ einval) ⊎ (e ≡ ebusy)
      → (TracksFree rx s → ⊥)
      → Available rx s scratch o
  no_memory : scratch ≡ false → o ≡ some (err enomem) → Available rx s scratch o

-- For an RX stream with a track for each channel, all below the number of tracks, the check of its
-- tracks succeeds exactly if they are different and none is marked in the bitmap of used tracks, and
-- answers EINVAL or EBUSY otherwise, or ENOMEM where the temporary bitmap cannot be had.
pub tracks_available-Available :
    (rx : Rx) (s : RxStream) (scratch : Bool)
    → s.num_channels ≤ length s.tracks
    → AllBelow rx.max_tracks (tracks_of s)
    → Available rx s scratch (tracks_available rx s scratch)
unfolding tracks_available
tracks_available-Available rx s false room below = no_memory refl refl
tracks_available-Available rx s true room below =
    let c = visit-check_track rx.max_tracks rx.used_tracks (tracks_of s) (λ _. false) below in
    let loop =
      for_each_active_track_lem (check_track rx.max_tracks rx.used_tracks) s.tracks s.num_channels
        room (λ _. false, ok 0) in
    elim c.verdict [
      | inl (good, f) ↦ all_free (rw (loop, c.done, good)) (f.0, λ t m. (f.1 t m).0)
      | inr (bad, f) ↦ elim bad [
        | inl e ↦
            in_use einval (rw (loop, c.done, e)) (inl refl) (λ h. f (h.0, λ t m. (h.1 t m, refl)))
        | inr e ↦
            in_use ebusy (rw (loop, c.done, e)) (inr refl) (λ h. f (h.0, λ t m. (h.1 t m, refl)))
      ]
    ]

pub mark_lem :
    (b : Bool) (rx : Rx) (s : RxStream)
    → s.num_channels ≤ length s.tracks
    → AllBelow rx.max_tracks (tracks_of s)
    → mark b rx s ≡ some (record rx { used_tracks = marked b rx.used_tracks (tracks_of s) })
unfolding mark
mark_lem b rx s room below = rw (
  for_each_active_track_lem (write_bit rx.max_tracks b) s.tracks s.num_channels room rx.used_tracks,
  visit-write_bit rx.max_tracks b (tracks_of s) rx.used_tracks below,
)
