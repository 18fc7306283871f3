-- ===== src/StreamDevice/ActiveTracks/Routed.antt =====
-- The loop over the active tracks of a stream runs its body on them in order, and on nothing else.
use ravenna_fpga_drivers.Common.{
  ℕ, zero, suc, ◌+◌, ◌-◌, ◌≤◌, ◌<◌, ◌≡◌, refl, ap, ◌∙◌, Bool, true, false, Option, none, some,
  ◌>>=◌, List, [], ◌∷◌, ℤ, pos, negsuc, arith, length, get_elem?, get_or, get_elem?-eq-get_or,
  le→leb, lt→leb,
}
use ravenna_fpga_drivers.StreamDevice.ActiveTracks.{
  find_from, find_used_track, track_at, loop_from, for_each_active_track,
}

abbrev pub if_routed : ℤ → List ℕ → List ℕ
if_routed (pos t) ts = t ∷ ts
if_routed (negsuc _) ts = ts

-- The tracks of `left` channels from `i` on, without those that are routed nowhere.
unfoldable pub routed_from : List ℤ → ℕ → ℕ → List ℕ
routed_from tracks i zero = []
routed_from tracks i (suc left) =
    if_routed (get_or tracks i (pos 0)) (routed_from tracks (suc i) left)

unfoldable pub routed : ℕ → List ℤ → List ℕ
routed n tracks = routed_from tracks 0 n

-- The body on each element of a list, up to a break.
unfoldable pub visit : {S : Type 0} → (ℕ → S → Option (S × Bool)) → List ℕ → S → Option S
visit body [] s = some s
visit body (t ∷ ts) s = do
  (s', stop) ← body t s
  elim stop [ true ↦ some s' | false ↦ visit body ts s' ]

-- What `find_from` gives: the end, or the next channel with a track.
data Finds (tracks : List ℤ) (i left : ℕ) (o : Option ℕ) : Type 0 where
  at_end : o ≡ some (i + left) → routed_from tracks i left ≡ [] → Finds tracks i left o
  at_track :
      (j t : ℕ)
      → o ≡ some j
      → i ≤ j
      → j < i + left
      → track_at tracks j ≡ some t
      → routed_from tracks i left ≡ t ∷ routed_from tracks (suc j) (i + left - suc j)
      → Finds tracks i left o

find_from-Finds :
    (tracks : List ℤ) (i left : ℕ)
    → i + left ≤ length tracks
    → Finds tracks i left (find_from tracks i left)
unfolding find_from routed_from track_at
find_from-Finds tracks i zero room = at_end (ap some (omega arith)) refl
find_from-Finds tracks i (suc left) room =
    go (get_or tracks i (pos 0)) refl (find_from-Finds tracks (suc i) left (omega arith))
  where
    here : get_elem? tracks i ≡ some (get_or tracks i (pos 0))
    here = get_elem?-eq-get_or tracks i (pos 0) (omega arith)

    go :
        (z : ℤ)
        → get_or tracks i (pos 0) ≡ z
        → Finds tracks (suc i) left (find_from tracks (suc i) left)
        → Finds tracks i (suc left) (find_from tracks i (suc left))
    go (pos t) e ih =
        at_track i t (rw (here, e)) (omega arith) (omega arith) (rw (here, e))
          (rw e (ap (λ n. t ∷ routed_from tracks (suc i) n) (omega arith)))
    go (negsuc t) e (at_end o none_left) =
        at_end (rw (here, e) (o ∙ ap some (omega arith))) (rw e none_left)
    go (negsuc t) e (at_track j u o lo hi at later) =
        at_track j u (rw (here, e) o) (omega arith) (omega arith) at
          (rw e (later ∙ ap (λ n. u ∷ routed_from tracks (suc j) n) (omega arith)))

-- Two ways to go on after a body that did not break.
then_same :
    {S : Type 0} (o : Option (S × Bool)) {f g : S → Option S}
    → ((s : S) → f s ≡ g s)
    → (o >>= λ (s, stop). elim stop [ true ↦ some s | false ↦ f s ])
      ≡ (o >>= λ (s, stop). elim stop [ true ↦ some s | false ↦ g s ])
then_same none h = refl
then_same (some (s, true)) h = refl
then_same (some (s, false)) h = h s

module _ {S : Type 0} (body : ℕ → S → Option (S × Bool)) (tracks : List ℤ) (n : ℕ)
    (room : n ≤ length tracks) where
  abbrev rounds : ℕ → ℕ → S → Option S
  rounds fuel i s = do next ← find_used_track i n tracks; loop_from body tracks n fuel next s

  rounds_lem :
      (fuel i : ℕ) (s : S)
      → i ≤ n
      → n - i < fuel
      → rounds fuel i s ≡ visit body (routed_from tracks i (n - i)) s
  unfolding find_used_track loop_from visit
  rounds_lem zero i s lo enough = absurd (omega arith)
  rounds_lem (suc fuel) i s lo enough = elim (find_from-Finds tracks i (n - i) (omega arith)) [
    | at_end o none_left ↦ rw (o, none_left, le→leb n (i + (n - i)) (omega arith))
    | at_track j t o lo' hi at later ↦
        rw (o, later, lt→leb n j (omega arith), at)
          (then_same (body t s) (λ s'.
            rounds_lem fuel (suc j) s' (omega arith) (omega arith)
            ∙ ap (λ m. visit body (routed_from tracks (suc j) m) s') (omega arith)))
  ]

  -- With a track for each channel, the loop visits exactly the routed ones, and its fuel is enough.
  pub for_each_active_track_lem :
      (s : S) → for_each_active_track body tracks n s ≡ visit body (routed n tracks) s
  unfolding for_each_active_track routed
  for_each_active_track_lem s =
      rounds_lem (suc n) 0 s (omega arith) (omega arith)
      ∙ ap (λ m. visit body (routed_from tracks 0 m) s) (omega arith)
