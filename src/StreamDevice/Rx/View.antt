-- ===== src/StreamDevice/Rx/View.antt =====
-- What the clients of the RX streams can tell of the state: which streams there are, and whose.
use ravenna_fpga_drivers.Common.{
  ℕ, ◌≡◌, sym, ap, ◌∙◌, Option, none, some, update, update_map, update_same,
}
use ravenna_fpga_drivers.Uapi.{RxStream}
use ravenna_fpga_drivers.StreamDevice.Rx.{RxElem}

-- A stream and its owner, without its place in the track table.
pub record RxView : Type 0 where
  pub stream : RxStream
  pub filp : ℕ
  pub pid : ℕ

abbrev pub to_view : RxElem → RxView
to_view e = record { stream = e.stream; filp = e.filp; pid = e.pid }

abbrev pub map_view : Option RxElem → Option RxView
map_view none = none
map_view (some e) = some (to_view e)

abbrev pub view : (ℕ → Option RxElem) → ℕ → Option RxView
view streams i = map_view (streams i)

pub view-update :
    (streams : ℕ → Option RxElem) (i : ℕ) (o : Option RxElem)
    → view (update streams i o) ≡ update (view streams) i (map_view o)
view-update streams i o = sym (update_map map_view streams i o)

-- Moving a stream to another range of the track table does not show.
pub view_moved :
    (streams : ℕ → Option RxElem) (i base : ℕ) (e : RxElem)
    → streams i ≡ some e
    → view (update streams i (some (record e { trtb_index = base }))) ≡ view streams
view_moved streams i base e h =
    view-update streams i (some (record e { trtb_index = base }))
    ∙ update_same (view streams) i (some (to_view e)) (ap map_view h)
