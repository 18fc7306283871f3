-- ===== src/StreamDevice/RtcpData/Fields.antt =====
-- The flag words of the RTCP data, taken apart.
use ravenna_fpga_drivers.Common.{
  ℕ, ◌+◌, ◌*◌, ◌/◌, ◌%◌, ◌^◌, ◌<◌, ◌≡◌, ap, ◌∙◌, true, false, [], ◌∷◌, arith, bit_and, bit_and-pick,
}
use ravenna_fpga_drivers.StreamDevice.RtcpData.{RtcpRxDataFpga, parse_rtcp_rx_data}

low_3 : (a : ℕ) → bit_and a 0x7 ≡ a % 8
low_3 a = bit_and-pick (true ∷ true ∷ true ∷ []) a ∙ omega arith

low_4 : (a : ℕ) → bit_and a 0xf ≡ a % 16
low_4 a = bit_and-pick (true ∷ true ∷ true ∷ true ∷ []) a ∙ omega arith

bit_3 : (a : ℕ) → bit_and a 8 ≡ a / 8 % 2 * 8
bit_3 a = bit_and-pick (false ∷ false ∷ false ∷ true ∷ []) a ∙ omega arith

low_17 : (a : ℕ) → bit_and a 0x1ffff ≡ a % 2 ^ 17
low_17 a =
    bit_and-pick
      (true ∷ true ∷ true ∷ true ∷ true ∷ true ∷ true ∷ true ∷ true ∷ true ∷ true ∷ true ∷ true
        ∷ true ∷ true ∷ true ∷ true ∷ [])
      a
    ∙ omega arith

low_19 : (a : ℕ) → bit_and a 0x7ffff ≡ a % 2 ^ 19
low_19 a =
    bit_and-pick
      (true ∷ true ∷ true ∷ true ∷ true ∷ true ∷ true ∷ true ∷ true ∷ true ∷ true ∷ true ∷ true
        ∷ true ∷ true ∷ true ∷ true ∷ true ∷ true ∷ [])
      a
    ∙ omega arith

bit_4 : (a : ℕ) → bit_and a 0x10 ≡ a / 16 % 2 * 16
bit_4 a = bit_and-pick (false ∷ false ∷ false ∷ false ∷ true ∷ []) a ∙ omega arith

bit_5 : (a : ℕ) → bit_and a 0x20 ≡ a / 32 % 2 * 32
bit_5 a = bit_and-pick (false ∷ false ∷ false ∷ false ∷ false ∷ true ∷ []) a ∙ omega arith

bit_6 : (a : ℕ) → bit_and a 0x40 ≡ a / 64 % 2 * 64
bit_6 a = bit_and-pick (false ∷ false ∷ false ∷ false ∷ false ∷ false ∷ true ∷ []) a ∙ omega arith

-- The fields of the two flag words. Bit 24 of the first, and the bits from 27 on of the second, are
-- not read.
pub record Flags : Type 0 where
  pub state : ℕ
  pub playing_primary : ℕ
  pub playing_secondary : ℕ
  pub error_primary : ℕ
  pub error_secondary : ℕ
  pub offset : ℕ
  pub unread_1 : ℕ
  pub payload_id : ℕ
  pub timeout_primary : ℕ
  pub timeout_secondary : ℕ
  pub path : ℕ
  pub unread_2 : ℕ

abbrev pub word_1 : Flags → ℕ
word_1 f =
    f.state
    + f.playing_primary * 2 ^ 3
    + f.playing_secondary * 2 ^ 4
    + f.error_primary * 2 ^ 5
    + f.error_secondary * 2 ^ 6
    + f.offset * 2 ^ 7
    + f.unread_1 * 2 ^ 24
    + f.payload_id * 2 ^ 25

abbrev pub word_2 : Flags → ℕ
word_2 f = f.timeout_primary + f.timeout_secondary * 2 ^ 4 + f.path * 2 ^ 8 + f.unread_2 * 2 ^ 27

-- Each field has the width that it has in the words.
pub record Fit (f : Flags) : Type 0 where
  pub state : f.state < 8
  pub playing_primary : f.playing_primary < 2
  pub playing_secondary : f.playing_secondary < 2
  pub error_primary : f.error_primary < 2
  pub error_secondary : f.error_secondary < 2
  pub offset : f.offset < 2 ^ 17
  pub unread_1 : f.unread_1 < 2
  pub payload_id : f.payload_id < 128
  pub timeout_primary : f.timeout_primary < 16
  pub timeout_secondary : f.timeout_secondary < 16
  pub path : f.path < 2 ^ 19

-- The flags as the parser reports them: the error and playing flags in the value of their bit, and the
-- offset estimation without its bit 16.
pub record Reports (f : Flags) (from : RtcpRxDataFpga) : Type 0 where
  pub state : (parse_rtcp_rx_data from).dev_state ≡ f.state
  pub payload_id : (parse_rtcp_rx_data from).rtp_payload_id ≡ f.payload_id
  pub offset : (parse_rtcp_rx_data from).offset_estimation ≡ f.offset % 2 ^ 16
  pub path : (parse_rtcp_rx_data from).path_differential ≡ f.path
  pub error_primary : (parse_rtcp_rx_data from).primary.error ≡ f.error_primary * 2 ^ 5
  pub error_secondary : (parse_rtcp_rx_data from).secondary.error ≡ f.error_secondary * 2 ^ 6
  pub playing_primary : (parse_rtcp_rx_data from).primary.playing ≡ f.playing_primary * 2 ^ 3
  pub playing_secondary : (parse_rtcp_rx_data from).secondary.playing ≡ f.playing_secondary * 2 ^ 4
  pub timeout_primary : (parse_rtcp_rx_data from).primary.timeout_counter ≡ f.timeout_primary
  pub timeout_secondary : (parse_rtcp_rx_data from).secondary.timeout_counter ≡ f.timeout_secondary

-- Two flag words of RTCP data that are put together from fields of their widths are taken apart into
-- the same fields, each error and playing flag in the value of its bit; of the 17 bits of the offset
-- estimation the lower 16 are reported.
pub parse_rtcp_rx_data-Reports :
    (f : Flags) (from : RtcpRxDataFpga)
    → Fit f
    → from.flags_1 ≡ word_1 f
    → from.flags_2 ≡ word_2 f
    → Reports f from
unfolding parse_rtcp_rx_data
parse_rtcp_rx_data-Reports f from fit h1 h2 = record {
  state = low_3 from.flags_1 ∙ omega (arith, fit.state);
  payload_id = omega (
    arith, fit.state, fit.playing_primary, fit.playing_secondary, fit.error_primary,
    fit.error_secondary, fit.offset, fit.unread_1, fit.payload_id,
  );
  offset =
      ap (λ a. a % 2 ^ 16) (low_17 (from.flags_1 / 2 ^ 7))
      ∙ omega (
        arith, fit.state, fit.playing_primary, fit.playing_secondary, fit.error_primary,
        fit.error_secondary, fit.offset,
      );
  path =
      low_19 (from.flags_2 / 2 ^ 8)
      ∙ omega (arith, fit.timeout_primary, fit.timeout_secondary, fit.path);
  error_primary =
      bit_5 from.flags_1
      ∙ omega (arith, fit.state, fit.playing_primary, fit.playing_secondary, fit.error_primary);
  error_secondary =
      bit_6 from.flags_1
      ∙ omega (
        arith, fit.state, fit.playing_primary, fit.playing_secondary, fit.error_primary,
        fit.error_secondary,
      );
  playing_primary = bit_3 from.flags_1 ∙ omega (arith, fit.state, fit.playing_primary);
  playing_secondary =
      bit_4 from.flags_1 ∙ omega (arith, fit.state, fit.playing_primary, fit.playing_secondary);
  timeout_primary = low_4 from.flags_2 ∙ omega (arith, fit.timeout_primary);
  timeout_secondary =
      low_4 (from.flags_2 / 2 ^ 4) ∙ omega (arith, fit.timeout_primary, fit.timeout_secondary);
}
