-- ===== src/EnergyMeter/Tests.antt =====
-- A frame of the HLW8032, and the theorem on its checksum applied to it.
use cedar_switch_3i4o_power.Common.{◌≡◌, refl, true, false, [], ◌∷◌, Bytes, set, arith}
use cedar_switch_3i4o_power.EnergyMeter.Hlw8032.{
  Hlw8032Regs, hlw8032_frame_ok, hlw8032_frame_ok-set, hlw8032_parse, head_ok, frame_sum,
}

-- A frame with new measurements, of which the current has overflowed.
abbrev frame : Bytes
frame =
    0xF4 ∷ 0x5A ∷ 2 ∷ 0 ∷ 0 ∷ 0 ∷ 1 ∷ 0 ∷ 0 ∷ 0 ∷ 9 ∷ 0 ∷ 0 ∷ 7 ∷ 0 ∷ 0 ∷ 4 ∷ 0 ∷ 0 ∷ 5 ∷ 0x60 ∷ 1
    ∷ 2 ∷ 0x7F ∷ []

frame_accepted : hlw8032_frame_ok frame ≡ true
unfolding hlw8032_frame_ok head_ok frame_sum
frame_accepted = refl

abbrev earlier : Hlw8032Regs
earlier = record { v_par = 1; v = 2; i_par = 3; i = 4; p_par = 5; p = 6; pf = 7 }

frame_parsed :
    hlw8032_parse frame earlier
    ≡ record { v_par = 0x20000; v = 0x100; i_par = 9; i = 0; p_par = 4; p = 6; pf = 0x102 }
unfolding hlw8032_parse
frame_parsed = refl

hlw8032_frame_ok-set_example : hlw8032_frame_ok (set frame 6 3) ≡ false
hlw8032_frame_ok-set_example =
    hlw8032_frame_ok-set frame 6 3 refl frame_accepted (omega arith) (omega arith) (omega arith)
      (omega arith) (omega arith)
