-- ===== src/Frame/Radio/Examples.antt =====
-- The theorems on the layout of radio frames at concrete inputs.
use dot15d.Base.{ℕ, arith, List, [], ◌∷◌}
use dot15d.Frame.Radio.{Config}
use dot15d.Frame.Radio.Layouts.{Fits, Agree, layouts_agree}

-- A receive buffer.
abbrev received : List ℕ
received = 20 ∷ 0x41 ∷ 0x98 ∷ 1 ∷ 0xcd ∷ 0xab ∷ 0x34 ∷ 0x12 ∷ 1 ∷ 2 ∷ 3 ∷ 4 ∷ 5 ∷ 6 ∷ 7 ∷ 8 ∷ []

abbrev radio : Config
radio = record { headroom = 1; tailroom = 1; max_sdu = 127; fcs = 2 }

radio_fits : Fits radio 12
radio_fits = record {
  overhead = omega arith;
  total = omega arith;
  positive = omega arith;
  sdu_fits = omega arith;
}

layouts_agree_example : Agree radio 12 radio_fits received
layouts_agree_example = layouts_agree radio 12 radio_fits received
