-- ===== src/Utility/Tests.antt =====
-- Divisions that round.
use ooplatingsistm.Base.{◌≡◌, refl, pos, negsuc, arith}
use ooplatingsistm.Utility.{
  min, max, div_round_up, div_round_down, RoundedUp, FitsInt, div_round_up-RoundedUp,
}

-- 130 / 128 and -3 / 2.
round_up_pages : div_round_up (pos 130) 128 ≡ pos 2
unfolding div_round_up
round_up_pages = refl

round_down_negative : div_round_down (negsuc 2) 2 ≡ negsuc 0
unfolding div_round_down
round_down_negative = refl

max_of_two : max (negsuc 2) (pos 1) ≡ pos 1
unfolding max
max_of_two = refl

min_of_two : min (negsuc 2) (pos 1) ≡ negsuc 2
unfolding min
min_of_two = refl

div_round_up-RoundedUp_example :
    RoundedUp (pos 130) 128 (div_round_up (pos 130) 128) × FitsInt (div_round_up (pos 130) 128)
div_round_up-RoundedUp_example =
    div_round_up-RoundedUp (pos 130) 128 (omega arith) (omega arith, omega arith)
