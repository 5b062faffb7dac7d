-- ===== src/Core/Text/Runs.antt =====
-- Runs of the count.
use opal_cpp.Common.{◌≡◌, refl, [], ◌∷◌}
use opal_cpp.Core.Text.{utf8_code_point_count, starts_code_point}

count_run : utf8_code_point_count (0x41 ∷ 0xc3 ∷ 0xa9 ∷ 0xe2 ∷ 0x82 ∷ 0xac ∷ []) ≡ 3
unfolding utf8_code_point_count starts_code_point
count_run = refl
