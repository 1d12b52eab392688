-- ===== src/Utils/Tests.antt =====
-- `itoa` at concrete numbers.
use quillos.Prelude.{◌≡◌, refl, [], ◌∷◌}
use quillos.Utils.{itoa, digits, copy_back}

itoa_run : itoa 907 ≡ b'9' ∷ b'0' ∷ b'7' ∷ []
unfolding itoa digits copy_back
itoa_run = refl
