-- ===== src/Http/Tests.antt =====
-- The decimal form of numbers on concrete inputs.
use pincerbell.Base.{◌≡◌, refl}
use pincerbell.Http.{to_string}

u64_max_printed : to_string 18446744073709551615 ≡ "18446744073709551615"
unfolding to_string
u64_max_printed = refl
