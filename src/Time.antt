-- ===== src/Time.antt =====
-- `std::time`: a `Duration` is a number of nanoseconds, and an `Instant` one since a fixed origin.
-- `Instant + Duration` panics on overflow in the program; here it is unbounded.
use pincerbell.Base.{ℕ, ◌*◌, ◌-◌, Bool, nat_beq}

abbrev pub Duration : Type 0
Duration = ℕ

abbrev pub Instant : Type 0
Instant = ℕ

-- Duration::from_secs
abbrev pub from_secs : ℕ → Duration
from_secs s = s * 1_000_000_000

-- Instant::duration_since, which is zero where the other instant is later.
abbrev pub duration_since : Instant → Instant → Duration
duration_since now t = now - t

-- Duration::is_zero
abbrev pub is_zero : Duration → Bool
is_zero d = nat_beq d 0
