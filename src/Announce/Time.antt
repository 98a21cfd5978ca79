-- ===== src/Announce/Time.antt =====
-- The times of announce.go: nanoseconds since the epoch, as time.Time.UnixNano gives them, and
-- time.Duration, an int64 of nanoseconds.
use Prim.Native.Nat.{min}
use herrscher_transport.Prelude.{ℕ, suc, ◌+◌, ◌-◌, ◌*◌, ◌^◌, ℤ, pos, negsuc}

abbrev pub pos_part : ℤ → ℕ
pos_part (pos n) = n
pos_part (negsuc n) = 0

abbrev pub neg_part : ℤ → ℕ
neg_part (pos n) = 0
neg_part (negsuc n) = suc n

-- |a - b|
abbrev pub distance : ℤ → ℤ → ℕ
distance a b =
    (pos_part a + neg_part b - (pos_part b + neg_part a))
    + (pos_part b + neg_part a - (pos_part a + neg_part b))

abbrev pub max_duration : ℕ
max_duration = 2 ^ 63 - 1

-- now.Sub(t).Abs(): Sub saturates at the ends of int64, and Abs takes the least one to the greatest.
unfoldable pub sub_abs : ℤ → ℤ → ℕ
sub_abs now t = min (distance now t) max_duration

-- 10 * time.Second
abbrev pub announce_window : ℕ
announce_window = 10 * 1_000_000_000
