-- ===== src/Math.antt =====
-- rumcake/src/math.rs: the integer helpers of the animations.
use rumcake.Prelude.{ℕ, ◌+◌, ◌*◌, ◌/◌, ◌%◌}

-- The product is at most 255 * 256, so the `u16` does not wrap.
unfoldable pub scale : ℕ → ℕ → ℕ
scale x d = x * (1 + d) % 65536 / 256 % 256
