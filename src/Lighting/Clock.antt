-- ===== src/Lighting/Clock.antt =====
-- The time of an animation: `tick` in the animations.rs files under rumcake/src/underglow and
-- rumcake/src/backlight.
use rumcake.Prelude.{
  ℕ, ◌+◌, ◌*◌, ◌/◌, ◌%◌, ◌^◌, ◌≤◌, ◌<◌, ◌≡◌, ◌⊎◌, inl, inr, refl, ok, panic, arith, ◌==◌, false,
}
use native.Mathlib.Nat.{le-div_iff_mul-le, div-eq_of_lt, div-mul-le_self, mul-div-le, add-mul}
use native.Mathlib.Decide.{dec_lt}
use rumcake.Lighting.{animation_time}

-- How far a frame moves an animation, for a speed.
abbrev pub step_of : ℕ → ℕ
step_of speed = speed + 128 + speed / 2

-- For at least one and less than 2 ^ 24 frames in a second: computing the time of an animation
-- panics exactly if the frames of a second, times 256, are fewer than the step of the speed. With two
-- frames or more they never are.
animation_time_lem :
    (tick fps speed : ℕ)
    → fps < 2 ^ 24
    → speed < 256
    → ((step_of speed ≤ fps * 256) × ((t : ℕ) × (animation_time tick fps speed ≡ ok t)))
      ⊎ ((fps < 2) × (fps * 256 < step_of speed) × (animation_time tick fps speed ≡ panic))
unfolding animation_time
animation_time_lem tick fps speed hf hs =
    let whole : fps * 256 % 2 ^ 32 ≡ fps * 256 = omega arith in
    elim (dec_lt (fps * 256) (step_of speed)) [
      | yes few ↦
          let none_left : fps * 256 / step_of speed ≡ 0 = div-eq_of_lt few in
          inr (omega arith, few, rw (whole, none_left))
      | no enough ↦
          let some_left : 1 ≤ fps * 256 / step_of speed =
            (le-div_iff_mul-le {k = step_of speed} {x = 1} {y = fps * 256} (omega arith)).1
              (omega arith) in
          let nonzero : (fps * 256 / step_of speed == 0) ≡ false = ground arith in
          inl (
            omega arith,
            (tick * 256 % 2 ^ 32 / (fps * 256 / step_of speed), rw (whole, nonzero) refl),
          )
    ]

-- The quotient of a sum, where the second part has room for `n` divisors.
quotient_advances : (a b d n : ℕ) → 0 < d → n * d ≤ b → a / d + n ≤ (a + b) / d
quotient_advances a b d n positive room =
    (le-div_iff_mul-le {k = d} {x = a / d + n} {y = a + b} positive).1
      (omega (arith, add-mul (a / d) n d, div-mul-le_self a d, room))

-- In one second, which is `fps` frames, the time of an animation advances by at least the step of
-- the speed.
pub animation_time_advances :
    (tick fps speed : ℕ)
    → 2 ≤ fps
    → fps < 2 ^ 24
    → speed < 256
    → tick + fps < 2 ^ 24
    → (time time' : ℕ) × (animation_time tick fps speed ≡ ok time)
      × (animation_time (tick + fps) fps speed ≡ ok time')
      × (time + step_of speed ≤ time')
unfolding animation_time
animation_time_advances tick fps speed two few byte early =
    let divisor = fps * 256 / step_of speed in
    let whole : fps * 256 % 2 ^ 32 ≡ fps * 256 = omega arith in
    let now : tick * 256 % 2 ^ 32 ≡ tick * 256 = omega arith in
    let later : (tick + fps) * 256 % 2 ^ 32 ≡ tick * 256 + fps * 256 = omega arith in
    let positive : 1 ≤ divisor =
      (le-div_iff_mul-le {k = step_of speed} {x = 1} {y = fps * 256} (omega arith)).1
        (omega arith) in
    let nonzero : (divisor == 0) ≡ false = ground arith in
    (
      tick * 256 / divisor,
      (tick * 256 + fps * 256) / divisor,
      rw (whole, nonzero, now) refl,
      rw (whole, nonzero, later) refl,
      quotient_advances (tick * 256) (fps * 256) divisor (step_of speed) positive
          (mul-div-le (fps * 256) (step_of speed)),
    )
