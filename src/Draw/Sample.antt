-- ===== src/Draw/Sample.antt =====
-- Numbers in units of 1/65536, on which the weights of packages/gate/src/draw.ts are exact: an instance of
-- its arithmetic for the examples.
use grainlify_bounty_agent.Base.{ℕ, zero, suc, ◌+◌, ◌-◌, ◌*◌, ◌/◌, none, leb}
use grainlify_bounty_agent.Draw.Run.{Floats}

pub power : ℕ → ℕ → ℕ
power b zero = 65536
power b (suc n) = power b n * b / 65536

abbrev pub dyadic : Floats
dyadic = record {
  Float = ℕ;
  number = λ s. none;
  zero_point = 0;
  quarter = 16384;
  half = 32768;
  one_point = 65536;
  one_half = 98304;
  two_point = 131072;
  add = λ a b. a + b;
  sub = λ a b. a - b;
  mul = λ a b. a * b / 65536;
  pow = power;
  over_two_32 = λ n. n / 65536;
  at_most_zero = λ a. leb a 0;
}
