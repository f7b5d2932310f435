-- ===== src/Draw/Rng.antt =====
-- `seededRng` of packages/gate/src/draw.ts (mulberry32). A 32-bit integer is its bit pattern, a
-- number below 2^32: `>>> 0` reads a pattern as unsigned, and the other operators do not look at the
-- sign.
use Prim.Native.Nat.{bit_or, bit_xor}
use grainlify_bounty_agent.Base.{ℕ, ◌+◌, ◌*◌, ◌/◌, ◌%◌, ◌^◌}

abbrev pub two_32 : ℕ
two_32 = 4294967296

-- `x >>> k` for a numeral k.
abbrev shr : ℕ → ℕ → ℕ
shr x k = x / 2 ^ k

-- Math.imul
abbrev imul : ℕ → ℕ → ℕ
imul a b = a * b % two_32

-- The state after a call.
unfoldable pub next_state : ℕ → ℕ
next_state a = (a + 0x6d2b79f5) % two_32

abbrev first_mix : ℕ → ℕ
first_mix a = imul (bit_xor a (shr a 15)) (bit_or 1 a)

-- The sum is a double, exact, and `^` wraps it to 32 bits.
abbrev second_mix : ℕ → ℕ
second_mix t = bit_xor ((t + imul (bit_xor t (shr t 7)) (bit_or 61 t)) % two_32) t

-- The numerator of the result, over 2^32.
unfoldable pub output : ℕ → ℕ
output a = let t = second_mix (first_mix a) in bit_xor t (shr t 14) % two_32

-- The first result of the generator for a seed, over 2^32; the draw asks for no other.
unfoldable pub seeded_rng : ℕ → ℕ
unfolding next_state output
seeded_rng seed = output (next_state (seed % two_32))
