-- ===== src/Generator/Mulberry.antt =====
-- apps/demo-domain/event-generator/src/generator.ts: `createRng` with a seed. A number of 32 bits is its residue below
-- 2 ^ 32, and a random number is kept as its numerator over 2 ^ 32.
use native.Mathlib.Nat.{mul-le-mul_right}
use modular_runtime.Shared.{ℕ, zero, suc, ◌+◌, ◌*◌, ◌/◌, ◌%◌, ◌^◌, ◌<◌, max, arith}

abbrev pub two_32 : ℕ
two_32 = 4294967296

-- A random number
abbrev pub Numerator : Type 0
Numerator = (u : ℕ) × (u < two_32)

-- `a ^ b` and `a | b`, for so many bits
unfoldable pub xor : ℕ → ℕ → ℕ → ℕ
xor zero a b = 0
xor (suc bits) a b = (a + b) % 2 + 2 * xor bits (a / 2) (b / 2)

unfoldable pub or : ℕ → ℕ → ℕ → ℕ
or zero a b = 0
or (suc bits) a b = max (a % 2) (b % 2) + 2 * or bits (a / 2) (b / 2)

unfoldable pub imul : ℕ → ℕ → ℕ
imul a b = a * b % two_32

unfoldable pub create_rng : ℕ → ℕ
create_rng seed = seed % two_32

-- The second number is the next value.
unfoldable pub next_random : ℕ → ℕ × ℕ
next_random value =
    let added = (value + 1831565813) % two_32 in
    let t = imul (xor 32 added (added / 32768)) (or 32 1 added) in
    let u = xor 32 t ((t + imul (xor 32 t (t / 128)) (or 32 61 t)) % two_32) in
    (xor 32 u (u / 16384), added)

-- `Math.floor(rng() * n)`
unfoldable pub scaled_random : Numerator → ℕ → ℕ
scaled_random v n = v.0 * n / two_32

xor-below : (bits a b : ℕ) → xor bits a b < 2 ^ bits
unfolding xor
xor-below zero a b = omega arith
xor-below (suc bits) a b = omega (arith, xor-below bits (a / 2) (b / 2))

-- Every value of the generator, divided by 2 ^ 32, is below 1.
pub random-below : (value : ℕ) → (next_random value).0 < two_32
unfolding next_random
random-below value = xor-below 32 _ _

-- The generator with its bound
unfoldable pub next_numerator : ℕ → Numerator × ℕ
next_numerator value = (((next_random value).0, random-below value), (next_random value).1)

-- The random number is below 1, so the index is below n.
pub scaled_random-below : (v : Numerator) (n : ℕ) → 0 < n → scaled_random v n < n
unfolding scaled_random
scaled_random-below (u, below) n h = omega (arith, h, mul-le-mul_right n below)
