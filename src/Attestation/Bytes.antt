-- ===== src/Attestation/Bytes.antt =====
-- Numbers as eight bytes, the lowest first: `writeBigUInt64LE`.
use bondsman.Common.{
  ℕ, zero, suc, ◌+◌, ◌*◌, ◌/◌, ◌%◌, ◌^◌, ◌<◌, Option, none, some, List, [], ◌∷◌, ◌≡◌, refl, ltb,
  length, All, if◌then◌else◌, arith, ltb→lt, Bool-cases, inl, inr,
}

pub le_bytes : ℕ → ℕ → List ℕ
le_bytes zero v = []
le_bytes (suc n) v = (v % 256) ∷ le_bytes n (v / 256)

-- A number that does not fit throws.
unfoldable pub u64le : ℕ → Option (List ℕ)
unfolding le_bytes
u64le value = if ltb value (2 ^ 64) then some (le_bytes 8 value) else none

-- The number that bytes stand for.
pub le_value : List ℕ → ℕ
le_value [] = 0
le_value (b ∷ bs) = b + 256 * le_value bs

-- 256 ^ n
abbrev room : ℕ → ℕ
room zero = 1
room (suc n) = 256 * room n

le_value-le_bytes : (n v : ℕ) → v < room n → le_value (le_bytes n v) ≡ v
unfolding le_value le_bytes
le_value-le_bytes zero v h = omega arith
le_value-le_bytes (suc n) v h = omega (arith, le_value-le_bytes n (v / 256) (omega arith))

length-le_bytes : (n v : ℕ) → length (le_bytes n v) ≡ n
unfolding le_bytes
length-le_bytes zero v = refl
length-le_bytes (suc n) v = omega (arith, length-le_bytes n (v / 256))

le_bytes_small : (n v : ℕ) → All (λ b. b < 256) (le_bytes n v)
unfolding le_bytes
le_bytes_small zero v = tt
le_bytes_small (suc n) v = (omega arith, le_bytes_small n (v / 256))

-- A number that fits is written as eight bytes from which it can be read back.
pub u64le_lem :
    (v : ℕ) (bytes : List ℕ)
    → u64le v ≡ some bytes
    → (le_value bytes ≡ v) × (length bytes ≡ 8) × All (λ b. b < 256) bytes
unfolding u64le
u64le_lem v bytes h = elim (Bool-cases (ltb v (2 ^ 64))) [
  | inl fits ↦
      let same : bytes ≡ le_bytes 8 v = ground arith in
      rw same
        (le_value-le_bytes 8 v (ltb→lt v (2 ^ 64) fits), length-le_bytes 8 v, le_bytes_small 8 v)
  | inr wide ↦ absurd (ground arith)
]
