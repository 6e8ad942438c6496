-- ===== src/Attestation/Hex.antt =====
-- `buffer.toString('hex')`, and its way back through `Buffer.from(text, 'hex')`.
use Prim.Native.Char.{Char, code}
use bondsman.Common.{
  ℕ, zero, suc, ◌+◌, ◌*◌, ◌/◌, ◌%◌, ◌<◌, String, true, List, [], ◌∷◌, ◌≡◌, refl, ltb, length, All,
  if◌then◌else◌, arith,
}
use bondsman.Authorization.{codes, is_hex, all_hex}
use bondsman.Watchdog.Detection.{hex_value, hex_bytes}

unfoldable pub hex_letter : ℕ → Char
hex_letter zero = "a"
hex_letter (suc zero) = "b"
hex_letter (suc (suc zero)) = "c"
hex_letter (suc (suc (suc zero))) = "d"
hex_letter (suc (suc (suc (suc zero)))) = "e"
hex_letter _ = "f"

unfoldable pub hex_digit : ℕ → Char
unfolding hex_letter
hex_digit zero = "0"
hex_digit (suc zero) = "1"
hex_digit (suc (suc zero)) = "2"
hex_digit (suc (suc (suc zero))) = "3"
hex_digit (suc (suc (suc (suc zero)))) = "4"
hex_digit (suc (suc (suc (suc (suc zero))))) = "5"
hex_digit (suc (suc (suc (suc (suc (suc zero)))))) = "6"
hex_digit (suc (suc (suc (suc (suc (suc (suc zero))))))) = "7"
hex_digit (suc (suc (suc (suc (suc (suc (suc (suc zero)))))))) = "8"
hex_digit (suc (suc (suc (suc (suc (suc (suc (suc (suc zero))))))))) = "9"
hex_digit (suc (suc (suc (suc (suc (suc (suc (suc (suc (suc n)))))))))) = hex_letter n

unfoldable pub hex_text : List ℕ → String
unfolding hex_digit
hex_text [] = ""
hex_text (b ∷ bs) = String.◌∷◌ (hex_digit (b / 16)) (String.◌∷◌ (hex_digit (b % 16)) (hex_text bs))

code-hex_letter : (n : ℕ) → n < 6 → code (hex_letter n) ≡ n + 97
unfolding hex_letter
code-hex_letter zero h = refl
code-hex_letter (suc zero) h = refl
code-hex_letter (suc (suc zero)) h = refl
code-hex_letter (suc (suc (suc zero))) h = refl
code-hex_letter (suc (suc (suc (suc zero)))) h = refl
code-hex_letter (suc (suc (suc (suc (suc zero))))) h = refl
code-hex_letter (suc (suc (suc (suc (suc (suc n)))))) h = absurd (omega arith)

code-hex_digit : (n : ℕ) → n < 16 → code (hex_digit n) ≡ (if ltb n 10 then n + 48 else n + 87)
unfolding hex_digit
code-hex_digit zero h = refl
code-hex_digit (suc zero) h = refl
code-hex_digit (suc (suc zero)) h = refl
code-hex_digit (suc (suc (suc zero))) h = refl
code-hex_digit (suc (suc (suc (suc zero)))) h = refl
code-hex_digit (suc (suc (suc (suc (suc zero))))) h = refl
code-hex_digit (suc (suc (suc (suc (suc (suc zero)))))) h = refl
code-hex_digit (suc (suc (suc (suc (suc (suc (suc zero))))))) h = refl
code-hex_digit (suc (suc (suc (suc (suc (suc (suc (suc zero)))))))) h = refl
code-hex_digit (suc (suc (suc (suc (suc (suc (suc (suc (suc zero))))))))) h = refl
code-hex_digit (suc (suc (suc (suc (suc (suc (suc (suc (suc (suc n)))))))))) h =
    ground (arith, code-hex_letter n)

hex_value-code : (n : ℕ) → n < 16 → hex_value (code (hex_digit n)) ≡ n
unfolding hex_value
hex_value-code n h = ground (arith, code-hex_digit n h)

is_hex-code : (n : ℕ) → n < 16 → is_hex (code (hex_digit n)) ≡ true
unfolding is_hex
is_hex-code n h = ground (arith, code-hex_digit n h)

-- Bytes are read back from their text, which has two digits for each.
pub hex_bytes-hex_text :
    (bs : List ℕ) → All (λ b. b < 256) bs → hex_bytes (codes (hex_text bs)) ≡ bs
unfolding hex_bytes hex_text
hex_bytes-hex_text [] h = refl
hex_bytes-hex_text (b ∷ bs) h =
    ground (arith, hex_value-code (b / 16), hex_value-code (b % 16), hex_bytes-hex_text bs h.1)

pub length-hex_text : (bs : List ℕ) → length (codes (hex_text bs)) ≡ 2 * length bs
unfolding hex_text
length-hex_text [] = refl
length-hex_text (b ∷ bs) = omega (arith, length-hex_text bs)

pub all_hex-hex_text : (bs : List ℕ) → All (λ b. b < 256) bs → all_hex (codes (hex_text bs)) ≡ true
unfolding all_hex hex_text
all_hex-hex_text [] h = refl
all_hex-hex_text (b ∷ bs) h =
    ground (arith, is_hex-code (b / 16), is_hex-code (b % 16), all_hex-hex_text bs h.1)
