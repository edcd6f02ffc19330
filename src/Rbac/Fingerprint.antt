-- ===== src/Rbac/Fingerprint.antt =====
-- `permissionFingerprint` of packages/business-logic/src/rbac/matrix.ts: FNV-1a on 32 bits, in hexadecimal.
use Prim.Native.Nat.{bit_xor}
use dukaano.Base.{
  All, Bool, Bool-cases, List, [], arith, false, if◌then◌else◌, inl, inr, leb, length,
  length-append, length-replicate, ltb, map, refl, replicate, suc, true, zero, ℕ, ◌%◌, ◌&&◌, ◌*◌,
  ◌++◌, ◌+◌, ◌-◌, ◌/◌, ◌<◌, ◌==◌, ◌^◌, ◌||◌, ◌∷◌, ◌≡◌, ◌≤◌,
}
use dukaano.Base.Int.{negsuc, pos, ℤ}
use dukaano.Base.Sort.{sort_by}
use dukaano.Base.Text.{Text, codes}
use dukaano.Rbac.{Permission}
use native.Mathlib.Nat.{pow-suc}

-- `a < b` of two texts, code unit by code unit
unfoldable pub text_below : Text → Text → Bool
text_below [] [] = false
text_below [] (y ∷ t) = true
text_below (x ∷ s) [] = false
text_below (x ∷ s) (y ∷ t) = if x == y then text_below s t else ltb x y

-- The order of `sort()`.
unfoldable pub compare_text : Text → Text → ℤ
unfolding text_below
compare_text s t = if text_below s t then negsuc 0 else if text_below t s then pos 1 else pos 0

-- `parts.join(separator)`
unfoldable pub join : Text → List Text → Text
join separator [] = []
join separator (s ∷ []) = s
join separator (s ∷ t ∷ ts) = s ++ separator ++ join separator (t ∷ ts)

abbrev pub fnv_offset : ℕ
fnv_offset = 2_166_136_261

abbrev pub fnv_prime : ℕ
fnv_prime = 16_777_619

-- `hash ^= code; hash = Math.imul(hash, 0x01000193) >>> 0`. The sign that the 32 bits have in between
-- is gone with the last of the three operations.
unfoldable pub fnv_from : ℕ → Text → ℕ
fnv_from hash [] = hash
fnv_from hash (c ∷ cs) = fnv_from (bit_xor hash c * fnv_prime % 2 ^ 32) cs

abbrev pub hex_digit : ℕ → ℕ
hex_digit d = if ltb d 10 then b'0' + d else b'a' + (d - 10)

-- `n.toString(16)`, with fuel for the divisions: a number is more than any of its sixteenth parts.
unfoldable pub hex_from : ℕ → ℕ → Text
hex_from zero n = []
hex_from (suc fuel) n =
    let front = hex_from fuel (n / 16) in
    if ltb n 16 then hex_digit n ∷ [] else front ++ hex_digit (n % 16) ∷ []

unfoldable pub to_hex : ℕ → Text
unfolding hex_from
to_hex n = hex_from (suc n) n

-- `s.padStart(size, c)`
unfoldable pub pad_start : ℕ → ℕ → Text → Text
pad_start size c s = replicate (size - length s) c ++ s

unfoldable pub permission_fingerprint : List Permission → Text
unfolding compare_text join fnv_from to_hex pad_start sort_by
permission_fingerprint held =
    let canonical = join (codes ",") (sort_by compare_text (map codes held)) in
    pad_start 8 b'0' (to_hex (fnv_from fnv_offset canonical))

abbrev pub is_hex : ℕ → Bool
is_hex c = (leb b'0' c && leb c b'9') || (leb b'a' c && leb c b'f')

fnv_from-lt : (hash : ℕ) (s : Text) → hash < 2 ^ 32 → fnv_from hash s < 2 ^ 32
unfolding fnv_from
fnv_from-lt hash [] h = h
fnv_from-lt hash (c ∷ cs) h = fnv_from-lt (bit_xor hash c * fnv_prime % 2 ^ 32) cs (omega arith)

hex_digit_lem : (d : ℕ) → d < 16 → is_hex (hex_digit d) ≡ true
hex_digit_lem d h = ground arith

All-append_hex :
    (s t : Text)
    → All (λ c. is_hex c ≡ true) s
    → All (λ c. is_hex c ≡ true) t
    → All (λ c. is_hex c ≡ true) (s ++ t)
All-append_hex [] t h k = k
All-append_hex (c ∷ s) t h k = (h.0, All-append_hex s t h.1 k)

All-hex_from : (fuel n : ℕ) → All (λ c. is_hex c ≡ true) (hex_from fuel n)
unfolding hex_from
All-hex_from zero n = tt
All-hex_from (suc fuel) n = elim (Bool-cases (ltb n 16)) [
  | inl small ↦ rw small (hex_digit_lem n (ground arith), tt)
  | inr large ↦ rw large (
      All-append_hex (hex_from fuel (n / 16)) (hex_digit (n % 16) ∷ []) (All-hex_from fuel (n / 16))
        (hex_digit_lem (n % 16) (omega arith), tt))
]

All-replicate_hex : (n : ℕ) → All (λ c. is_hex c ≡ true) (replicate n b'0')
All-replicate_hex zero = tt
All-replicate_hex (suc n) = (refl, All-replicate_hex n)

-- A number below 16 ^ k has at most k digits.
length-hex_from : (k fuel n : ℕ) → n < 16 ^ suc k → length (hex_from fuel n) ≤ suc k
unfolding hex_from
length-hex_from k zero n h = omega arith
length-hex_from zero (suc fuel) n h =
    let small : ltb n 16 ≡ true = ground arith in rw small (omega arith)
length-hex_from (suc k) (suc fuel) n h = elim (Bool-cases (ltb n 16)) [
  | inl small ↦ rw small (omega arith)
  | inr large ↦
      let bound : n < 16 ^ suc k * 16 = rw pow-suc at h in
      rw large (
        rw (length-append (hex_from fuel (n / 16)) (hex_digit (n % 16) ∷ []))
          (omega (arith, length-hex_from k fuel (n / 16) (omega arith))))
]

-- A fingerprint is always eight digits of hexadecimal, for every set of permissions.
pub permission_fingerprint_format :
    (held : List Permission)
    → (length (permission_fingerprint held) ≡ 8)
      × All (λ c. is_hex c ≡ true) (permission_fingerprint held)
unfolding permission_fingerprint pad_start to_hex
permission_fingerprint_format held =
    let n = fnv_from fnv_offset (join (codes ",") (sort_by compare_text (map codes held))) in
    let hex = hex_from (suc n) n in
    let short = length-hex_from 7 (suc n) n (
      fnv_from-lt fnv_offset (join (codes ",") (sort_by compare_text (map codes held)))
        (ground arith)) in
    (
      rw
          (
            length-append (replicate (8 - length hex) b'0') hex,
            length-replicate {A = ℕ} (8 - length hex) b'0',
          )
          (omega (arith, short)),
      All-append_hex (replicate (8 - length hex) b'0') hex (All-replicate_hex (8 - length hex))
          (All-hex_from (suc n) n),
    )
