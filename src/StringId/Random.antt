-- ===== src/StringId/Random.antt =====
-- The identifiers that stringid.go generates: their form, and when the loop ends.
use containers_storage.Prelude.{
  ℕ, zero, suc, ◌*◌, ◌/◌, ◌%◌, ◌<◌, ◌≡◌, refl, Bool, true, false, ◌&&◌, Option, none, some, [], ◌∷◌,
  arith, Str, length, take, ltb, is_some, Bool-cases, Option-cases, inl, inr,
}
use containers_storage.Prelude.Exec.{ok}
use containers_storage.StringId.{
  short_len, index_colon, truncate_id, hex_digit, hex, is_hex, all_hex, is_short_id, validate_id,
  parses_int, generate_id,
}

-- Every element is a byte.
unfoldable pub bytes : Str → Bool
bytes [] = true
bytes (b ∷ bs) = ltb b 256 && bytes bs

hex_digit-is_hex : (d : ℕ) → d < 16 → is_hex (hex_digit d) ≡ true
hex_digit-is_hex d h = ground arith

pub all_hex-hex : (b : Str) → bytes b ≡ true → all_hex (hex b) ≡ true
unfolding all_hex hex bytes
all_hex-hex [] h = refl
all_hex-hex (b ∷ bs) h =
    ground (arith, all_hex-hex bs, hex_digit-is_hex (b / 16), hex_digit-is_hex (b % 16))

pub length-hex : (b : Str) → length (hex b) ≡ 2 * length b
unfolding hex
length-hex [] = omega arith
length-hex (b ∷ bs) = omega (arith, length-hex bs)

index_colon-none : (s : Str) → all_hex s ≡ true → index_colon s ≡ none
unfolding index_colon all_hex
index_colon-none [] h = refl
index_colon-none (c ∷ s) h = ground (arith, index_colon-none s)

all_hex-take : (n : ℕ) (s : Str) → all_hex s ≡ true → all_hex (take n s) ≡ true
unfolding all_hex
all_hex-take zero s h = refl
all_hex-take (suc n) [] h = refl
all_hex-take (suc n) (c ∷ s) h = ground (arith, all_hex-take n s)

-- The short form of a long hexadecimal id is its first twelve digits.
truncate_id-hex :
    (s : Str) → all_hex s ≡ true → short_len < length s → truncate_id s ≡ take short_len s
unfolding truncate_id
truncate_id-hex s h l = ground (arith, index_colon-none s)

length-take_le : (n : ℕ) (s : Str) → n < length s → length (take n s) ≡ n
length-take_le zero s h = refl
length-take_le (suc n) [] h = absurd (omega arith)
length-take_le (suc n) (c ∷ s) h = omega (arith, length-take_le n s)

module _ {W : Type 0} (read : W → Option Str × W) where
  -- The source after k draws.
  unfoldable pub draws : ℕ → W → W
  draws zero w = w
  draws (suc k) w = draws k (read w).1

  pub generated :
      ((w : W) (b : Str) → (read w).0 ≡ some b → (length b ≡ 32) × (bytes b ≡ true))
      → (fuel : ℕ) (w : W) (id : Str) → (generate_id read fuel w).0 ≡ ok id
      → (all_hex id ≡ true) × (length id ≡ 64) × (parses_int (truncate_id id) ≡ false)
  unfolding generate_id
  generated full zero w id h = cc
  generated full (suc fuel) w id h = elim (Option-cases (read w).0) [
    | inl e ↦ ground arith
    | inr (b, e) ↦
        let (len, ok_bytes) = full w b e in
        elim (Bool-cases (parses_int (truncate_id (hex b)))) [
          | inl again ↦ generated full fuel (read w).1 id (ground (arith, h))
          | inr done ↦
              let same : hex b ≡ id = ground (arith, h) in
              ground (arith, same, done, all_hex-hex b ok_bytes, length-hex b)
        ]
  ]

  -- Where the source fills its buffer with 32 bytes, a generated id passes ValidateID, its short form is
  -- a short id, made of its first twelve digits, and does not parse as a number.
  pub generate_id_valid :
      ((w : W) (b : Str) → (read w).0 ≡ some b → (length b ≡ 32) × (bytes b ≡ true))
      → (fuel : ℕ) (w : W) (id : Str) → (generate_id read fuel w).0 ≡ ok id
      → (validate_id id ≡ true)
        × (truncate_id id ≡ take short_len id)
        × (is_short_id (truncate_id id) ≡ true)
        × (parses_int (truncate_id id) ≡ false)
  unfolding validate_id is_short_id
  generate_id_valid full fuel w id h =
      let (all, len, not_number) = generated full fuel w id h in
      let short = truncate_id-hex id all (omega arith) in
      (
        ground arith,
        short,
        rw short (ground (arith, all_hex-take short_len id, length-take_le short_len id)),
        not_number,
      )

  -- Where the source does not fail and its draw number k is no number in short form, fuel beyond k is
  -- enough: an id is generated.
  pub generate_id_total :
      ((w : W) → is_some (read w).0 ≡ true)
      → (k fuel : ℕ) (w : W) (b : Str) → k < fuel
      → (read (draws k w)).0 ≡ some b
      → parses_int (truncate_id (hex b)) ≡ false
      → (id : Str) × ((generate_id read fuel w).0 ≡ ok id)
  unfolding generate_id draws
  generate_id_total fills k zero w b l e n = elim l [ ]
  generate_id_total fills zero (suc fuel) w b l e n = (hex b, ground (arith, e, n))
  generate_id_total fills (suc k) (suc fuel) w b l e n = elim (Option-cases (read w).0) [
    | inl f ↦ ground (arith, fills w)
    | inr (a, f) ↦ elim (Bool-cases (parses_int (truncate_id (hex a)))) [
      | inl again ↦
          let (id, g) = generate_id_total fills k fuel (read w).1 b (omega arith) e n in
          (id, ground (arith, g))
      | inr done ↦ (hex a, ground arith)
    ]
  ]
