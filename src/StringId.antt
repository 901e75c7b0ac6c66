-- ===== src/StringId.antt =====
-- pkg/stringid/stringid.go: random identifiers and their short forms.
pub mod Random
use containers_storage.Prelude.{
  ℕ, zero, suc, ◌+◌, ◌-◌, ◌*◌, ◌/◌, ◌%◌, ◌^◌, Bool, true, false, ◌&&◌, ◌||◌, Option, none, some,
  List, [], ◌∷◌, Str, length, take, ltb, leb, ◌==◌, if◌then◌else◌,
}
use containers_storage.Prelude.Exec.{Result, ok, panics, diverges, Exec}

abbrev pub short_len : ℕ
short_len = 12

-- strings.IndexRune(s, ':')
unfoldable pub index_colon : Str → Option ℕ
index_colon [] = none
index_colon (c ∷ s) =
    if c == b':' then some 0 else elim (index_colon s) [ none ↦ none | some i ↦ some (suc i) ]

unfoldable pub after : ℕ → Str → Str
after zero s = s
after (suc n) [] = []
after (suc n) (c ∷ s) = after n s

unfoldable pub truncate_id : Str → Str
unfolding index_colon after
truncate_id id =
    let id' : Str = elim (index_colon id) [ none ↦ id | some i ↦ after (i + 1) id ] in
    if ltb short_len (length id') then take short_len id' else id'

-- hex.EncodeToString
abbrev pub hex_digit : ℕ → ℕ
hex_digit d = if ltb d 10 then d + b'0' else d - 10 + b'a'

unfoldable pub hex : Str → Str
hex [] = []
hex (b ∷ bs) = hex_digit (b / 16) ∷ hex_digit (b % 16) ∷ hex bs

abbrev pub is_hex : ℕ → Bool
is_hex c = (leb b'a' c && leb c b'f') || (leb b'0' c && leb c b'9')

unfoldable pub all_hex : Str → Bool
all_hex [] = true
all_hex (c ∷ s) = is_hex c && all_hex s

-- ^[a-f0-9]{12}$ and ^[a-f0-9]{64}$
unfoldable pub is_short_id : Str → Bool
unfolding all_hex
is_short_id id = length id == short_len && all_hex id

unfoldable pub validate_id : Str → Bool
unfolding all_hex
validate_id id = length id == 64 && all_hex id

-- strconv.ParseInt(s, 10, 64) succeeds: an optional sign, digits, and a value that fits.
unfoldable pub decimal : ℕ → Str → Option ℕ
decimal n [] = some n
decimal n (c ∷ s) =
    let rest = decimal (n * 10 + (c - b'0')) s in if leb b'0' c && leb c b'9' then rest else none

unfoldable pub fits : ℕ → Option ℕ → Bool
fits bound none = false
fits bound (some n) = ltb n bound

unfoldable pub parses_int : Str → Bool
unfolding decimal fits
parses_int [] = false
parses_int (c ∷ []) = leb b'0' c && leb c b'9'
parses_int (c ∷ d ∷ s) =
    if c == b'-'
    then fits (2 ^ 63 + 1) (decimal 0 (d ∷ s))
    else if c == b'+'
    then fits (2 ^ 63) (decimal 0 (d ∷ s))
    else fits (2 ^ 63) (decimal 0 (c ∷ d ∷ s))

module _ {W : Type 0} (read : W → Option Str × W) where
  -- `read` fills a buffer of 32 bytes from the source of randomness. The loop draws again while the
  -- short form is a number; its rounds are bounded by fuel.
  unfoldable pub generate_id : ℕ → Exec W Str
  generate_id zero w = (diverges, w)
  generate_id (suc fuel) w =
      let (b, w') = read w in
      elim b [
        | none ↦ (panics, w')
        | some b' ↦
            let again = generate_id fuel w' in
            if parses_int (truncate_id (hex b')) then again else (ok (hex b'), w')
      ]
