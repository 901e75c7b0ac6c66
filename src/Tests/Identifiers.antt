-- ===== src/Tests/Identifiers.antt =====
-- Identifiers, names and file names at concrete inputs.
use containers_storage.Prelude.{
  ◌≢◌, [], ◌++◌, str_eq, str_eq_iff, if◌then◌else◌, ℕ, zero, suc, ◌≡◌, refl, true, Option, some,
  ◌∷◌, arith, Str, codes, length, is_some,
}
use containers_storage.Prelude.Exec.{ok}
use containers_storage.StringId.{generate_id, hex, truncate_id, parses_int, validate_id}
use containers_storage.StringId.Random.{bytes, draws, generate_id_valid, generate_id_total}
use containers_storage.Names.BaseName.{all_plain, big_data_base_name-injective}
use containers_storage.Names.{is_plain, big_data_base_name}
use containers_storage.Tests.Platforms.{buffer, demo_env}

-- A source whose first draw is a number in short form, and whose later draws are not.
abbrev read : ℕ → Option Str × ℕ
read zero = (some (buffer 17), 1)
read (suc n) = (some (buffer 170), suc (suc n))

read_full : (w : ℕ) (b : Str) → (read w).0 ≡ some b → (length b ≡ 32) × (bytes b ≡ true)
unfolding bytes
read_full zero b e = ground arith
read_full (suc n) b e = ground arith

read_fills : (w : ℕ) → is_some (read w).0 ≡ true
read_fills zero = refl
read_fills (suc n) = refl

second : Str
second = hex (buffer 170)

second_generated : (generate_id read 2 0).0 ≡ ok second
unfolding second generate_id hex truncate_id parses_int
second_generated = refl

generate_id_valid_example : validate_id second ≡ true
generate_id_valid_example = (generate_id_valid read read_full 2 0 second second_generated).0

generate_id_total_example : (id : Str) × ((generate_id read 2 0).0 ≡ ok id)
unfolding draws hex truncate_id parses_int
generate_id_total_example =
    generate_id_total read read_fills 1 2 0 (buffer 170) (omega arith) refl refl

same_tail : (s t : Str) → b'x' ∷ s ≡ b'x' ∷ t → s ≡ t
same_tail s t e = cc

keys_differ : codes "a/b" ≢ codes "a/c"
unfolding str_eq
keys_differ e = ground (arith, str_eq_iff (codes "a/b") (codes "a/c"), e)

big_data_base_name-injective_example :
    (big_data_base_name demo_env (codes "a/b") ≢ big_data_base_name demo_env (codes "a/c"))
    × (big_data_base_name demo_env (codes "ab") ≡ codes "ab")
    × (big_data_base_name demo_env (codes "ab" ++ b'/' ∷ codes "d") ≡ (
        if str_eq (codes "d") []
        then codes "ab" ++ b'/' ∷ codes "d"
        else b'=' ∷ demo_env.base64 (codes "ab" ++ b'/' ∷ codes "d")))
unfolding all_plain is_plain
big_data_base_name-injective_example =
    big_data_base_name-injective demo_env same_tail (λ s e. cc) (codes "a/b") (codes "a/c")
      (codes "ab") b'/' (codes "d") keys_differ refl refl
