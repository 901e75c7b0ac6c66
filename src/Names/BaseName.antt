-- ===== src/Names/BaseName.antt =====
-- makeBigDataBaseName of store.go: which keys are kept, and that the names it makes differ. Joined to a
-- directory, names may still meet: filepath.Join drops a slash at the end, and a key may end in one.
use containers_storage.Prelude.{
  ℕ, Bool, ◌&&◌, ◌++◌, ltb, drop, if◌then◌else◌, ◌≡◌, ◌≢◌, refl, true, false, [], ◌∷◌, arith, Str,
  str_eq, str_eq_iff, Bool-cases, inl, inr, ap,
}
use containers_storage.Env.{Env}
use containers_storage.Names.{is_plain, unread, big_data_base_name}

unfoldable pub all_plain : Str → Bool
all_plain [] = true
all_plain (c ∷ s) = is_plain c && all_plain s

-- What follows the rune that `c` starts, before `s`.
abbrev pub after_rune : Env → ℕ → Str → Str
after_rune env c s = if ltb c 128 then s else drop (env.rune_size (c ∷ s)) (c ∷ s)

module _ (env : Env) where
  unread_plain : (s : Str) → unread env (b'=' ∷ s) ≡ s
  unfolding unread
  unread_plain s = refl

  mixed :
      (j k : Str)
      → ((s : Str) → env.base64 s ≡ [] → s ≡ [])
      → str_eq (unread env j) [] ≡ true
      → str_eq (unread env k) [] ≡ false
      → j ≢ b'=' ∷ env.base64 k
  unfolding unread
  mixed j k nonempty p q e = ground (
    arith,
    str_eq_iff (unread env j) [],
    str_eq_iff (unread env k) [],
    nonempty k (
        ground
          (arith, ap (unread env) e, unread_plain (env.base64 k), str_eq_iff (unread env j) [])),
  )

  plain_unread : (p : Str) → all_plain p ≡ true → unread env p ≡ []
  unfolding unread all_plain
  plain_unread [] h = refl
  plain_unread (c ∷ p) h = ground (arith, plain_unread p)

  unread_at :
      (p : Str) (c : ℕ) (s : Str)
      → all_plain p ≡ true
      → is_plain c ≡ false
      → unread env (p ++ c ∷ s) ≡ after_rune env c s
  unfolding unread all_plain
  unread_at [] c s h e = rw e refl
  unread_at (a ∷ p) c s h e = ground (arith, unread_at p c s)

  same_name-same_key :
      ((s t : Str) → env.base64 s ≡ env.base64 t → s ≡ t)
      → ((s : Str) → env.base64 s ≡ [] → s ≡ [])
      → (j k : Str) → big_data_base_name env j ≡ big_data_base_name env k
      → j ≡ k
  unfolding big_data_base_name
  same_name-same_key inj nonempty j k h = elim (Bool-cases (str_eq (unread env j) [])) [
    | inl p ↦ elim (Bool-cases (str_eq (unread env k) [])) [
      | inl q ↦ ground (arith, h)
      | inr q ↦ absurd (mixed j k nonempty p q (ground arith))
    ]
    | inr p ↦ elim (Bool-cases (str_eq (unread env k) [])) [
      | inl q ↦ absurd (mixed k j nonempty q p (ground arith))
      | inr q ↦ inj j k (ground arith)
    ]
  ]

  -- Where base64 is injective and encodes no text but the empty one as the empty text, different keys
  -- have different names. A key of plain bytes is its own name. A key that has, after plain bytes, one
  -- that is not plain is its own name where nothing follows the rune that starts there, and else '='
  -- with the whole key in base64.
  pub big_data_base_name-injective :
      ((s t : Str) → env.base64 s ≡ env.base64 t → s ≡ t)
      → ((s : Str) → env.base64 s ≡ [] → s ≡ [])
      → (j k p : Str) (c : ℕ) (s : Str) → j ≢ k
      → all_plain p ≡ true
      → is_plain c ≡ false
      → (big_data_base_name env j ≢ big_data_base_name env k)
        × (big_data_base_name env p ≡ p)
        × (big_data_base_name env (p ++ c ∷ s) ≡ (
            if str_eq (after_rune env c s) [] then p ++ c ∷ s else b'=' ∷ env.base64 (p ++ c ∷ s)))
  unfolding big_data_base_name str_eq
  big_data_base_name-injective inj nonempty j k p c s differ plain other = (
    λ h. differ (same_name-same_key inj nonempty j k h),
    rw (plain_unread p plain) refl,
    rw (unread_at p c s plain other) refl,
  )
