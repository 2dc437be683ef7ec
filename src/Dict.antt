-- ===== src/Dict.antt =====
-- A Go map with strings as keys: an association list in which each key stands once.
use webrana_infinimail_backe.Prelude.{
  [], true, false, none, some, inl, inr, refl, ◌∷◌, List, Option, if◌then◌else◌, ◌≡◌, Bool-cases,
}
use webrana_infinimail_backe.Text.{Bytes, bytes_eq, bytes_eq_sound, bytes_eq_refl}

abbrev pub Dict : Type 0 → Type 0
Dict A = List (Bytes × A)

bytes_eq_via : (j k n : Bytes) → bytes_eq j k ≡ true → bytes_eq j n ≡ bytes_eq k n
bytes_eq_via j k n h = rw (bytes_eq_sound j k h) refl

differ : (j k n : Bytes) → bytes_eq j k ≡ false → bytes_eq j n ≡ true → bytes_eq k n ≡ false
differ j k n e f = elim (Bool-cases (bytes_eq k n)) [
  | inl g ↦ cc (bytes_eq_refl n, rw (bytes_eq_sound j n f, bytes_eq_sound k n g) at e)
  | inr g ↦ g
]

module _ {A : Type 0} where
  -- `m[k]`, with its second result
  unfoldable pub get : Bytes → Dict A → Option A
  get k [] = none
  get k ((j, x) ∷ d) = if bytes_eq j k then some x else get k d

  -- `m[k] = v`
  unfoldable pub put : Bytes → A → Dict A → Dict A
  put k v [] = (k, v) ∷ []
  put k v ((j, x) ∷ d) = let rest = put k v d in if bytes_eq j k then (j, v) ∷ d else (j, x) ∷ rest

  -- `delete(m, k)`
  unfoldable pub delete_key : Bytes → Dict A → Dict A
  delete_key k [] = []
  delete_key k ((j, x) ∷ d) =
      let rest = delete_key k d in if bytes_eq j k then rest else (j, x) ∷ rest

  pub get-put :
      (k : Bytes) (v : A) (d : Dict A) (n : Bytes)
      → get n (put k v d) ≡ (if bytes_eq k n then some v else get n d)
  unfolding get put
  get-put k v [] n = refl
  get-put k v ((j, x) ∷ d) n = elim (Bool-cases (bytes_eq j k)) [
    | inl e ↦ rw e (
        rw (bytes_eq_via j k n e)
          (elim (Bool-cases (bytes_eq k n)) [ inl f ↦ rw f refl | inr f ↦ rw f refl ]))
    | inr e ↦ rw e (elim (Bool-cases (bytes_eq j n)) [
      | inl f ↦ rw f (rw (differ j k n e f) refl)
      | inr f ↦ rw f (get-put k v d n)
    ])
  ]

  pub get-delete :
      (k : Bytes) (d : Dict A) (n : Bytes)
      → get n (delete_key k d) ≡ (if bytes_eq k n then none else get n d)
  unfolding get delete_key
  get-delete k [] n = elim (Bool-cases (bytes_eq k n)) [ inl e ↦ rw e refl | inr e ↦ rw e refl ]
  get-delete k ((j, x) ∷ d) n = elim (Bool-cases (bytes_eq j k)) [
    | inl e ↦ rw e (
        rw (get-delete k d n) (
          rw (bytes_eq_via j k n e)
            (elim (Bool-cases (bytes_eq k n)) [ inl f ↦ rw f refl | inr f ↦ rw f refl ])))
    | inr e ↦ rw e (elim (Bool-cases (bytes_eq j n)) [
      | inl f ↦ rw f (rw (differ j k n e f) refl)
      | inr f ↦ rw f (get-delete k d n)
    ])
  ]
