-- ===== src/Prelude/Maps.antt =====
-- Maps as functions, changed at one key.
use Prim.Native.String.{String}
use text.Mathlib.Text.{◌==◌ as str_eq}
use text.Mathlib.TextEquality.{eq_iff}
use foundationdb_effect.Prelude.{
  ℕ, ◌≡◌, ◌≢◌, refl, inl, inr, arith, ◌==◌, if◌then◌else◌, Bool-cases,
}

abbrev pub update {ℓ} : {A : Type ℓ} → (ℕ → A) → ℕ → A → ℕ → A
update f k v j = if k == j then v else f j

abbrev pub update_text {ℓ} : {A : Type ℓ} → (String → A) → String → A → String → A
update_text f k v j = if str_eq k j then v else f j

pub update_self {ℓ} : {A : Type ℓ} (f : ℕ → A) (k : ℕ) (v : A) → update f k v k ≡ v
update_self f k v = ground arith

pub update_other {ℓ} : {A : Type ℓ} (f : ℕ → A) (k j : ℕ) (v : A) → j ≢ k → update f k v j ≡ f j
update_other f k j v n = ground arith

pub update_text_self {ℓ} :
    {A : Type ℓ} (f : String → A) (k : String) (v : A) → update_text f k v k ≡ v
update_text_self f k v = rw (eq_iff k k).1 refl

pub update_text_other {ℓ} :
    {A : Type ℓ} (f : String → A) (k j : String) (v : A) → k ≢ j → update_text f k v j ≡ f j
update_text_other f k j v n = elim (Bool-cases (str_eq k j)) [
  | inl same ↦ absurd (n ((eq_iff k j).0 same))
  | inr other ↦ rw other
]
