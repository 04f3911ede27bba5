-- ===== src/Queue/Freed.antt =====
-- The recovery of expired locks, and the claims.
use Prim.Native.String.{String}
use text.Mathlib.Text.{◌==◌ as str_eq}
use foundationdb_effect.Prelude.Maps.{update_text}
use foundationdb_effect.Prelude.{
  ℕ, ◌≡◌, refl, Bool, ◌||◌, Option, none, some, List, [], ◌∷◌, leb, Option-cases, Bool-cases, inl,
  inr,
}
use foundationdb_effect.Prelude.Int.{ℤ}
use foundationdb_effect.Queue.Index.{Row, Index}
use foundationdb_effect.Queue.State.{Metadata, Queue, remove_lock}
use foundationdb_effect.Queue.Claim.{
  is_expired, release_holder, recover_entry, recover_row, recover_rows,
}

module _ {Rows : Type 0} (index : Index Rows) where
  update_text-none :
      (f : String → Option ℕ) (k j : String) → f j ≡ none → update_text f k none j ≡ none
  update_text-none f k j e = elim (Bool-cases (str_eq k j)) [ inl y ↦ rw y refl | inr n ↦ rw n e ]

  release_holder-claims :
      (o : Option String) (q : Queue Rows) (c : String)
      → q.claims c ≡ none
      → (release_holder o q).claims c ≡ none
  release_holder-claims none q c free = free
  release_holder-claims (some holder) q c free = update_text-none q.claims holder c free

  recover_entry-claims :
      (now max_attempts : ℕ) (row : Row) (entry : Metadata) (q : Queue Rows) (c : String)
      → q.claims c ≡ none
      → (recover_entry index now max_attempts row entry q).0.claims c ≡ none
  unfolding recover_entry
  recover_entry-claims now max_attempts row entry q c free =
      let kept =
        release_holder-claims entry.acquired_by (remove_lock index row.time row.sequence q) c
          free in
      elim (Bool-cases (leb max_attempts entry.attempts)) [
        | inl tired ↦ rw (tired, recover_entry) kept
        | inr fit ↦ rw (fit, recover_entry) kept
      ]

  recover_row-claims :
      (now max_attempts : ℕ) (b : ℤ) (row : Row) (q : Queue Rows) (c : String)
      → q.claims c ≡ none
      → (recover_row index now b max_attempts row q).0.claims c ≡ none
  unfolding recover_row
  recover_row-claims now max_attempts b row q c free = elim (Option-cases (q.metadata row.value)) [
    | inl gone ↦ rw (gone, recover_row) free
    | inr (m, e) ↦ elim (Bool-cases (is_expired b m)) [
      | inl old ↦ rw (e, old, recover_row) (recover_entry-claims now max_attempts row m q c free)
      | inr live ↦ rw (e, live, recover_row) free
    ]
  ]

  pub recover_rows-claims :
      (now max_attempts : ℕ) (b : ℤ) (rows : List Row) (q : Queue Rows) (again : Bool) (c : String)
      → q.claims c ≡ none
      → (recover_rows index now b max_attempts rows q again).0.claims c ≡ none
  unfolding recover_rows
  recover_rows-claims now max_attempts b [] q again c free = free
  recover_rows-claims now max_attempts b (row ∷ rows) q again c free =
      recover_rows-claims now max_attempts b rows (recover_row index now b max_attempts row q).0
        (again || (recover_row index now b max_attempts row q).1) c
        (recover_row-claims now max_attempts b row q c free)
