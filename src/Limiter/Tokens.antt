-- ===== src/Limiter/Tokens.antt =====
-- `tokenBucket`: the stored bucket stays within the limit.
use native.Mathlib.Omega.{div_any}
use foundationdb_effect.Prelude.{
  true≢false, ℕ, ◌+◌, ◌-◌, ◌*◌, ◌/◌, ◌≤◌, ◌<◌, ◌≡◌, sym, ap, ◌∙◌, refl, Bool, true, false, ◌||◌,
  not, Bool-cases, inl, inr, Option, none, some, arith, ◌==◌, if◌then◌else◌,
}
use foundationdb_effect.Prelude.Int.{ℤ, pos, negsuc, pos_part, neg_part, ltb_ℤ}
use foundationdb_effect.Limiter.Bucket.{
  TokenBucket, BucketOptions, add_tokens, take_tokens, min_ℤ, current_bucket, tokens_to_add,
  refilled, topped, is_none, token_bucket,
}

-- At most the limit, refilled at no later time, and not overdrawn unless that is allowed.
abbrev pub Bounded : BucketOptions → ℕ → TokenBucket → Type 0
Bounded options now bucket =
    (pos_part bucket.tokens ≤ options.limit)
    × (bucket.last_refill ≤ now)
    × (options.allow_overflow ≡ false → neg_part bucket.tokens ≡ 0)

abbrev pub StoredBounded : BucketOptions → ℕ → Option TokenBucket → Type 0
StoredBounded options now none = Unit
StoredBounded options now (some bucket) = Bounded options now bucket

current_bucket-Bounded :
    (now : ℕ) (options : BucketOptions) (stored : Option TokenBucket)
    → StoredBounded options now stored
    → Bounded options now (current_bucket now options stored)
current_bucket-Bounded now options none b = (omega arith, omega arith, λ e. refl)
current_bucket-Bounded now options (some bucket) b = b

-- A refill does not reach beyond the present.
refill_time : (now last rate : ℕ) → last ≤ now → last + (now - last) / rate * rate ≤ now
refill_time now last rate l = omega (arith, div_any (now - last) rate)

min_ℤ_limit : (limit : ℕ) (a : ℤ) → pos_part (min_ℤ (pos limit) a) ≤ limit
min_ℤ_limit limit (pos n) = ground arith
min_ℤ_limit limit (negsuc n) = ground arith

min_ℤ_neg :
    (limit n : ℕ) (a : ℤ) → neg_part a ≡ 0 → neg_part (min_ℤ (pos limit) (add_tokens a n)) ≡ 0
min_ℤ_neg limit n (pos k) e = ground arith
min_ℤ_neg limit n (negsuc k) e = absurd (omega arith)

refilled-Bounded :
    (now : ℕ) (options : BucketOptions) (bucket : TokenBucket)
    → Bounded options now bucket
    → Bounded options now (refilled now options bucket)
refilled-Bounded now options bucket (within, past, full) =
    let added = tokens_to_add now options bucket in
    elim (Bool-cases (added == 0)) [
      | inl same ↦ rw same (within, past, full)
      | inr more ↦ rw more (
        min_ℤ_limit options.limit (add_tokens bucket.tokens added),
        refill_time now bucket.last_refill options.refill_rate past,
        λ e. min_ℤ_neg options.limit added bucket.tokens (full e),
      )
    ]

topped-Bounded :
    (now : ℕ) (options : BucketOptions) (bucket : TokenBucket)
    → Bounded options now bucket
    → Bounded options now (topped now options bucket)
topped-Bounded now options bucket (within, past, full) =
    elim (Bool-cases (ltb_ℤ bucket.tokens (pos options.limit))) [
      | inl short ↦ rw short (within, past, full)
      | inr whole ↦ rw whole (within, omega arith, full)
    ]

take_tokens_pos : (a : ℤ) (n limit : ℕ) → pos_part a ≤ limit → pos_part (take_tokens a n) ≤ limit
take_tokens_pos (pos k) n limit l = ground arith
take_tokens_pos (negsuc k) n limit l = ground arith

not_negative : (a : ℤ) → ltb_ℤ a (pos 0) ≡ false → neg_part a ≡ 0
not_negative (pos n) e = refl
not_negative (negsuc n) e = absurd (ground arith)

granted :
    (allow_overflow : Bool) (remaining : ℤ)
    → (allow_overflow || not (ltb_ℤ remaining (pos 0))) ≡ true
    → allow_overflow ≡ false
    → neg_part remaining ≡ 0
granted true remaining g e = absurd (true≢false e)
granted false remaining g e = elim (Bool-cases (ltb_ℤ remaining (pos 0))) [
  | inl under ↦ absurd (true≢false (sym g ∙ ap not under))
  | inr enough ↦ not_negative remaining enough
]

either :
    (options : BucketOptions) (now : ℕ) (b : Bool) (x y : Option TokenBucket)
    → (b ≡ true → StoredBounded options now x)
    → StoredBounded options now y
    → StoredBounded options now (if b then x else y)
either options now true x y f h = f refl
either options now false x y f h = h

-- Where the refill rate is positive, and a bucket stored before is within the limit of this call, was
-- refilled no later than now and, unless this call allows an overflow, is not overdrawn, the bucket
-- that `tokenBucket` stores is so too; so is the bucket of a key without one.
pub token_bucket-Bounded :
    (now : ℕ) (options : BucketOptions) (stored : Option TokenBucket)
    → 0 < options.refill_rate
    → StoredBounded options now stored
    → StoredBounded options now (token_bucket now options stored).1
unfolding token_bucket
token_bucket-Bounded now options stored rate b =
    let start = current_bucket now options stored in
    let bucket = topped now options (refilled now options start) in
    let remaining = take_tokens bucket.tokens options.tokens in
    let bounded =
      topped-Bounded now options (refilled now options start)
        (refilled-Bounded now options start (current_bucket-Bounded now options stored b)) in
    let grants = options.allow_overflow || not (ltb_ℤ remaining (pos 0)) in
    either options now grants _ _
      (λ g. (
        take_tokens_pos bucket.tokens options.tokens options.limit bounded.0,
        bounded.1,
        granted options.allow_overflow remaining g,
      ))
      (either options now (is_none stored) (some bucket) _ (λ e. bounded)
        (either options now
          (not (tokens_to_add now options start == 0) || bucket.last_refill == now) (some bucket)
          stored (λ e. bounded) b))
