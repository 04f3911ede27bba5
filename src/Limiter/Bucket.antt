-- ===== src/Limiter/Bucket.antt =====
-- `tokenBucket`. An overflow makes the tokens negative, so they are an integer.
use foundationdb_effect.Prelude.{
  ℕ, ◌+◌, ◌-◌, ◌*◌, ◌/◌, Bool, true, false, ◌||◌, not, Option, none, some, ◌==◌, if◌then◌else◌,
}
use foundationdb_effect.Prelude.Int.{ℤ, pos, sub_ℕ, pos_part, neg_part, ltb_ℤ}

-- `TokenBucket`
pub record TokenBucket : Type 0 where
  pub tokens : ℤ
  pub last_refill : ℕ

-- The options of `tokenBucket`, with the refill rate in milliseconds.
pub record BucketOptions : Type 0 where
  pub tokens : ℕ
  pub limit : ℕ
  pub refill_rate : ℕ
  pub allow_overflow : Bool

-- a + n and a - n
abbrev pub add_tokens : ℤ → ℕ → ℤ
add_tokens a n = sub_ℕ (pos_part a + n) (neg_part a)

abbrev pub take_tokens : ℤ → ℕ → ℤ
take_tokens a n = sub_ℕ (pos_part a) (neg_part a + n)

abbrev pub min_ℤ : ℤ → ℤ → ℤ
min_ℤ a b = if ltb_ℤ b a then b else a

-- The bucket that the operation starts from.
abbrev pub current_bucket : ℕ → BucketOptions → Option TokenBucket → TokenBucket
current_bucket now options none = record { tokens = pos options.limit; last_refill = now }
current_bucket now options (some bucket) = bucket

-- `tokensToAdd`, where it is positive; a clock that went back adds nothing. The refill rate is
-- positive, as a division by 0 is not a number.
abbrev pub tokens_to_add : ℕ → BucketOptions → TokenBucket → ℕ
tokens_to_add now options bucket = (now - bucket.last_refill) / options.refill_rate

-- The two updates before tokens are taken.
abbrev pub refilled : ℕ → BucketOptions → TokenBucket → TokenBucket
refilled now options bucket =
    let added = tokens_to_add now options bucket in
    if added == 0 then bucket else record {
      tokens = min_ℤ (pos options.limit) (add_tokens bucket.tokens added);
      last_refill = bucket.last_refill + added * options.refill_rate;
    }

abbrev pub topped : ℕ → BucketOptions → TokenBucket → TokenBucket
topped now options bucket =
    if ltb_ℤ bucket.tokens (pos options.limit) then bucket else record bucket { last_refill = now }

abbrev pub is_none : Option TokenBucket → Bool
is_none none = true
is_none (some _) = false

-- `tokenBucket`: what remains and the time since the refill, and the stored bucket.
unfoldable pub token_bucket : ℕ → BucketOptions → Option TokenBucket → (ℤ × ℕ) × Option TokenBucket
token_bucket now options stored =
    let start = current_bucket now options stored in
    let added = tokens_to_add now options start in
    let bucket = topped now options (refilled now options start) in
    let remaining = take_tokens bucket.tokens options.tokens in
    (
      (remaining, now - bucket.last_refill),
      if options.allow_overflow || not (ltb_ℤ remaining (pos 0))
          then some (record bucket { tokens = remaining })
          else if is_none stored
          then some bucket
          else if not (added == 0) || bucket.last_refill == now
          then some bucket
          else stored,
    )
