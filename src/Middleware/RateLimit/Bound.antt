-- ===== src/Middleware/RateLimit/Bound.antt =====
-- middleware/ratelimit.go, Limiter.Allow: how many calls a key can make.
use Prim.Native.String.{String}
use bebo.Prelude.{
  ℕ, ◌+◌, ◌-◌, ◌*◌, ◌≤◌, ◌≡◌, refl, ◌∙◌, Bool, true, false, none, some, List, [], ◌∷◌, arith,
  length, inl, inr, Bool-cases,
}
use bebo.Prelude.Int.{pos}
use bebo.Prelude.Dict.{lookup, string_eq, lookup-insert}
use text.Mathlib.Text.{◌==◌ as str_eq}
use text.Mathlib.TextEquality.{eq_iff}
use bebo.Middleware.RateLimit.Rounding.{IsRounding, granted, take_token-Pays}
use bebo.Middleware.RateLimit.{
  FloatOps, Bucket, Limiter, new_limiter, allow, maybe_cleanup, bucket_for, take_token, full,
}

-- Calls of Allow by key and time, in the order in which they are served.
abbrev pub Calls : Type 0
Calls = List (String × ℕ)

-- The times ascend from lo to hi.
abbrev pub Ascends : ℕ → ℕ → Calls → Type 0
Ascends lo hi [] = lo ≤ hi
Ascends lo hi ((key, t) ∷ calls) = (lo ≤ t) × Ascends t hi calls

Ascends-le : (lo hi : ℕ) (calls : Calls) → Ascends lo hi calls → lo ≤ hi
Ascends-le lo hi [] h = h
Ascends-le lo hi ((key, t) ∷ calls) (h, a) = omega (arith, Ascends-le t hi calls a)

abbrev pub both : Bool → Bool → ℕ
both true true = 1
both _ _ = 0

both-true : (ok : Bool) → both true ok ≡ granted ok
both-true true = refl
both-true false = refl

split_gap : (a t hi rate : ℕ) → a ≤ t → t ≤ hi → (hi - a) * rate ≡ (t - a) * rate + (hi - t) * rate
split_gap a t hi rate h k = let e : hi - a ≡ (t - a) + (hi - t) = omega arith in rw e (omega arith)

module _ {F : Type 0} (f : FloatOps F) where
  -- How many calls of the key are allowed.
  pub grants : String → Limiter F → Calls → ℕ
  grants k l [] = 0
  grants k l ((key, t) ∷ calls) =
      both (str_eq key k) (allow f l key t).1 + grants k (allow f l key t).0 calls

  -- The limiter after calls.
  pub after : Limiter F → Calls → Limiter F
  after l [] = l
  after l ((key, t) ∷ calls) = after (allow f l key t).0 calls

  Plain-other :
      (l : Limiter F) (k key : String) (t : ℕ)
      → l.ttl ≡ 0
      → str_eq key k ≡ false
      → lookup k (allow f l key t).0.buckets ≡ lookup k l.buckets
  unfolding maybe_cleanup allow
  Plain-other l k key t h e =
      ground (
        arith,
        lookup-insert key k (take_token f l.rate l.burst (bucket_for l key t) t).0 l.buckets,
      )

  bucket_new :
      (l : Limiter F) (k : String) (t : ℕ)
      → l.ttl ≡ 0
      → lookup k l.buckets ≡ none
      → bucket_for l k t ≡ full l t
  unfolding bucket_for
  bucket_new l k t h e = ground arith

  bucket_old :
      (l : Limiter F) (k : String) (t : ℕ) (b : Bucket F)
      → l.ttl ≡ 0
      → lookup k l.buckets ≡ some b
      → bucket_for l k t ≡ b
  unfolding bucket_for
  bucket_old l k t b h e = ground arith

  module _ (rate : F) (burst : ℕ) (r : IsRounding f rate burst) where
    abbrev top : F
    top = f.of_int (pos burst)

    -- A limiter without eviction.
    abbrev Plain : Limiter F → Type 0
    Plain l = (l.ttl ≡ 0) × (l.rate ≡ rate) × (l.burst ≡ top)

    Plain-step : (l : Limiter F) (key : String) (t : ℕ) → Plain l → Plain (allow f l key t).0
    unfolding maybe_cleanup allow
    Plain-step l key t h = ground arith

    Plain-self :
        (l : Limiter F) (k key : String) (t : ℕ)
        → Plain l
        → str_eq key k ≡ true
        → (lookup k (allow f l key t).0.buckets
            ≡ some (take_token f rate top (bucket_for l k t) t).0)
          × ((allow f l key t).1 ≡ (take_token f rate top (bucket_for l k t) t).1)
    unfolding maybe_cleanup allow
    Plain-self l k key t h e = ground (
      arith,
      eq_iff key k,
      lookup-insert key k (take_token f l.rate l.burst (bucket_for l key t) t).0 l.buckets,
    )

    cost : Calls → ℕ
    cost calls = length calls * (2 * r.slack)

    cost-cons : (c : String × ℕ) (calls : Calls) → cost (c ∷ calls) ≡ 2 * r.slack + cost calls
    unfolding cost
    cost-cons c calls = omega arith

    add_up :
        (n n' g rest x y z c d : ℕ)
        → n' + g * r.token ≤ n + x + (r.slack + r.slack)
        → rest * r.token ≤ n' + y + c
        → z ≡ x + y
        → d ≡ 2 * r.slack + c
        → (g + rest) * r.token ≤ n + z + d
    add_up n n' g rest x y z c d p q e h = omega arith

    add_up_top :
        (n' g rest x y c d : ℕ)
        → n' + g * r.token ≤ burst * r.token + r.slack
        → rest * r.token ≤ n' + y + c
        → y ≤ x
        → d ≡ 2 * r.slack + c
        → (g + rest) * r.token ≤ burst * r.token + x + d
    add_up_top n' g rest x y c d p q e h = omega arith

    -- From a bucket on.
    known_bound :
        (k : String) (l : Limiter F) (calls : Calls) (lo hi : ℕ) (b : Bucket F)
        → Plain l
        → lookup k l.buckets ≡ some b
        → r.IsNumber b.tokens
        → b.last ≤ lo
        → Ascends lo hi calls
        → grants k l calls * r.token
          ≤ r.value b.tokens + (hi - b.last) * r.per_nanosecond + cost calls
    unfolding grants
    known_bound k l [] lo hi b p found number le a = omega arith
    known_bound k l ((key, t) ∷ calls) lo hi b p found number le (lt, a) =
        elim (Bool-cases (str_eq key k)) [
          | inr e ↦
              let ih =
                known_bound k (allow f l key t).0 calls t hi b (Plain-step l key t p)
                  (Plain-other l k key t p.0 e ∙ found) number (omega arith) a in
              rw e (omega (arith, ih, cost-cons (key, t) calls))
          | inl e ↦
              let (look, answer) = Plain-self l k key t p e in
              let used = bucket_old l k t b p.0 found in
              let (number', _, pays, at_t) =
                take_token-Pays f rate burst r b t number (omega arith) in
              let ih =
                known_bound k (allow f l key t).0 calls t hi (take_token f rate top b t).0
                  (Plain-step l key t p) (rw used at look) number' (omega arith) a in
              rw (e, answer, used, both-true (take_token f rate top b t).1)
                (add_up (r.value b.tokens) (r.value (take_token f rate top b t).0.tokens)
                  (granted (take_token f rate top b t).1) (grants k (allow f l key t).0 calls)
                  ((t - b.last) * r.per_nanosecond) ((hi - t) * r.per_nanosecond)
                  ((hi - b.last) * r.per_nanosecond) (cost calls) (cost ((key, t) ∷ calls)) pays
                  (rw at_t at ih)
                  (split_gap b.last t hi r.per_nanosecond (omega arith) (Ascends-le t hi calls a))
                  (cost-cons (key, t) calls))
        ]

    -- The key has no bucket, or one that was used last before the time.
    data Ready (k : String) (l : Limiter F) (lo : ℕ) : Type 0 where
      fresh : lookup k l.buckets ≡ none → Ready k l lo
      in_use :
          (b : Bucket F)
          → lookup k l.buckets ≡ some b
          → r.IsNumber b.tokens
          → b.last ≤ lo
          → Ready k l lo

    fetched :
        (k : String) (l : Limiter F) (lo t : ℕ)
        → Plain l
        → Ready k l lo
        → lo ≤ t
        → r.IsNumber (bucket_for l k t).tokens × ((bucket_for l k t).last ≤ t)
    fetched k l lo t p (fresh none_there) h =
        rw (bucket_new l k t p.0 none_there) (rw (p.2) r.burst-IsNumber, omega arith)
    fetched k l lo t p (in_use b found number le) h =
        rw (bucket_old l k t b p.0 found) (number, omega arith)

    Ready-step :
        (k key : String) (l : Limiter F) (lo t : ℕ)
        → Plain l
        → Ready k l lo
        → lo ≤ t
        → Ready k (allow f l key t).0 t
    Ready-step k key l lo t p ready h = elim (Bool-cases (str_eq key k)) [
      | inl e ↦
          let (number, le) = fetched k l lo t p ready h in
          let (number', _, _, at_t) =
            take_token-Pays f rate burst r (bucket_for l k t) t number le in
          in_use (take_token f rate top (bucket_for l k t) t).0 (Plain-self l k key t p e).0 number'
            (omega (arith, at_t))
      | inr e ↦ elim ready [
        | fresh none_there ↦ fresh (Plain-other l k key t p.0 e ∙ none_there)
        | in_use b found number le ↦
            in_use b (Plain-other l k key t p.0 e ∙ found) number (omega arith)
      ]
    ]

    window_bound :
        (k : String) (l : Limiter F) (calls : Calls) (lo hi : ℕ)
        → Plain l
        → Ready k l lo
        → Ascends lo hi calls
        → grants k l calls * r.token ≤ burst * r.token + (hi - lo) * r.per_nanosecond + cost calls
    unfolding grants
    window_bound k l [] lo hi p ready a = omega arith
    window_bound k l ((key, t) ∷ calls) lo hi p ready (lt, a) =
        let gap = split_gap lo t hi r.per_nanosecond lt (Ascends-le t hi calls a) in
        elim (Bool-cases (str_eq key k)) [
          | inr e ↦
              let ih =
                window_bound k (allow f l key t).0 calls t hi (Plain-step l key t p)
                  (Ready-step k key l lo t p ready lt) a in
              rw e (omega (arith, ih, gap, cost-cons (key, t) calls))
          | inl e ↦
              let (look, answer) = Plain-self l k key t p e in
              let (number, le) = fetched k l lo t p ready lt in
              let b = bucket_for l k t in
              let (number', pays, _, at_t) = take_token-Pays f rate burst r b t number le in
              let ih =
                known_bound k (allow f l key t).0 calls t hi (take_token f rate top b t).0
                  (Plain-step l key t p) look number' (omega (arith, at_t)) a in
              rw (e, answer, both-true (take_token f rate top b t).1)
                (add_up_top (r.value (take_token f rate top b t).0.tokens)
                  (granted (take_token f rate top b t).1) (grants k (allow f l key t).0 calls)
                  ((hi - lo) * r.per_nanosecond) ((hi - t) * r.per_nanosecond) (cost calls)
                  (cost ((key, t) ∷ calls)) pays (rw at_t at ih) (omega (arith, gap))
                  (cost-cons (key, t) calls))
        ]

    window_after :
        (k : String) (l : Limiter F) (earlier calls : Calls) (start lo hi : ℕ)
        → Plain l
        → Ready k l start
        → Ascends start lo earlier
        → Ascends lo hi calls
        → grants k (after l earlier) calls * r.token
          ≤ burst * r.token + (hi - lo) * r.per_nanosecond + cost calls
    unfolding after
    window_after k l [] calls start lo hi p (fresh none_there) h a =
        window_bound k l calls lo hi p (fresh none_there) a
    window_after k l [] calls start lo hi p (in_use b found number le) h a =
        window_bound k l calls lo hi p (in_use b found number (omega arith)) a
    window_after k l ((key, t) ∷ earlier) calls start lo hi p ready (lt, h) a =
        window_after k (allow f l key t).0 earlier calls t lo hi (Plain-step l key t p)
          (Ready-step k key l start t p ready lt) h a

    -- Of a limiter without eviction, after any earlier calls and whatever other keys call in between:
    -- the calls of one key that are allowed in a time from lo to hi are worth at most the burst, what
    -- the rate gives in that time, and two roundings of float64 for each call of that time. Times
    -- ascend, and the arithmetic keeps the bounds of IsRounding for the rate and the burst, which is not negative.
    pub grants-le_burst_and_rate :
        (k : String) (earlier calls : Calls) (start lo hi : ℕ)
        → Ascends start lo earlier
        → Ascends lo hi calls
        → grants k (after (new_limiter f rate (pos burst) 0) earlier) calls * r.token
          ≤ burst * r.token + (hi - lo) * r.per_nanosecond + length calls * (2 * r.slack)
    unfolding new_limiter cost
    grants-le_burst_and_rate k earlier calls start lo hi h a =
        window_after k (new_limiter f rate (pos burst) 0) earlier calls start lo hi
          (refl, refl, refl) (fresh (unfold lookup in refl)) h a
