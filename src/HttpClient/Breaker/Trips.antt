-- ===== src/HttpClient/Breaker/Trips.antt =====
-- httpclient/httpclient.go, CircuitBreaker.Record: when a closed breaker opens.
use bebo.Prelude.{
  ℕ, zero, suc, ◌-◌, ◌≤◌, ◌<◌, ◌≡◌, refl, ◌∙◌, ap, Bool, true, false, List, [], ◌∷◌, ◌++◌, arith,
  ◌⊎◌, inl, inr, ◌↔◌, map, replicate, leb, Bool-cases,
}
use bebo.HttpClient.Breaker.{state_closed, state_open, Breaker, record_result}
use bebo.HttpClient.Breaker.Invariant.{Inv}

-- The results are recorded in order, each at its time.
pub record_all : Breaker → List (ℕ × Bool) → Breaker
record_all c [] = c
record_all c ((t, success) ∷ hs) = record_all (record_result c t success) hs

abbrev pub outcome : ℕ × Bool → Bool
outcome h = h.1

-- The outcomes hold m failures in a row.
abbrev pub HasRun : ℕ → List Bool → Type 0
HasRun m outs = (pre : List Bool) × (post : List Bool) × (outs ≡ pre ++ (replicate m false ++ post))

-- The outcomes begin with n failures.
abbrev BeginsWith : ℕ → List Bool → Type 0
BeginsWith n outs = (post : List Bool) × (outs ≡ replicate n false ++ post)

open_stays : (c : Breaker) (hs : List (ℕ × Bool)) → c.state ≡ state_open → record_all c hs ≡ c
unfolding record_all
open_stays c [] o = refl
open_stays c ((t, s) ∷ hs) o =
    let e : record_result c t s ≡ c = unfold record_result in (ground arith) in
    rw e (open_stays c hs o)

-- A closed breaker with its count and its limit.
abbrev Counts : ℕ → ℕ → Breaker → Type 0
Counts m f c = (c.state ≡ state_closed) × (c.failures ≡ f) × (c.max_failures ≡ m)

step_success : (m f t : ℕ) (c : Breaker) → Counts m f c → Counts m 0 (record_result c t true)
unfolding record_result
step_success m f t c h = ground arith

step_count :
    (m f t : ℕ) (c : Breaker)
    → Counts m f c
    → suc f < m
    → Counts m (suc f) (record_result c t false)
unfolding record_result
step_count m f t c h l = ground arith

step_trip :
    (m f t : ℕ) (c : Breaker)
    → Counts m f c
    → m ≤ suc f
    → (record_result c t false).state ≡ state_open
unfolding record_result
step_trip m f t c h l = ground arith

run_later : (m : ℕ) (b : Bool) (outs : List Bool) → HasRun m outs → HasRun m (b ∷ outs)
run_later m b outs (pre, post, e) = (b ∷ pre, post, ap (λ t. b ∷ t) e)

begins_eq : (a b : ℕ) (outs : List Bool) → a ≡ b → BeginsWith a outs → BeginsWith b outs
begins_eq a b outs e h = rw (← e) h

trips_sound :
    (m f : ℕ) (c : Breaker) (hs : List (ℕ × Bool))
    → Counts m f c
    → f < m
    → (record_all c hs).state ≡ state_open
    → BeginsWith (m - f) (map outcome hs) ⊎ HasRun m (map outcome hs)
unfolding record_all
trips_sound m f c [] h l o = cc
trips_sound m f c ((t, true) ∷ hs) h l o =
    elim (trips_sound m 0 (record_result c t true) hs (step_success m f t c h) (omega arith) o) [
      | inl b ↦
          let (post, e) = begins_eq (m - 0) m (map outcome hs) (omega arith) b in
          inr (true ∷ [], post, ap (λ t. true ∷ t) e)
      | inr r ↦ inr (run_later m true _ r)
    ]
trips_sound m f c ((t, false) ∷ hs) h l o = elim (Bool-cases (leb m (suc f))) [
  | inl e ↦ let one : m - f ≡ 1 = ground arith in rw one (inl (map outcome hs, refl))
  | inr e ↦
      let more : m - f ≡ suc (m - suc f) = ground arith in
      let below : suc f < m = ground arith in
      elim (trips_sound m (suc f) (record_result c t false) hs (step_count m f t c h below) below
        o) [
          | inl (post, e) ↦ inl (post, rw more (ap (λ t. false ∷ t) e))
          | inr r ↦ inr (run_later m false _ r)
        ]
]

cons_inj : {a b : Bool} {s t : List Bool} → a ∷ s ≡ b ∷ t → (a ≡ b) × (s ≡ t)
cons_inj e = (cc, cc)

begins_tail :
    (n : ℕ) (b : Bool) (outs : List Bool)
    → BeginsWith (suc n) (b ∷ outs)
    → (b ≡ false) × BeginsWith n outs
begins_tail n b outs (post, e) = let (x, y) = cons_inj e in (x, (post, y))

begins_nil : (n : ℕ) → 0 < n → ¬ BeginsWith n []
begins_nil zero l h = elim l [ ]
begins_nil (suc n) l (post, e) = cc

begins_weaken : (n k : ℕ) (outs : List Bool) → n ≤ k → BeginsWith k outs → BeginsWith n outs
begins_weaken zero k outs l h = (outs, refl)
begins_weaken (suc n) zero outs l h = elim l [ ]
begins_weaken (suc n) (suc k) outs l (post, e) =
    let (post', e') = begins_weaken n k (replicate k false ++ post) (omega arith) (post, refl) in
    (post', e ∙ ap (λ t. false ∷ t) e')

run_split :
    (m : ℕ) (b : Bool) (outs : List Bool)
    → HasRun m (b ∷ outs)
    → BeginsWith m (b ∷ outs) ⊎ HasRun m outs
run_split m b outs ([], post, e) = inl (post, e)
run_split m b outs (a ∷ pre, post, e) = inr (pre, post, (cons_inj e).1)

run_nil : (m : ℕ) → 0 < m → ¬ HasRun m []
run_nil m l ([], post, e) = begins_nil m l (post, e)
run_nil m l (a ∷ pre, post, e) = cc

Due : ℕ → ℕ → List Bool → Type 0
Due m f outs = BeginsWith (m - f) outs ⊎ HasRun m outs

Due-after_success : (m f : ℕ) (outs : List Bool) → f < m → Due m f (true ∷ outs) → HasRun m outs
unfolding Due
Due-after_success m f outs l (inl b) =
    let (x, _) =
      begins_tail (m - suc f) true outs (begins_eq (m - f) (suc (m - suc f)) _ (omega arith) b) in
    absurd (cc)
Due-after_success m f outs l (inr r) = elim (run_split m true outs r) [
  | inl b ↦
      let (x, _) = begins_tail (m - 1) true outs (begins_eq m (suc (m - 1)) _ (omega arith) b) in
      absurd (cc)
  | inr r' ↦ r'
]

Due-after_failure :
    (m f : ℕ) (outs : List Bool) → f < m → Due m f (false ∷ outs) → Due m (suc f) outs
unfolding Due
Due-after_failure m f outs l (inl b) =
    inl
      (begins_tail (m - suc f) false outs (begins_eq (m - f) (suc (m - suc f)) _ (omega arith) b)).1
Due-after_failure m f outs l (inr r) = elim (run_split m false outs r) [
  | inl b ↦ inl (
      begins_weaken (m - suc f) (m - 1) outs (omega arith)
        (begins_tail (m - 1) false outs (begins_eq m (suc (m - 1)) _ (omega arith) b)).1)
  | inr r' ↦ inr r'
]

trips_complete :
    (m f : ℕ) (c : Breaker) (hs : List (ℕ × Bool))
    → Counts m f c
    → f < m
    → Due m f (map outcome hs)
    → (record_all c hs).state ≡ state_open
unfolding record_all
trips_complete m f c [] h l d =
    unfold Due in
    (elim d [
      | inl b ↦ absurd (begins_nil (m - f) (omega arith) b)
      | inr r ↦ absurd (run_nil m (omega arith) r)
    ])
trips_complete m f c ((t, true) ∷ hs) h l d =
    trips_complete m 0 (record_result c t true) hs (step_success m f t c h) (omega arith)
      (unfold Due in (inr (Due-after_success m f (map outcome hs) l d)))
trips_complete m f c ((t, false) ∷ hs) h l d = elim (Bool-cases (leb m (suc f))) [
  | inl e ↦
      let o : (record_result c t false).state ≡ state_open = step_trip m f t c h (ground arith) in
      rw (open_stays (record_result c t false) hs o) o
  | inr e ↦
      let below : suc f < m = ground arith in
      trips_complete m (suc f) (record_result c t false) hs (step_count m f t c h below) below
        (Due-after_failure m f (map outcome hs) l d)
]

-- A closed breaker that has counted no failure opens under recorded results, whatever their times,
-- exactly when as many failures as the limit come in a row.
pub record_all-opens_iff :
    (c : Breaker) (hs : List (ℕ × Bool))
    → Inv c
    → c.state ≡ state_closed
    → c.failures ≡ 0
    → ((record_all c hs).state ≡ state_open) ↔ HasRun c.max_failures (map outcome hs)
record_all-opens_iff c hs i s f = (
  λ o. elim (trips_sound c.max_failures 0 c hs (s, f, refl) i.limited o) [
    | inl b ↦
        let (post, e) =
          begins_eq (c.max_failures - 0) c.max_failures (map outcome hs) (omega arith) b in
        ([], post, e)
    | inr r ↦ r
  ],
  λ r. trips_complete c.max_failures 0 c hs (s, f, refl) i.limited (unfold Due in (inr r)),
)
