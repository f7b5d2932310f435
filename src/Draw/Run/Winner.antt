-- ===== src/Draw/Run/Winner.antt =====
-- Who can win the draw of packages/gate/src/draw.ts, and what cannot change the odds.
use grainlify_bounty_agent.Base.{
  ℕ, zero, suc, ◌+◌, ◌≤◌, ◌<◌, ◌≡◌, refl, sym, ap, ◌⊎◌, inl, inr, true, Option, none, some, List,
  [], ◌∷◌, map, min, arith, ltb, Bool-cases,
}
use grainlify_bounty_agent.Draw.Rng.{seeded_rng}
use grainlify_bounty_agent.Draw.Run.{
  Floats, DrawApplicant, DrawConfig, weights_for, prior_completion, num, completion_weight,
  Candidate, pick_from, total_from, pick_weighted, candidate_of, DrawResult, at, drawn, run_draw,
}

module _ {ℓ} {A : Type ℓ} where
  abbrev pub length : List A → ℕ
  length [] = 0
  length (x ∷ xs) = suc (length xs)

  abbrev pub get_elem? : List A → ℕ → Option A
  get_elem? [] i = none
  get_elem? (x ∷ xs) zero = some x
  get_elem? (x ∷ xs) (suc i) = get_elem? xs i

  pub get_elem?-lt : (xs : List A) (i : ℕ) → i < length xs → (y : A) × (get_elem? xs i ≡ some y)
  get_elem?-lt [] i h = absurd (omega arith)
  get_elem?-lt (x ∷ xs) zero h = (x, refl)
  get_elem?-lt (x ∷ xs) (suc i) h = get_elem?-lt xs i (omega arith)

none-ne-some : (i : ℕ) → ◌≡◌ {A = Option ℕ} none (some i) → ⊥
none-ne-some i e = cc

some-injective_nat : (i j : ℕ) → ◌≡◌ {A = Option ℕ} (some i) (some j) → i ≡ j
some-injective_nat i j e = cc

module _ (x : Floats) where
  pick_from-le :
      (i : ℕ) (r t : x.Float) (ts : List x.Float) → pick_from x i r (t ∷ ts) ≤ i + length ts
  unfolding pick_from
  pick_from-le i r t [] = elim (Bool-cases (x.at_most_zero (x.sub r t))) [
    | inl now ↦ rw now (omega arith)
    | inr later ↦ rw later (omega arith)
  ]
  pick_from-le i r t (u ∷ ts) = elim (Bool-cases (x.at_most_zero (x.sub r t))) [
    | inl now ↦ rw now (omega arith)
    | inr later ↦ rw later (omega (arith, pick_from-le (suc i) (x.sub r t) u ts))
  ]

  pick_weighted-lt :
      (rng t : x.Float) (ts : List x.Float) (i : ℕ)
      → pick_weighted x rng (t ∷ ts) ≡ some i
      → i < suc (length ts)
  unfolding pick_weighted
  pick_weighted-lt rng t ts i e =
      elim (Bool-cases (x.at_most_zero (total_from x x.zero_point (t ∷ ts)))) [
        | inl empty ↦ absurd (none-ne-some i ((rw empty at e)))
        | inr full ↦
            let found : pick_from x 0 (x.mul rng (total_from x x.zero_point (t ∷ ts))) (t ∷ ts)
                ≡ i =
              some-injective_nat _ _ (rw full at e) in
            omega
              (arith, found, pick_from-le 0 (x.mul rng (total_from x x.zero_point (t ∷ ts))) t ts)
      ]

  at-map :
      (cfg : DrawConfig) (bs : List DrawApplicant) (i : ℕ) (a : DrawApplicant)
      → get_elem? bs i ≡ some a
      → at x (map (candidate_of x cfg) bs) i ≡ some (candidate_of x cfg a)
  at-map cfg [] i a e = cc
  at-map cfg (b ∷ bs) zero a e = cc
  at-map cfg (b ∷ bs) (suc i) a e = at-map cfg bs i a e

  length-map-map :
      {A B C : Type 0} (f : A → B) (g : B → C) (bs : List A) → length (map g (map f bs)) ≡ length bs
  length-map-map f g [] = refl
  length-map-map f g (a ∷ bs) = ap suc (length-map-map f g bs)

  -- A draw result that somebody of the list won: the applicant at an index.
  abbrev pub WonBy : DrawConfig → List DrawApplicant → DrawResult x → Type 0
  WonBy cfg bs r =
      (i : ℕ) × (a : DrawApplicant) × (i < length bs)
      × (get_elem? bs i ≡ some a)
      × (r.winner ≡ some (candidate_of x cfg a))

  drawn-WonBy :
      (cfg : DrawConfig) (seed : ℕ) (b : DrawApplicant) (bs : List DrawApplicant) (o : Option ℕ)
      → ((i : ℕ) → o ≡ some i → i < suc (length bs))
      → WonBy cfg (b ∷ bs) (drawn x seed (map (candidate_of x cfg) (b ∷ bs)) o)
  drawn-WonBy cfg seed b bs none h = (0, b, omega arith, refl, refl)
  drawn-WonBy cfg seed b bs (some i) h =
      let (a, e) = get_elem?-lt (b ∷ bs) i (h i refl) in
      (i, a, h i refl, e, at-map cfg (b ∷ bs) i a e)

  length-tickets :
      (cfg : DrawConfig) (bs : List DrawApplicant)
      → length (map (λ (d : Candidate x). d.tickets) (map (candidate_of x cfg) bs)) ≡ length bs
  length-tickets cfg [] = refl
  length-tickets cfg (a ∷ bs) = ap suc (length-tickets cfg bs)

  -- A draw with applicants always has a winner, who is one of them with the weights of the
  -- configuration, whatever the seed and however the arithmetic rounds; the pool lists every
  -- applicant in order, and no draw without applicants has a winner.
  pub run_draw_winner :
      (applicants : List DrawApplicant) (cfg : DrawConfig) (seed : ℕ)
      → ((run_draw x applicants cfg seed).pool ≡ map (candidate_of x cfg) applicants)
        × (((applicants ≡ []) × ((run_draw x applicants cfg seed).winner ≡ none))
            ⊎ WonBy cfg applicants (run_draw x applicants cfg seed))
  unfolding run_draw
  run_draw_winner [] cfg seed = (refl, inl (refl, refl))
  run_draw_winner (b ∷ bs) cfg seed = (
    pool_of (pick_weighted x rng tickets),
    inr (
        drawn-WonBy cfg seed b bs (pick_weighted x rng tickets) (λ i e.
          rw (sym (length-tickets cfg bs)) (
            pick_weighted-lt rng _
              (map (λ (d : Candidate x). d.tickets) (map (candidate_of x cfg) bs)) i e))),
  )
    where
      rng : x.Float
      rng = x.over_two_32 (seeded_rng seed)

      tickets : List x.Float
      tickets = map (λ (d : Candidate x). d.tickets) (map (candidate_of x cfg) (b ∷ bs))

      pool_of :
          (o : Option ℕ)
          → (drawn x seed (map (candidate_of x cfg) (b ∷ bs)) o).pool
            ≡ map (candidate_of x cfg) (b ∷ bs)
      pool_of none = refl
      pool_of (some i) = refl

  completion_weight-clamped :
      (cfg : DrawConfig) (n : ℕ)
      → 2 ≤ n
      → completion_weight x cfg n
        ≡ (prior_completion, x.pow (num x (cfg "weight_prior_completion") x.one_half) 2) ∷ []
  unfolding completion_weight
  completion_weight-clamped cfg n h =
      let some_completed : ltb 0 n ≡ true = ground arith in
      let capped : min n 2 ≡ 2 = omega arith in rw (some_completed, capped)

  -- Beyond two completions nothing is gained: applicants that differ only in how many bounties past
  -- the second they have completed have the same weights, under every configuration.
  pub weights_for_clamp :
      (a : DrawApplicant) (n : ℕ) (cfg : DrawConfig)
      → 2 ≤ a.completions
      → 2 ≤ n
      → weights_for x (record a { completions = n }) cfg ≡ weights_for x a cfg
  unfolding weights_for
  weights_for_clamp a n cfg many also =
      rw (completion_weight-clamped cfg n also, completion_weight-clamped cfg a.completions many)
