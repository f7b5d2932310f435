-- ===== src/DrawService/Draw/Planned.antt =====
-- The pool that a draw of apps/agent/src/draw-service.ts plans, where anybody is in it.
use grainlify_bounty_agent.Base.{
  ℕ, ◌≡◌, refl, ◌==◌, ◌⊎◌, inl, inr, Bool, true, false, not, ◌&&◌, Option, some, List, [], ◌∷◌, map,
  arith, if_elim, Bool-cases, Result, ok, String, any, All, All-mono,
}
use grainlify_bounty_agent.Draw.Run.{DrawApplicant}
use grainlify_bounty_agent.DrawService.Tables.{Tables, BountyRow, ApplicationRow, holds, bounty_of}
use grainlify_bounty_agent.DrawService.Settings.{config, bool_setting}
use grainlify_bounty_agent.DrawService.Apply.{Env}
use grainlify_bounty_agent.DrawService.Reopen.{select_where}
use grainlify_bounty_agent.DrawService.Draw.{
  DrawOptions, Plan, DrawError, is_in_pool, is_newcomer, applicant_of, plan_of, plan_newcomers,
  plan_pool, draw_plan,
}

module _ {ℓ κ} {A : Type ℓ} (Q : A → Type κ) where
  All-select_where : (p : A → Bool) (xs : List A) → All Q xs → All Q (select_where p xs)
  All-select_where p [] h = tt
  All-select_where p (x ∷ xs) h = elim (Bool-cases (p x)) [
    | inl hit ↦ rw hit (h.0, All-select_where p xs h.1)
    | inr miss ↦ rw miss (All-select_where p xs h.1)
  ]

  All-map {μ} : {B : Type μ} (f : B → A) (xs : List B) → All (λ b. Q (f b)) xs → All Q (map f xs)
  All-map f [] h = tt
  All-map f (x ∷ xs) h = (h.0, All-map f xs h.1)

select_where-cons {ℓ} :
    {A : Type ℓ} (p : A → Bool) (xs : List A)
    → any p xs ≡ true
    → (y : A) × (ys : List A) × (select_where p xs ≡ y ∷ ys)
select_where-cons p [] h = absurd (cc)
select_where-cons p (x ∷ xs) h = elim (Bool-cases (p x)) [
  | inl hit ↦ (x, select_where p xs, rw hit refl)
  | inr miss ↦ let (y, ys, e) = select_where-cons p xs (ground (arith, miss)) in (y, ys, rw miss e)
]

-- Somebody whose application passes the test.
abbrev pub is_pooled : (ApplicationRow → Bool) → List ApplicationRow → ℕ → Bool
is_pooled p rows user = any (λ (a : ApplicationRow). a.github_user_id == user && p a) rows

select_where-is_pooled :
    (p : ApplicationRow → Bool) (rows : List ApplicationRow)
    → All (λ (a : ApplicationRow). is_pooled p rows a.github_user_id ≡ true) (select_where p rows)
select_where-is_pooled p [] = tt
select_where-is_pooled p (a ∷ rows) =
    let rest =
      All-mono (λ (b : ApplicationRow). is_pooled p rows b.github_user_id ≡ true) Q
        (select_where p rows) (λ b h. ground (arith, h)) (select_where-is_pooled p rows) in
    if_elim (All Q) (p a) (a ∷ select_where p rows) (select_where p rows)
      (λ hit. (ground (arith, hit), rest)) (λ miss. rest)
  where
    Q : ApplicationRow → Type 0
    Q b = is_pooled p (a ∷ rows) b.github_user_id ≡ true

-- A plan with applicants, all of whom pass the test.
pub record IsPeopled (pool : ℕ → Bool) (p : Plan) : Type 0 where
  pub one : DrawApplicant
  pub others : List DrawApplicant
  pub applicants : p.applicants ≡ one ∷ others
  pub pooled : All (λ (a : DrawApplicant). pool a.github_user_id ≡ true) p.applicants

module _ (e : Env) (o : DrawOptions) (bounty : ℕ) (t : Tables) (b : BountyRow) where
  abbrev pub in_pool : ApplicationRow → Bool
  in_pool = is_in_pool e t bounty b.exclude_login_next_draw o.require_wallet

  plan_of-IsPeopled :
      (cfg : List (String × String)) (excluded : Option String) (reserved fell_back : Bool)
      (a : ApplicationRow) (rows : List ApplicationRow)
      → All
          (λ (r : ApplicationRow). is_pooled in_pool t.applications r.github_user_id ≡ true)
          (a ∷ rows)
      → IsPeopled
          (is_pooled in_pool t.applications)
          (plan_of t cfg excluded reserved fell_back (a ∷ rows))
  plan_of-IsPeopled cfg excluded reserved fell_back a rows h = record {
    one = applicant_of t a;
    others = map (applicant_of t) rows;
    applicants = refl;
    pooled =
        All-map (λ (d : DrawApplicant). is_pooled in_pool t.applications d.github_user_id ≡ true)
          (applicant_of t) (a ∷ rows) h;
  }

  abbrev pub IsPlanned : Result DrawError Plan → Type 0
  IsPlanned r = (p : Plan) × (r ≡ ok p) × IsPeopled (is_pooled in_pool t.applications) p

  plan_newcomers-IsPlanned :
      (cfg : List (String × String)) (excluded : Option String) (a : ApplicationRow)
      (rows newcomers : List ApplicationRow)
      → bool_setting cfg "reservation_fallback_to_open_pool" true ≡ true
      → All
          (λ (r : ApplicationRow). is_pooled in_pool t.applications r.github_user_id ≡ true)
          (a ∷ rows)
      → All
          (λ (r : ApplicationRow). is_pooled in_pool t.applications r.github_user_id ≡ true)
          newcomers
      → IsPlanned (plan_newcomers t cfg excluded (a ∷ rows) newcomers)
  plan_newcomers-IsPlanned cfg excluded a rows [] fallback h k =
      (_, rw fallback refl, plan_of-IsPeopled cfg excluded true true a rows h)
  plan_newcomers-IsPlanned cfg excluded a rows (n ∷ newcomers) fallback h k =
      (_, refl, plan_of-IsPeopled cfg excluded true false n newcomers k)

  plan_pool-IsPlanned :
      (cfg : List (String × String)) (excluded : Option String) (reserved : Bool)
      (rows : List ApplicationRow)
      → (reserved ≡ false) ⊎ (bool_setting cfg "reservation_fallback_to_open_pool" true ≡ true)
      → (y : ApplicationRow) × (ys : List ApplicationRow) × (rows ≡ y ∷ ys)
      → All (λ (r : ApplicationRow). is_pooled in_pool t.applications r.github_user_id ≡ true) rows
      → IsPlanned (plan_pool t cfg excluded reserved rows)
  plan_pool-IsPlanned cfg excluded reserved [] f (y, ys, e) h = absurd (cc)
  plan_pool-IsPlanned cfg excluded false (a ∷ rows) f some_row h =
      (_, refl, plan_of-IsPeopled cfg excluded false false a rows h)
  plan_pool-IsPlanned cfg excluded true (a ∷ rows) (inl f) some_row h = absurd (cc)
  plan_pool-IsPlanned cfg excluded true (a ∷ rows) (inr f) some_row h =
      plan_newcomers-IsPlanned cfg excluded a rows _ f h
        (All-select_where _ (is_newcomer t) (a ∷ rows) h)

  pub draw_plan-IsPlanned :
      bounty_of bounty t ≡ some b
      → any (holds bounty) t.assignments ≡ false
      → (b.reserved_for_newcomers ≡ false)
        ⊎ (bool_setting (config t) "reservation_fallback_to_open_pool" true ≡ true)
      → any in_pool t.applications ≡ true
      → IsPlanned (draw_plan e o bounty t)
  unfolding draw_plan
  draw_plan-IsPlanned found free fallback pool = rw found (
      if_elim IsPlanned (not o.simulate && any (holds bounty) t.assignments) _ _
        (λ taken. absurd (ground (arith, free, taken)))
        (λ drawn.
          plan_pool-IsPlanned (config t) b.exclude_login_next_draw b.reserved_for_newcomers
            (select_where in_pool t.applications) fallback
            (select_where-cons in_pool t.applications pool)
            (select_where-is_pooled in_pool t.applications)))
