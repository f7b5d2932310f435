-- ===== src/Draw/Run.antt =====
-- packages/gate/src/draw.ts: weights, tickets and `runDraw`. JavaScript's floating-point numbers are
-- a parameter; no law of them is assumed.
pub mod Winner
use grainlify_bounty_agent.Base.{
  ℕ, zero, suc, ◌+◌, ◌-◌, ◌==◌, min, Bool, true, false, Option, none, some, List, [], ◌∷◌, ◌++◌,
  map, ltb, if◌then◌else◌, String, text_eq,
}
use grainlify_bounty_agent.Draw.Rng.{seeded_rng}

-- The operations of floating-point numbers that the draw calls. `number` is `Number` of a text,
-- `none` for NaN; `pow` has a whole exponent; `over_two_32 n` is n / 4294967296, and `at_most_zero`
-- is `<= 0`. The named constants are the literals of the source.
pub record Floats : Type 1 where
  pub Float : Type 0
  pub number : String → Option Float
  pub zero_point : Float
  pub quarter : Float
  pub half : Float
  pub one_point : Float
  pub one_half : Float
  pub two_point : Float
  pub add : Float → Float → Float
  pub sub : Float → Float → Float
  pub mul : Float → Float → Float
  pub pow : Float → ℕ → Float
  pub over_two_32 : ℕ → Float
  pub at_most_zero : Float → Bool

abbrev pub prior_completion_cap : ℕ
prior_completion_cap = 2

pub data Fit : Type 0 where
  strong plausible weak : Fit

pub data DifficultyMatch : Type 0 where
  below matched above : DifficultyMatch

pub record DrawApplicant : Type 0 where
  pub github_user_id : ℕ
  pub github_login : String
  pub fit : Option Fit
  pub difficulty_match : Option DifficultyMatch
  pub completions : ℕ
  pub prior_assignments : ℕ
  pub abandons : ℕ

pub data Factor : Type 0 where
  fit_strong fit_weak fit_plausible difficulty_above prior_completion : Factor
  first_ever_application per_abandon : Factor

-- A setting that is not there is `none`.
abbrev pub DrawConfig : Type 0
DrawConfig = String → Option String

abbrev or_plausible : Option Fit → Fit
or_plausible none = plausible
or_plausible (some f) = f

module _ (x : Floats) where
  open x use {
    Float, number, zero_point, quarter, half, one_point, one_half, two_point, add, sub, mul, pow,
    over_two_32, at_most_zero,
  }

  abbrev or_fallback : Option Float → Float → Float
  or_fallback none fallback = fallback
  or_fallback (some v) fallback = v

  abbrev num : Option String → Float → Float
  num none fallback = fallback
  num (some v) fallback = if text_eq v "" then fallback else or_fallback (number v) fallback

  -- The keys of a weights object, in the order in which they are set.
  abbrev Weights : Type 0
  Weights = List (Factor × Float)

  fit_weight : DrawConfig → Option Fit → Weights
  fit_weight cfg (some strong) = (fit_strong, num (cfg "weight_fit_strong") two_point) ∷ []
  fit_weight cfg (some weak) = (fit_weak, num (cfg "weight_fit_weak") quarter) ∷ []
  fit_weight cfg (some plausible) = (fit_plausible, num (cfg "weight_fit_plausible") one_point) ∷ []
  fit_weight cfg none = (fit_plausible, num (cfg "weight_fit_plausible") one_point) ∷ []

  difficulty_weight : DrawConfig → Option DifficultyMatch → Weights
  difficulty_weight cfg (some above) =
      (difficulty_above, num (cfg "weight_difficulty_above") half) ∷ []
  difficulty_weight cfg (some below) = []
  difficulty_weight cfg (some matched) = []
  difficulty_weight cfg none = []

  completion_weight : DrawConfig → ℕ → Weights
  completion_weight cfg completions =
      if ltb 0 completions
      then (
        prior_completion,
        pow (num (cfg "weight_prior_completion") one_half) (min completions prior_completion_cap),
      )
        ∷ []
      else []

  newcomer_weight : DrawConfig → ℕ → Weights
  newcomer_weight cfg prior_assignments =
      if prior_assignments == 0
      then (first_ever_application, num (cfg "weight_first_ever_application") one_half) ∷ []
      else []

  abandon_weight : DrawConfig → ℕ → Weights
  abandon_weight cfg abandons =
      if ltb 0 abandons
      then (per_abandon, pow (num (cfg "weight_per_abandon") half) abandons) ∷ []
      else []

  unfoldable pub weights_for : DrawApplicant → DrawConfig → Weights
  unfolding fit_weight difficulty_weight completion_weight newcomer_weight abandon_weight
  weights_for a cfg =
      fit_weight cfg a.fit
      ++ (difficulty_weight cfg a.difficulty_match
          ++ (completion_weight cfg a.completions
              ++ (newcomer_weight cfg a.prior_assignments ++ abandon_weight cfg a.abandons)))

  product_from : Float → Weights → Float
  product_from t [] = t
  product_from t ((name, f) ∷ w) = product_from (mul t f) w

  unfoldable pub tickets_from : Weights → Float
  unfolding product_from
  tickets_from w = product_from one_point w

  pub record Candidate : Type 0 where
    pub github_user_id : ℕ
    pub github_login : String
    pub fit : Fit
    pub weights : List (Factor × Float)
    pub tickets : Float

  total_from : Float → List Float → Float
  total_from acc [] = acc
  total_from acc (t ∷ ts) = total_from (add acc t) ts

  -- The loop from index i with r left: the first index at which r falls to 0 or below, or else the
  -- last one.
  pick_from : ℕ → Float → List Float → ℕ
  pick_from i r [] = i - 1
  pick_from i r (t ∷ ts) =
      let rest = pick_from (suc i) (sub r t) ts in if at_most_zero (sub r t) then i else rest

  -- `none` is -1. `rng` is what the generator returns.
  unfoldable pub pick_weighted : Float → List Float → Option ℕ
  unfolding total_from pick_from
  pick_weighted rng tickets =
      if at_most_zero (total_from zero_point tickets)
      then none
      else some (pick_from 0 (mul rng (total_from zero_point tickets)) tickets)

  unfoldable pub candidate_of : DrawConfig → DrawApplicant → Candidate
  candidate_of cfg a = record {
    github_user_id = a.github_user_id;
    github_login = a.github_login;
    fit = or_plausible a.fit;
    weights = weights_for a cfg;
    tickets = tickets_from (weights_for a cfg);
  }

  pub data NoWinnerReason : Type 0 where
    no_applicants zero_tickets : NoWinnerReason

  pub record DrawResult : Type 0 where
    pub seed : ℕ
    pub pool : List Candidate
    pub winner : Option Candidate
    pub first_come_fallback : Bool
    pub no_winner_reason : Option NoWinnerReason

  abbrev at : List Candidate → ℕ → Option Candidate
  at [] i = none
  at (c ∷ cs) zero = some c
  at (c ∷ cs) (suc i) = at cs i

  abbrev drawn : ℕ → List Candidate → Option ℕ → DrawResult
  drawn seed pool none = record {
    seed = seed;
    pool = pool;
    winner = at pool 0;
    first_come_fallback = true;
    no_winner_reason = some zero_tickets;
  }
  drawn seed pool (some i) = record {
    seed = seed;
    pool = pool;
    winner = at pool i;
    first_come_fallback = false;
    no_winner_reason = none;
  }

  abbrev draw_pool : ℕ → List Candidate → DrawResult
  draw_pool seed [] = record {
    seed = seed;
    pool = [];
    winner = none;
    first_come_fallback = false;
    no_winner_reason = some no_applicants;
  }
  draw_pool seed (c ∷ cs) =
      drawn seed (c ∷ cs) (
        pick_weighted (over_two_32 (seeded_rng seed)) (map (λ (d : Candidate). d.tickets) (c ∷ cs)))

  unfoldable pub run_draw : List DrawApplicant → DrawConfig → ℕ → DrawResult
  run_draw applicants cfg seed = draw_pool seed (map (candidate_of cfg) applicants)
