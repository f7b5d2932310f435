-- ===== src/Draw/Tests.antt =====
-- The theorems about draws at concrete inputs.
use grainlify_bounty_agent.Base.{
  ◌≡◌, refl, ◌⊎◌, true, false, none, some, [], ◌∷◌, map, arith, String, text_eq,
}
use grainlify_bounty_agent.Draw.Rng.{seeded_rng}
use grainlify_bounty_agent.Draw.Run.{
  strong, plausible, DrawApplicant, DrawConfig, weights_for, candidate_of, run_draw,
}
use grainlify_bounty_agent.Draw.Sample.{dyadic}
use grainlify_bounty_agent.Draw.Run.Winner.{WonBy, run_draw_winner, weights_for_clamp}
use grainlify_bounty_agent.Draw.Config.{draw_settings, validate, from_zero, not_whole, Parsed}

abbrev defaults : DrawConfig
defaults key = none

abbrev newcomer : DrawApplicant
newcomer = record {
  github_user_id = 1;
  github_login = "ada";
  fit = some strong;
  difficulty_match = none;
  completions = 0;
  prior_assignments = 0;
  abandons = 0;
}

abbrev veteran : DrawApplicant
veteran = record newcomer {
  github_user_id = 2;
  github_login = "grace";
  fit = some plausible;
  completions = 5;
  prior_assignments = 6;
}

seeded_rng-zero : seeded_rng 0 ≡ 1144304738
unfolding seeded_rng
seeded_rng-zero = refl

run_draw_winner_example :
    ((run_draw dyadic (newcomer ∷ veteran ∷ []) defaults 7).pool
      ≡ map (candidate_of dyadic defaults) (newcomer ∷ veteran ∷ []))
    × (((newcomer ∷ veteran ∷ [] ≡ [])
          × ((run_draw dyadic (newcomer ∷ veteran ∷ []) defaults 7).winner ≡ none))
        ⊎ WonBy dyadic defaults
            (newcomer ∷ veteran ∷ [])
            (run_draw dyadic (newcomer ∷ veteran ∷ []) defaults 7))
run_draw_winner_example = run_draw_winner dyadic (newcomer ∷ veteran ∷ []) defaults 7

weights_for_clamp_example :
    weights_for dyadic (record veteran { completions = 9 }) defaults
    ≡ weights_for dyadic veteran defaults
weights_for_clamp_example = weights_for_clamp dyadic veteran 9 defaults (omega arith) (omega arith)

abbrev number : String → Parsed
number s = elim (text_eq s "6") [
  | true ↦ from_zero 6 true
  | false ↦ elim (text_eq s "3") [
    | true ↦ from_zero 3 true
    | false ↦ elim (text_eq s "72") [
      | true ↦ from_zero 72 true
      | false ↦ elim (text_eq s "24") [
        | true ↦ from_zero 24 true
        | false ↦ elim (text_eq s "30") [
          | true ↦ from_zero 30 true
          | false ↦ elim (text_eq s "1") [
            | true ↦ from_zero 1 true
            | false ↦ elim (text_eq s "250") [
              | true ↦ from_zero 250 true
              | false ↦ elim (text_eq s "250000") [
                | true ↦ from_zero 250000 true
                | false ↦ elim (text_eq s "2.0") [
                  | true ↦ from_zero 2 true
                  | false ↦ elim (text_eq s "1.0") [
                    | true ↦ from_zero 1 true
                    | false ↦ elim (text_eq s "1.5") [
                      | true ↦ from_zero 1 false
                      | false ↦ from_zero 0 false
                    ]
                  ]
                ]
              ]
            ]
          ]
        ]
      ]
    ]
  ]
]

-- 24 tickets' worth of a window is fine, a fraction of an abandon is not a whole number of hours.
validate-float : validate number "weight_per_abandon" "1.5" ≡ none
unfolding validate text_eq draw_settings
validate-float = refl

validate-int : validate number "application_window_hours" "1.5" ≡ some not_whole
unfolding validate text_eq draw_settings
validate-int = refl
