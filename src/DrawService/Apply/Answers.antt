-- ===== src/DrawService/Apply/Answers.antt =====
-- What `apply` of apps/agent/src/draw-service.ts answers, check by check.
use grainlify_bounty_agent.Base.{
  ℕ, ◌+◌, ◌*◌, ◌≤◌, ◌<◌, ◌≡◌, refl, sym, ◌∙◌, ◌⊎◌, inl, inr, true, false, not, ◌&&◌, Option, none,
  some, List, arith, ltb, leb, if_elim, Bool-cases, String, text_eq, includes, truthy, any,
}
use grainlify_bounty_agent.DrawService.Tables.{
  Tables, BountyRow, holding_another_bounty, no_linked_wallet, account_age_unknown, account_too_new,
  org_member, is_posted, is_rejected, bounty_of, holds, has_wallet,
}
use grainlify_bounty_agent.DrawService.Settings.{config, int_setting, bool_setting}
use grainlify_bounty_agent.DrawService.Apply.{
  Env, ApplyInput, no_such_bounty, hour, insiders, or_no_access, waives_org_members, check_member,
  check_created, check_age, check_wallet, holdings, check_gates, check_funder, is_after, check_open,
  apply,
}
use grainlify_bounty_agent.DrawService.Apply.Gates.{
  IsAdmitted, IsAnswer, stands, refuse-IsAnswer, insert_application-IsAnswer,
}

module _ (e : Env) (i : ApplyInput) (cfg : List (String × String)) (b : BountyRow)
    (t : Tables) where
  abbrev IsOutsider : Type 0
  IsOutsider =
      (bool_setting cfg "block_org_members" true ≡ false)
      ⊎ (waives_org_members b ≡ true)
      ⊎ (includes insiders (or_no_access (e.permission b.repo i.github_login)) ≡ false)

  outsider_of :
      bool_setting cfg "block_org_members" true
          && (not (waives_org_members b)
              && includes insiders (or_no_access (e.permission b.repo i.github_login)))
        ≡ false
      → IsOutsider
  outsider_of h = elim (Bool-cases (bool_setting cfg "block_org_members" true)) [
    | inl blocks ↦ elim (Bool-cases (waives_org_members b)) [
      | inl waived ↦ inr (inl waived)
      | inr not_waived ↦ inr (inr (ground (arith, h, blocks, not_waived)))
    ]
    | inr free ↦ inl free
  ]

  not_outsider :
      bool_setting cfg "block_org_members" true
          && (not (waives_org_members b)
              && includes insiders (or_no_access (e.permission b.repo i.github_login)))
        ≡ true
      → ¬ IsOutsider
  not_outsider h (inl free) = ground (arith, h, free)
  not_outsider h (inr (inl waived)) = ground (arith, h, waived)
  not_outsider h (inr (inr stranger)) = ground (arith, h, stranger)

  check_member-IsAnswer :
      (IsOutsider → IsAdmitted e i cfg b t) → IsAnswer e i cfg b t (check_member e cfg i b t)
  check_member-IsAnswer make =
      if_elim (IsAnswer e i cfg b t)
        (bool_setting cfg "block_org_members" true
          && (not (waives_org_members b)
              && includes insiders (or_no_access (e.permission b.repo i.github_login))))
        _ _
        (λ insider. refuse-IsAnswer e i cfg b t org_member (λ v. not_outsider insider v.outsider))
        (λ h. insert_application-IsAnswer e i cfg b t (make (outsider_of h)))

  abbrev IsAged : Type 0
  IsAged =
      (int_setting e.parse_int cfg "min_account_age_days" 30 ≡ 0)
      ⊎ ((created : ℕ) × (e.user_created_at b.repo i.github_login ≡ some created)
          × (created + int_setting e.parse_int cfg "min_account_age_days" 30 * (24 * hour) ≤ e.now))

  not_aged :
      (o : Option ℕ)
      → e.user_created_at b.repo i.github_login ≡ o
      → ltb 0 (int_setting e.parse_int cfg "min_account_age_days" 30) ≡ true
      → ((created : ℕ)
          → o ≡ some created
          → ltb e.now
              (created + int_setting e.parse_int cfg "min_account_age_days" 30 * (24 * hour))
            ≡ true)
      → ¬ IsAged
  not_aged o f asks young (inl none_asked) = ground (arith, asks, none_asked)
  not_aged o f asks young (inr (created, g, old)) = ground (arith, old, young created (sym f ∙ g))

  check_created-IsAnswer :
      (created : Option ℕ)
      → ltb 0 (int_setting e.parse_int cfg "min_account_age_days" 30) ≡ true
      → e.user_created_at b.repo i.github_login ≡ created
      → (IsAged → IsOutsider → IsAdmitted e i cfg b t)
      → IsAnswer e i cfg b t (
          check_created e cfg i b (int_setting e.parse_int cfg "min_account_age_days" 30) created t)
  check_created-IsAnswer none asks f make =
      refuse-IsAnswer e i cfg b t account_age_unknown
        (λ v. not_aged none f asks (λ c g. absurd (cc)) v.age)
  check_created-IsAnswer (some created) asks f make =
      if_elim (IsAnswer e i cfg b t)
        (ltb e.now (created + int_setting e.parse_int cfg "min_account_age_days" 30 * (24 * hour)))
        _ _
        (λ young.
          refuse-IsAnswer e i cfg b t account_too_new
            (λ v. not_aged (some created) f asks (λ c g. ground (arith, young, g)) v.age))
        (λ aged. check_member-IsAnswer (make (inr (created, f, ground (arith, aged)))))

  check_age-IsAnswer :
      (IsAged → IsOutsider → IsAdmitted e i cfg b t) → IsAnswer e i cfg b t (check_age e cfg i b t)
  check_age-IsAnswer make =
      if_elim (IsAnswer e i cfg b t) (ltb 0 (int_setting e.parse_int cfg "min_account_age_days" 30))
        _ _
        (λ asks. check_created-IsAnswer (e.user_created_at b.repo i.github_login) asks refl make)
        (λ no_age. check_member-IsAnswer (make (inl (ground (arith, no_age)))))

  check_wallet-IsAnswer :
      ((bool_setting cfg "require_linked_wallet_to_apply" true ≡ false)
          ⊎ (has_wallet t i.github_user_id ≡ true)
        → IsAged
        → IsOutsider
        → IsAdmitted e i cfg b t)
      → IsAnswer e i cfg b t (check_wallet e cfg i b t)
  check_wallet-IsAnswer make =
      if_elim (IsAnswer e i cfg b t)
        (bool_setting cfg "require_linked_wallet_to_apply" true
          && not (has_wallet t i.github_user_id))
        _ _
        (λ unlinked. refuse-IsAnswer e i cfg b t no_linked_wallet (λ v. elim v.wallet [
          | inl waived ↦ ground (arith, unlinked, waived)
          | inr linked ↦ ground (arith, unlinked, linked)
        ]))
        (λ h. check_age-IsAnswer (
          make (elim (Bool-cases (has_wallet t i.github_user_id)) [
            | inl linked ↦ inr linked
            | inr absent ↦ inl (ground (arith, h, absent))
          ])))

  check_gates-IsAnswer :
      config t ≡ cfg
      → (stands i (λ s. not (is_rejected s)) t ≡ false
          → holdings t i.github_user_id
            < int_setting e.parse_int cfg "max_active_assignments_per_person" 1
          → (bool_setting cfg "require_linked_wallet_to_apply" true ≡ false)
            ⊎ (has_wallet t i.github_user_id ≡ true)
          → IsAged
          → IsOutsider
          → IsAdmitted e i cfg b t)
      → IsAnswer e i cfg b t (check_gates e i b t)
  check_gates-IsAnswer c make =
      if_elim (IsAnswer e i cfg b t) (stands i (λ s. not (is_rejected s)) t) _ _
        (λ again. (refl, λ v. ground (arith, again, v.first_time)))
        (λ first_time. rw c (
          if_elim (IsAnswer e i cfg b t)
            (leb (int_setting e.parse_int cfg "max_active_assignments_per_person" 1)
              (holdings t i.github_user_id))
            _ _
            (λ full.
              refuse-IsAnswer e i cfg b t holding_another_bounty
                (λ v. ground (arith, full, v.room)))
            (λ room. check_wallet-IsAnswer (make first_time (ground (arith, room))))))

  abbrev HasFunder : Type 0
  HasFunder =
      (truthy b.funded_by ≡ none)
      ⊎ ((funder : String) × (truthy b.funded_by ≡ some funder)
          × (text_eq (e.lower funder) (e.lower i.github_login) ≡ false)
          × (any (holds i.bounty_id) t.assignments ≡ false))

  check_funder-IsAnswer :
      (funder : Option String)
      → truthy b.funded_by ≡ funder
      → config t ≡ cfg
      → is_posted b.status ≡ true
      → is_after e.now b.applications_close_at ≡ true
      → IsAnswer e i cfg b t (check_funder e i b funder t)
  check_funder-IsAnswer none f c p a =
      check_gates-IsAnswer c (λ first_time room wallet age outsider. record {
        on_offer = p;
        ahead = a;
        other_funder = inl f;
        first_time = first_time;
        room = room;
        wallet = wallet;
        age = age;
        outsider = outsider;
      })
  check_funder-IsAnswer (some funder) f c p a =
      if_elim (IsAnswer e i cfg b t) (text_eq (e.lower funder) (e.lower i.github_login)) _ _
        (λ own.
          (refl, λ v. elim v.other_funder [ inl nobody ↦ cc | inr (other, g, differs, free) ↦ cc ]))
        (λ other.
          if_elim (IsAnswer e i cfg b t) (any (holds i.bounty_id) t.assignments) _ _
            (λ taken. (
              refl,
              λ v. elim v.other_funder [ inl nobody ↦ cc | inr (other, g, differs, free) ↦ cc ],
            ))
            (λ free. check_gates-IsAnswer c (λ first_time room wallet age outsider. record {
              on_offer = p;
              ahead = a;
              other_funder = inr (funder, f, other, free);
              first_time = first_time;
              room = room;
              wallet = wallet;
              age = age;
              outsider = outsider;
            })))

  check_open-IsAnswer : config t ≡ cfg → IsAnswer e i cfg b t (check_open e i (some b) t)
  check_open-IsAnswer c =
      if_elim (IsAnswer e i cfg b t) (not (is_posted b.status)) _ _
        (λ closed. (refl, λ v. ground (arith, closed, v.on_offer)))
        (λ on_offer.
          if_elim (IsAnswer e i cfg b t) (not (is_after e.now b.applications_close_at)) _ _
            (λ over. (refl, λ v. ground (arith, over, v.ahead)))
            (λ ahead.
              check_funder-IsAnswer (truthy b.funded_by) refl c (ground (arith, on_offer))
                (ground (arith, ahead))))

-- Every answer to an application. Without the bounty nothing changes. With it the application is accepted
-- exactly where every condition holds, and the row of this person then stands as applied; where a gate
-- refuses, the row stands as rejected; any other answer changes nothing.
pub apply_answers :
    (e : Env) (i : ApplyInput) (t : Tables)
    → ((bounty_of i.bounty_id t ≡ none) × (apply e i t ≡ (t, no_such_bounty)))
      ⊎ ((b : BountyRow) × (bounty_of i.bounty_id t ≡ some b)
          × IsAnswer e i (config t) b t (apply e i t))
unfolding apply
apply_answers e i t = by_row (bounty_of i.bounty_id t) refl
  where
    by_row :
        (b : Option BountyRow)
        → bounty_of i.bounty_id t ≡ b
        → ((b ≡ none) × (check_open e i b t ≡ (t, no_such_bounty)))
          ⊎ ((r : BountyRow) × (b ≡ some r) × IsAnswer e i (config t) r t (check_open e i b t))
    by_row none f = inl (refl, refl)
    by_row (some b) f = inr (b, refl, check_open-IsAnswer e i (config t) b t refl)
