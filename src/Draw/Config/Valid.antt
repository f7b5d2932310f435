-- ===== src/Draw/Config/Valid.antt =====
-- The keys of the settings of packages/gate/src/draw-config.ts.
use grainlify_bounty_agent.Base.{refl, text_eq, IsApart}
use grainlify_bounty_agent.Draw.Config.{Setting, draw_settings}

-- No two settings share a key.
pub draw_settings-distinct : IsApart (λ (s t : Setting). text_eq s.key t.key) draw_settings
unfolding draw_settings text_eq
draw_settings-distinct = (
  refl,
  (
    refl,
    (
      refl,
      (
        refl,
        (
          refl,
          (
            refl,
            (
              refl,
              (
                refl,
                (
                  refl,
                  (
                    refl,
                    (
                      refl,
                      (
                        refl,
                        (
                          refl,
                          (
                            refl,
                            (
                              refl,
                              (
                                refl,
                                (refl, (refl, (refl, (refl, (refl, (refl, (refl, (refl, tt)))))))),
                              ),
                            ),
                          ),
                        ),
                      ),
                    ),
                  ),
                ),
              ),
            ),
          ),
        ),
      ),
    ),
  ),
)
