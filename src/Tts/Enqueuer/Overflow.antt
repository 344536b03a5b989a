-- ===== src/Tts/Enqueuer/Overflow.antt =====
-- tts/enqueuer.go: that a message that was enqueued leaves no more jobs waiting than the limit.
use mamechat.Prelude.{
  ℕ, ◌≡◌, refl, false, Option, none, some, List, [], ◌∷◌, Text, take, ◌==◌, not, ◌∙◌, keep,
}
use mamechat.Tts.Station.{Station, Site, skipping_old}
use mamechat.Tts.Station.Statuses.{tell-jobs}
use mamechat.Tts.Station.Jobs.{mark_old_skipped}
use mamechat.Tts.Station.Overflow.{waiting_in, mark_old_skipped_lem}
use mamechat.Tts.Enqueuer.{Studio, Target, tell_skipped, skip_overflow, after_skip}

tell_skipped-jobs :
    (site : Site) (slug : Text) (ids : List ℕ) (s : Station)
    → (tell_skipped site slug ids s).jobs ≡ s.jobs
unfolding tell_skipped
tell_skipped-jobs site slug [] s = refl
tell_skipped-jobs site slug (id ∷ ids) s =
    tell_skipped-jobs site slug ids _ ∙ tell-jobs site slug _ s

after_skip-jobs :
    (site : Site) (slug : Text) (p : Station × Option (List ℕ))
    → (after_skip site slug p).jobs ≡ p.0.jobs
unfolding after_skip
after_skip-jobs site slug (s, none) = refl
after_skip-jobs site slug (s, some ids) = tell_skipped-jobs site slug ids s

-- Where there is a limit and the statement succeeds, skipping the overflow leaves the latest waiting
-- jobs of the channel, as many as the limit allows, and the jobs of the other channels as they were.
pub skip_overflow_lem :
    (studio : Studio) (site : Site) (target : Target) (s : Station)
    → (studio.max_pending == 0) ≡ false
    → site.fails skipping_old ≡ false
    → (waiting_in target.channel_id (skip_overflow studio site target s).jobs
        ≡ take studio.max_pending (waiting_in target.channel_id s.jobs))
      × (keep
            (λ r. not (r.channel_id == target.channel_id))
            (skip_overflow studio site target s).jobs
          ≡ keep (λ r. not (r.channel_id == target.channel_id)) s.jobs)
unfolding skip_overflow
skip_overflow_lem studio site target s limited h =
    rw
      (
        limited,
        after_skip-jobs site target.channel_slug
            (mark_old_skipped site target.channel_id studio.max_pending s),
      )
      (mark_old_skipped_lem site target.channel_id studio.max_pending s h)
