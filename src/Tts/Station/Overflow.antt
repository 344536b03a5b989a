-- ===== src/Tts/Station/Overflow.antt =====
-- generated/db/tts.sql.go: how many jobs of a channel wait after the overflow has been skipped.
use mamechat.Prelude.{
  ℕ, zero, suc, ◌≡◌, refl, ap, not, false, List, [], ◌∷◌, keep, take, ◌==◌, arith, Bool-cases, inl,
  inr,
}
use mamechat.Tts.Station.{JobRow, Station, Site, skipping_old}
use mamechat.Tts.Station.Jobs.{waits_in, skipped_row, skip_after, mark_old_skipped}

-- The jobs of a channel that wait, the latest first.
unfoldable pub waiting_in : ℕ → List JobRow → List JobRow
waiting_in channel_id rows = keep (waits_in channel_id) rows

skipped-waits : (channel_id : ℕ) (r : JobRow) → waits_in channel_id (skipped_row r) ≡ false
skipped-waits channel_id r = ground arith

waiting_in-skip_all :
    (channel_id : ℕ) (rows : List JobRow)
    → waiting_in channel_id (skip_after channel_id 0 rows).0 ≡ []
unfolding skip_after waiting_in
waiting_in-skip_all channel_id [] = refl
waiting_in-skip_all channel_id (r ∷ rs) = elim (Bool-cases (waits_in channel_id r)) [
  | inl e ↦ rw (e, skipped-waits channel_id r) (waiting_in-skip_all channel_id rs)
  | inr e ↦ rw (e, e) (waiting_in-skip_all channel_id rs)
]

-- The waiting rows that are left are the `offset` latest.
waiting_in-skip_after :
    (channel_id offset : ℕ) (rows : List JobRow)
    → waiting_in channel_id (skip_after channel_id offset rows).0
      ≡ take offset (waiting_in channel_id rows)
unfolding skip_after waiting_in take
waiting_in-skip_after channel_id zero rows = waiting_in-skip_all channel_id rows
waiting_in-skip_after channel_id (suc n) [] = refl
waiting_in-skip_after channel_id (suc n) (r ∷ rs) = elim (Bool-cases (waits_in channel_id r)) [
  | inl e ↦ rw (e, e) (ap (λ xs. r ∷ xs) (waiting_in-skip_after channel_id n rs))
  | inr e ↦ rw (e, e) (waiting_in-skip_after channel_id (suc n) rs)
]

-- A row that is not waiting in the channel stays as it is.
keep-skip_after :
    (channel_id offset : ℕ) (rows : List JobRow)
    → keep (λ r. not (r.channel_id == channel_id)) (skip_after channel_id offset rows).0
      ≡ keep (λ r. not (r.channel_id == channel_id)) rows
unfolding skip_after
keep-skip_after channel_id zero [] = refl
keep-skip_after channel_id zero (r ∷ rs) = ground (arith, keep-skip_after channel_id zero rs)
keep-skip_after channel_id (suc n) [] = refl
keep-skip_after channel_id (suc n) (r ∷ rs) =
    ground (arith, keep-skip_after channel_id n rs, keep-skip_after channel_id (suc n) rs)

-- When the statement that skips old jobs succeeds, the waiting jobs of the channel are the `offset`
-- latest of those that waited, and the jobs of the other channels are as before.
pub mark_old_skipped_lem :
    (site : Site) (channel_id offset : ℕ) (s : Station)
    → site.fails skipping_old ≡ false
    → (waiting_in channel_id (mark_old_skipped site channel_id offset s).0.jobs
        ≡ take offset (waiting_in channel_id s.jobs))
      × (keep
            (λ r. not (r.channel_id == channel_id))
            (mark_old_skipped site channel_id offset s).0.jobs
          ≡ keep (λ r. not (r.channel_id == channel_id)) s.jobs)
unfolding mark_old_skipped
mark_old_skipped_lem site channel_id offset s h =
    rw h (waiting_in-skip_after channel_id offset s.jobs, keep-skip_after channel_id offset s.jobs)
