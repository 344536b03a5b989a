-- ===== src/Tts/Station/Statuses.antt =====
-- tts.sql.go: what becomes of the rows of jobs.
use mamechat.Prelude.{
  ◌≡◌, refl, false, Option, none, some, List, [], ◌∷◌, Text, text_eq, Bool-cases, inl, inr,
}
use mamechat.Chat.Message.{ServerMessage}
use mamechat.Tts.Station.{
  Status, JobRow, Station, Site, ready, failed, tell, publishing, marking_ready, marking_failed,
}
use mamechat.Tts.Station.Jobs.{row_of, set_row, with_status, failed_row, mark_ready, mark_failed}

mapped : (JobRow → JobRow) → Option JobRow → Option JobRow
mapped f none = none
mapped f (some r) = some (f r)

row_of-set_row :
    (f : JobRow → JobRow) (id : Text) (rows : List JobRow)
    → ((r : JobRow) → (f r).id ≡ r.id)
    → row_of id (set_row f id rows) ≡ mapped f (row_of id rows)
unfolding row_of set_row mapped
row_of-set_row f id [] i = refl
row_of-set_row f id (r ∷ rs) i = elim (Bool-cases (text_eq r.id id)) [
  | inl h ↦ rw (h, i r, h) refl
  | inr h ↦ rw (h, h) (row_of-set_row f id rs i)
]

-- The row of a job has a status, if it is still there.
abbrev pub HasStatus : Status → Text → Station → Type 0
HasStatus status id s = (row : JobRow) → row_of id s.jobs ≡ some row → row.status ≡ status

mapped-status :
    (f : JobRow → JobRow) (status : Status) (o : Option JobRow) {row : JobRow}
    → ((r : JobRow) → (f r).status ≡ status)
    → mapped f o ≡ some row
    → row.status ≡ status
unfolding mapped
mapped-status f status none s e = cc
mapped-status f status (some r) s e = cc (s r)

pub tell-jobs :
    (site : Site) (slug : Text) (msg : ServerMessage) (s : Station)
    → (tell site slug msg s).0.jobs ≡ s.jobs
unfolding tell
tell-jobs site slug msg s = elim (Bool-cases (site.fails publishing)) [
  | inl e ↦ rw e refl
  | inr e ↦ rw e refl
]

pub HasStatus-tell :
    (site : Site) (slug : Text) (msg : ServerMessage) (status : Status) (id : Text) (s : Station)
    → HasStatus status id s
    → HasStatus status id (tell site slug msg s).0
HasStatus-tell site slug msg status id s h row = rw (tell-jobs site slug msg s) (h row)

pub mark_ready-HasStatus :
    (site : Site) (id : Text) (s : Station)
    → site.fails (marking_ready id) ≡ false
    → HasStatus ready id (mark_ready site id s)
unfolding mark_ready
mark_ready-HasStatus site id s w row =
    rw (w, row_of-set_row (with_status ready) id s.jobs (λ r. refl))
      (mapped-status (with_status ready) ready (row_of id s.jobs) (λ r. refl))

pub mark_failed-HasStatus :
    (site : Site) (id reason : Text) (s : Station)
    → site.fails (marking_failed id) ≡ false
    → HasStatus failed id (mark_failed site id reason s)
unfolding mark_failed
mark_failed-HasStatus site id reason s w row =
    rw (w, row_of-set_row (failed_row reason) id s.jobs (λ r. refl))
      (mapped-status (failed_row reason) failed (row_of id s.jobs) (λ r. refl))
