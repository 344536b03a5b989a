-- ===== src/Tts/Station/Fifo.antt =====
-- tts/queue.go: the queue serves the jobs in the order in which they were enqueued, and loses none
-- that can be read.
use mamechat.Prelude.{
  ◌≡◌, refl, sym, ap, ◌∙◌, Bool, false, true, Option, none, some, List, [], ◌∷◌, ◌++◌, Text,
  reverse, map, All, Bool-cases, Option-cases, inl, inr,
}
use mathlib.Core.List.{reverse-append, map-append, append_assoc, append-nil}
use mamechat.Tts.Station.{
  Job, Station, Site, Dequeued, took, nothing, unavailable, unreadable, pushing, popping, replying,
  push_payload, enqueue_job, dequeue, dequeued, read_payload, last_entry,
}

-- The payloads in the order in which they are to be served.
abbrev pub line : Station → List Text
line s = reverse s.queue

last_entry-none : (js : List Text) → last_entry js ≡ none → js ≡ []
unfolding last_entry
last_entry-none [] = λ e. refl
last_entry-none (j ∷ js) = elim (Option-cases (last_entry js)) [
  | inl n ↦ rw n (λ e. cc)
  | inr (p, f) ↦ rw f (λ e. cc)
]

last_entry-some :
    (js : List Text) (p : List Text × Text) → last_entry js ≡ some p → js ≡ p.0 ++ p.1 ∷ []
unfolding last_entry
last_entry-some [] p = λ e. cc
last_entry-some (j ∷ js) p = elim (Option-cases (last_entry js)) [
  | inl n ↦
      rw (n, last_entry-none js n)
        (λ (e : some ([], j) ≡ some p). let q : ([], j) ≡ p = cc e in ap (λ r. r.0 ++ r.1 ∷ []) q)
  | inr ((rest, last), f) ↦ rw f (λ (e : some (j ∷ rest, last) ≡ some p).
      let q : (j ∷ rest, last) ≡ p = cc e in
      ap (λ xs. j ∷ xs) (last_entry-some js (rest, last) f) ∙ ap (λ r. r.0 ++ r.1 ∷ []) q)
]

-- An enqueuer pushes a job, or a worker asks for one; each call meets its own failures.
pub data QueueEvent : Type 0 where
  push : Site → Job → QueueEvent
  pop : Site → QueueEvent

unfoldable pub step : QueueEvent → Station → Station
step (push site job) s = (enqueue_job site job s).0
step (pop site) s = (dequeue site s).0

accepted_if : Job → Bool → List Job
accepted_if job true = job ∷ []
accepted_if job false = []

removed_as : Dequeued → List (Option Job)
removed_as (took job) = some job ∷ []
removed_as nothing = []
removed_as unavailable = []
removed_as unreadable = none ∷ []

accepted_by : QueueEvent → Station → List Job
accepted_by (push site job) s = accepted_if job (enqueue_job site job s).1
accepted_by (pop site) s = []

removed_by : QueueEvent → Station → List (Option Job)
removed_by (push site job) s = []
removed_by (pop site) s = removed_as (dequeue site s).1

unfoldable pub run : List QueueEvent → Station → Station
run [] s = s
run (e ∷ es) s = run es (step e s)

-- The jobs that were enqueued without an error.
unfoldable pub accepted : List QueueEvent → Station → List Job
unfolding accepted_if accepted_by
accepted [] s = []
accepted (e ∷ es) s = accepted_by e s ++ accepted es (step e s)

-- What the workers were given; none stands for an entry that could not be read.
unfoldable pub served : List QueueEvent → Station → List (Option Job)
unfolding removed_as removed_by
served [] s = []
served (e ∷ es) s = removed_by e s ++ served es (step e s)

-- What a site has in common with the others: replies of Valkey are well-formed, payloads are read
-- in the same way, and what was made of a job is read as that job.
pub record IsFaithful (decode : Text → Option Job) (site : Site) : Type 0 where
  pub replies : site.fails replying ≡ false
  pub reads : site.unmarshal_job ≡ decode
  pub returns :
      (job : Job) (payload : Text) → site.marshal_job job ≡ some payload → decode payload ≡ some job

abbrev pub IsFaithfulEvent : (Text → Option Job) → QueueEvent → Type 0
IsFaithfulEvent decode (push site job) = IsFaithful decode site
IsFaithfulEvent decode (pop site) = IsFaithful decode site

module _ (decode : Text → Option Job) where
  -- The jobs in line as they will be read.
  abbrev pub waiting : Station → List (Option Job)
  waiting s = map decode (line s)

  push_payload-waiting :
      (site : Site) (job : Job) (o : Option Text) (s : Station)
      → ((payload : Text) → o ≡ some payload → decode payload ≡ some job)
      → waiting (push_payload site job o s).0
        ≡ waiting s ++ map some (accepted_if job (push_payload site job o s).1)
  unfolding push_payload accepted_if
  push_payload-waiting site job none s law = sym (append-nil (waiting s))
  push_payload-waiting site job (some payload) s law =
      elim (Bool-cases (site.fails (pushing job.part_index))) [
        | inl e ↦ rw e (sym (append-nil (waiting s)))
        | inr e ↦ rw e (
            ap (map decode) (reverse-append (payload ∷ []) s.queue)
            ∙ (map-append decode (line s) (payload ∷ [])
                ∙ ap (λ o. waiting s ++ o ∷ []) (law payload refl)))
      ]

  read_payload-removed : (o : Option Job) → removed_as (read_payload o) ≡ o ∷ []
  unfolding removed_as read_payload
  read_payload-removed none = refl
  read_payload-removed (some job) = refl

  dequeue-waiting :
      (site : Site) (s : Station)
      → IsFaithful decode site
      → removed_as (dequeue site s).1 ++ waiting (dequeue site s).0 ≡ waiting s
  unfolding dequeue dequeued removed_as
  dequeue-waiting site s h = elim (Bool-cases (site.fails popping)) [
    | inl f ↦ rw f refl
    | inr f ↦ elim (Option-cases (last_entry s.queue)) [
      | inl n ↦ rw (f, n) refl
      | inr ((rest, last), e) ↦
          let ends : line s ≡ last ∷ reverse rest =
            ap reverse (last_entry-some s.queue (rest, last) e) ∙ reverse-append rest (last ∷ []) in
          rw (f, e, h.replies, h.reads, ends)
            (ap (λ r. r ++ map decode (reverse rest)) (read_payload-removed (decode last)))
    ]
  ]

  step-waiting :
      (e : QueueEvent) (s : Station)
      → IsFaithfulEvent decode e
      → removed_by e s ++ waiting (step e s) ≡ waiting s ++ map some (accepted_by e s)
  unfolding removed_by step accepted_by enqueue_job
  step-waiting (push site job) s h =
      push_payload-waiting site job (site.marshal_job job) s (h.returns job)
  step-waiting (pop site) s h = dequeue-waiting site s h ∙ sym (append-nil (waiting s))

  -- Whatever enqueuers push and workers ask for, in any order and with any failures of Valkey, what
  -- the workers were given, followed by what is still in line, is what was in line at the start,
  -- followed by the jobs that were enqueued without an error: no job is lost, served twice or
  -- overtaken, if the replies of Valkey are well-formed and JSON returns the jobs that it was given.
  pub fifo :
      (es : List QueueEvent) (s : Station)
      → All (IsFaithfulEvent decode) es
      → served es s ++ waiting (run es s) ≡ waiting s ++ map some (accepted es s)
  unfolding served run accepted
  fifo [] s h = sym (append-nil (waiting s))
  fifo (e ∷ es) s (h, hs) =
      append_assoc (removed_by e s) (served es (step e s)) (waiting (run es (step e s)))
      ∙ (ap (λ r. removed_by e s ++ r) (fifo es (step e s) hs)
          ∙ (sym (
                append_assoc (removed_by e s) (waiting (step e s))
                  (map some (accepted es (step e s))))
              ∙ (ap (λ r. r ++ map some (accepted es (step e s))) (step-waiting e s h)
                  ∙ (append_assoc (waiting s) (map some (accepted_by e s))
                        (map some (accepted es (step e s)))
                      ∙ ap (λ r. waiting s ++ r)
                          (sym (map-append some (accepted_by e s) (accepted es (step e s))))))))
