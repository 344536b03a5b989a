-- ===== src/Tts/Worker/Waiting.antt =====
-- tts/worker.go: that the wait for the sound of another worker ends.
use mamechat.Prelude.{
  ℕ, zero, suc, ◌+◌, ◌*◌, ◌≤◌, ◌≡◌, refl, false, some, Text, ltb, arith, Bool-cases, Option-cases,
  inl, inr,
}
use mamechat.Chat.Time.{Time, Duration}
use mamechat.Tts.Station.{Station}
use mamechat.Tts.Worker.{
  Round, Waited, wait_cached_asset, cached_asset, wait_timeout, wait_fuel, timed_out, cancelled,
  appeared,
}

abbrev pub half_second : Duration
half_second = 500000000

-- Each look is at least half a second after the one before it.
abbrev pub IsPaced : (ℕ → Round) → Type 0
IsPaced rounds = (k : ℕ) → (rounds k).clock + half_second ≤ (rounds (suc k)).clock

-- The look at which the deadline has passed is the last.
wait_cached_asset-total :
    (fuel : ℕ) (rounds : ℕ → Round) (deadline : Time) (hash : Text) (k : ℕ) (s : Station)
    → IsPaced rounds
    → deadline ≤ (rounds k).clock + fuel * half_second
    → (r : Station × Waited) × (wait_cached_asset (suc fuel) rounds deadline hash k s ≡ some r)
unfolding wait_cached_asset
wait_cached_asset-total zero rounds deadline hash k s paced h =
    let late : ltb (rounds k).clock deadline ≡ false = ground arith in
    rw late ((s, timed_out), refl)
wait_cached_asset-total (suc fuel) rounds deadline hash k s paced h =
    let s' = (cached_asset (rounds k).site hash s).0 in
    elim (Bool-cases (ltb (rounds k).clock deadline)) [
      | inr late ↦ rw late ((s, timed_out), refl)
      | inl early ↦ rw early (elim (Option-cases (cached_asset (rounds k).site hash s).1) [
        | inr (a, found) ↦ rw found ((s', appeared a), refl)
        | inl absent ↦ rw absent (elim (Bool-cases (rounds k).over) [
          | inl over ↦ rw over ((s', cancelled), refl)
          | inr on ↦ rw on (
              wait_cached_asset-total fuel rounds deadline hash (suc k) ((rounds k).meanwhile s')
                paced (omega (arith, paced k)))
        ])
      ])
    ]

-- The wait of a worker ends within its fuel.
pub wait_ends :
    (rounds : ℕ → Round) (start : Time) (hash : Text) (s : Station)
    → IsPaced rounds
    → start ≤ (rounds 0).clock
    → (r : Station × Waited) × (wait_cached_asset wait_fuel rounds (start + wait_timeout) hash 0 s
        ≡ some r)
wait_ends rounds start hash s paced h =
    wait_cached_asset-total 24 rounds (start + wait_timeout) hash 0 s paced (omega arith)
