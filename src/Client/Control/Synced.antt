-- ===== src/Client/Control/Synced.antt =====
-- The wait for the caches ends (pkg/hostpathclient/controller.go).
use hostpathpv_plugin.Base.{
  ℕ, zero, suc, ◌<◌, ◌≤◌, ◌≡◌, ◌∙◌, refl, if◌then◌else◌, Bool-cases, Bool, true, false, ◌&&◌, some,
  List, [], ◌∷◌, arith, Result, ok, err, inl, inr,
}
use hostpathpv_plugin.Client.Control.{
  Wake, timeout, tick, WaitError, timed_out, unsynced_resources, wait_for_resource_synced,
}

-- The first n wakes of a sequence without end.
abbrev pub first : ℕ → (ℕ → Wake) → List Wake
first zero wakes = []
first (suc n) wakes = wakes 0 ∷ first n (λ i. wakes (suc i))

-- A wake at which the wait goes on.
abbrev pub goes_on : Wake → Bool
goes_on timeout = false
goes_on (tick pods nodes volumes) = if pods && (nodes && volumes) then false else true

-- What the wait reports when it ends at a wake.
abbrev pub verdict : Wake → Result WaitError (Unit {0})
verdict timeout = err timed_out
verdict (tick pods nodes volumes) = ok tt

-- The wait ends at wake i: with that wake's verdict, and not before it.
abbrev pub EndsAt : (ℕ → Wake) → ℕ → ℕ → Type 0
EndsAt wakes n i =
    (i < n)
    × (goes_on (wakes i) ≡ false)
    × ((j : ℕ) → j < i → goes_on (wakes j) ≡ true)
    × (wait_for_resource_synced (first n wakes) ≡ some (verdict (wakes i)))

wait_goes_on :
    (w : Wake) (later : List Wake)
    → goes_on w ≡ true
    → wait_for_resource_synced (w ∷ later) ≡ wait_for_resource_synced later
unfolding wait_for_resource_synced unsynced_resources
wait_goes_on timeout later h = absurd (ground arith)
wait_goes_on (tick true true true) later h = absurd (ground arith)
wait_goes_on (tick true true false) later h = refl
wait_goes_on (tick true false v) later h = refl
wait_goes_on (tick false n v) later h = refl

wait_stops :
    (w : Wake) (later : List Wake)
    → goes_on w ≡ false
    → wait_for_resource_synced (w ∷ later) ≡ some (verdict w)
unfolding wait_for_resource_synced unsynced_resources
wait_stops timeout later h = refl
wait_stops (tick true true true) later h = refl
wait_stops (tick true true false) later h = absurd (ground arith)
wait_stops (tick true false v) later h = absurd (ground arith)
wait_stops (tick false n v) later h = absurd (ground arith)

before :
    (wakes : ℕ → Wake) (i : ℕ)
    → goes_on (wakes 0) ≡ true
    → ((j : ℕ) → j < i → goes_on (wakes (suc j)) ≡ true)
    → (j : ℕ) → j < suc i
    → goes_on (wakes j) ≡ true
before wakes i h early zero below = h
before wakes i h early (suc j) below = early j (omega arith)

-- If some wake with a number k below n is the timeout or a tick at which all three informers have
-- synced, then the wait returns within n wakes: at the first such wake, with an error if it is the
-- timeout and with success if it is a tick.
pub wait_for_resource_synced_ends :
    (wakes : ℕ → Wake) (n k : ℕ)
    → k < n
    → goes_on (wakes k) ≡ false
    → (i : ℕ) × (i ≤ k) × EndsAt wakes n i
wait_for_resource_synced_ends wakes zero k below stop = absurd (omega arith)
wait_for_resource_synced_ends wakes (suc n) zero below stop = (
  zero,
  omega arith,
  (omega arith, stop, λ j h. absurd (omega arith), wait_stops (wakes 0) _ stop),
)
wait_for_resource_synced_ends wakes (suc n) (suc k) below stop =
    elim (Bool-cases (goes_on (wakes 0))) [
      | inr now ↦ (
        zero,
        omega arith,
        (omega arith, now, λ j h. absurd (omega arith), wait_stops (wakes 0) _ now),
      )
      | inl more ↦
          let (i, le, ended) =
            wait_for_resource_synced_ends (λ j. wakes (suc j)) n k (omega arith) stop in
          (
            suc i,
            omega arith,
            (
              omega (arith, ended.0),
              ended.1,
              before wakes i more ended.2,
              wait_goes_on (wakes 0) _ more ∙ ended.3,
            ),
          )
    ]
