-- ===== src/RunWalk/Rounds.antt =====
-- The rounds of runwalk_timer.c.
use sp327_alonso_a.Common.{
  ℕ, zero, suc, ◌+◌, ◌*◌, ◌^◌, ◌≤◌, ◌<◌, ◌≡◌, ap, ◌∙◌, Bool, true, false, List, [], ◌∷◌, ◌++◌,
  arith,
}
use sp327_alonso_a.Common.Int.{ℤ}
use sp327_alonso_a.Common.Run.{ok, exits}
use sp327_alonso_a.RunWalk.{
  run, walk, RunWalk, its_time, expiries, init_and_arm, Parsed, seconds, verbosity_fits, runwalk,
}

-- The results of `timer_settime` in `n` rounds of running and walking.
abbrev pub round_trips : ℕ → List Bool
round_trips zero = []
round_trips (suc n) = true ∷ true ∷ round_trips n

-- In front of a run of `u` seconds, after `e`.
abbrev pub running : (u v e : ℕ) → RunWalk
running u v e = record { trun = u; twalk = v; activity = run; it_value = u; elapsed = e }

abbrev pub walking : (u v e : ℕ) → RunWalk
walking u v e = record { trun = u; twalk = v; activity = walk; it_value = v; elapsed = e }

rounds :
    (n u v e : ℕ) (rest : List Bool)
    → expiries (round_trips n ++ rest) (running u v e)
      ≡ expiries rest (running u v (e + n * (u + v)))
unfolding expiries its_time
rounds zero u v e rest =
    let z : e ≡ e + 0 * (u + v) = omega arith in ap (λ t. expiries rest (running u v t)) z
rounds (suc n) u v e rest =
    let z : e + u + v + n * (u + v) ≡ e + suc n * (u + v) = grind arith in
    rounds n u v (e + u + v) rest ∙ ap (λ t. expiries rest (running u v t)) z

seconds_wrap :
    (w u : ℕ)
    → 1 ≤ u
    → u < 2 ^ 31
    → seconds (record { value = w * 2 ^ 32 + u; invalid = false }) ≡ ok u
unfolding seconds
seconds_wrap w u low high = ground arith

seconds_refused :
    (w x : ℕ)
    → 2 ^ 31 ≤ x
    → x < 2 ^ 32
    → seconds (record { value = w * 2 ^ 32 + x; invalid = false }) ≡ exits
unfolding seconds
seconds_refused w x low high = ground arith

runs :
    (argc : ℕ) (verbose : ℤ) (first second : Parsed) {u v : ℕ} (settimes : List Bool)
    → 3 ≤ argc
    → verbosity_fits argc verbose ≡ true
    → seconds first ≡ ok u
    → seconds second ≡ ok v
    → runwalk argc verbose first second true true settimes ≡ expiries settimes (running u v 0)
unfolding runwalk init_and_arm
runs argc verbose first second settimes args fits h k = rw (fits, h, k) (ground arith)

refuses :
    (argc : ℕ) (verbose : ℤ) (first second : Parsed) (settimes : List Bool)
    → seconds first ≡ exits
    → runwalk argc verbose first second true true settimes ≡ exits
unfolding runwalk
refuses argc verbose first second settimes h = rw h (ground arith)

abbrev pub parsed : (w u : ℕ) → Parsed
parsed w u = record { value = w * 2 ^ 32 + u; invalid = false }

-- The arguments are accepted, and `strtoul` has read numbers whose last 32 bits are `u` and `v`,
-- from 1 to 2^31 - 1, whatever is in front of these bits. If no call fails, then after `n` runs and
-- walks `n` times the sum of `u` and `v` has passed and the timer is armed for a run of `u`
-- seconds; at the next expiry `u` seconds more have passed, and it is armed for a walk of `v`
-- seconds. If the last 32 bits of the first number are 2^31 or more, the program ends.
pub runwalk_rounds :
    (argc : ℕ) (verbose : ℤ) (w u w' v x n : ℕ)
    → 3 ≤ argc
    → verbosity_fits argc verbose ≡ true
    → 1 ≤ u
    → u < 2 ^ 31
    → 1 ≤ v
    → v < 2 ^ 31
    → 2 ^ 31 ≤ x
    → x < 2 ^ 32
    → (runwalk argc verbose (parsed w u) (parsed w' v) true true (round_trips n ++ [])
        ≡ ok (running u v (n * (u + v))))
      × (runwalk argc verbose (parsed w u) (parsed w' v) true true (round_trips n ++ true ∷ [])
          ≡ ok (walking u v (n * (u + v) + u)))
      × (runwalk argc verbose (parsed w x) (parsed w' v) true true (round_trips n) ≡ exits)
unfolding expiries its_time
runwalk_rounds argc verbose w u w' v x n args fits lu hu lv hv lx hx =
    let first = seconds_wrap w u lu hu in
    let second = seconds_wrap w' v lv hv in
    let z : 0 + n * (u + v) ≡ n * (u + v) = omega arith in
    (
      runs argc verbose (parsed w u) (parsed w' v) (round_trips n ++ []) args fits first second
          ∙ rounds n u v 0 []
          ∙ ap (λ t. ok (running u v t)) z,
      runs argc verbose (parsed w u) (parsed w' v) (round_trips n ++ true ∷ []) args fits first
            second
          ∙ rounds n u v 0 (true ∷ [])
          ∙ ap (λ t. ok (walking u v (t + u))) z,
      refuses argc verbose (parsed w x) (parsed w' v) (round_trips n) (seconds_refused w x lx hx),
    )
