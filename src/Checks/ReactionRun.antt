-- ===== src/Checks/ReactionRun.antt =====
-- react.c with 100 milliseconds: a start at 5.9 s, two expiries, and the key at 6.15 s.
use sp327_alonso_a.Common.{◌≡◌, ◌≤◌, refl, true, some, [], ◌∷◌, arith}
use sp327_alonso_a.Common.Int.{pos, ◌-ℤ◌, ◌+ℤ◌}
use sp327_alonso_a.Reaction.{
  borrowed, expired, pressed, late, jumped, TimeSpec, timerspecsub, random_start, react,
}
use sp327_alonso_a.Reaction.Game.{at, game, Difference, Period, react-game}

quarter_second : timerspecsub (at 6 150000000) (at 5 900000000) ≡ at 0 250000000
unfolding timerspecsub borrowed ◌-ℤ◌ ◌+ℤ◌
quarter_second = refl

react-game_example :
    (timer : TimeSpec) × Period 100 timer
    × (react 2 (pos 100) true 17 (game (at 5 900000000) 2 (at 6 150000000)) ≡ record {
      timer = some timer;
      alarm = some (random_start 17 1 5);
      outcome = late (timerspecsub (at 6 150000000) (at 5 900000000)) 2;
    })
    × Difference 5 900000000 6 150000000
    × ((1 ≤ random_start 17 1 5) × (random_start 17 1 5 ≤ 5))
    × ((react 2 (pos 100) true 17 (pressed (some (at 3 0)) ∷ expired ∷ [])).outcome ≡ jumped)
react-game_example =
    react-game 2 99 17 1 5 900000000 6 150000000 (at 3 0) (expired ∷ []) (omega arith) (omega arith)
      (omega arith) (omega arith) (omega arith)
