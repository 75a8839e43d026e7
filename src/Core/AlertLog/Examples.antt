-- ===== src/Core/AlertLog/Examples.antt =====
-- The alert log at concrete alerts, numbers here.
use ironpulse.Prelude.{ℕ, ◌≡◌, List, [], ◌∷◌}
use ironpulse.Core.AlertLog.{push_all, recent, push_all-recent}

abbrev four : List ℕ
four = 1 ∷ 2 ∷ 3 ∷ 4 ∷ []

push_all-recent_example :
    ((push_all (record { capacity = 3; events = [] }) four).events ≡ 2 ∷ 3 ∷ 4 ∷ [])
    × (recent (push_all (record { capacity = 3; events = [] }) four) 2 ≡ 4 ∷ 3 ∷ [])
push_all-recent_example = push_all-recent 3 four 2
