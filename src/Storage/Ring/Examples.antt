-- ===== src/Storage/Ring/Examples.antt =====
-- Tests of the buffer, and its theorems at concrete buffers.
use ironpulse.Prelude.{ℕ, ◌≡◌, refl, List, [], ◌∷◌, some, none, arith}
use ironpulse.Storage.Ring.{make, push, latest, recent}
use ironpulse.Storage.Ring.Refine.{push_all, ring_refines}

abbrev five : List ℕ
five = 4 ∷ 8 ∷ 15 ∷ 16 ∷ 23 ∷ []

recent_two : recent 0 (push_all (make 0 3) five) 2 ≡ 16 ∷ 23 ∷ []
unfolding recent push_all push make
recent_two = refl

recent_all : recent 0 (push_all (make 0 3) five) 9 ≡ 15 ∷ 16 ∷ 23 ∷ []
unfolding recent push_all push make
recent_all = refl

latest_empty : latest {A = ℕ} (make 0 3) ≡ none
unfolding latest make
latest_empty = refl

ring_refines_example :
    let r = push_all (make 0 3) five in
    (r.size ≡ 3) × (recent 0 r 2 ≡ 16 ∷ 23 ∷ []) × (latest r ≡ some 23)
ring_refines_example = ring_refines 0 3 five 2 (omega arith) (omega arith)
