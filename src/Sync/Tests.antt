-- ===== src/Sync/Tests.antt =====
-- A barrier of three parties.
use vfi.Prelude.{ℕ, ◌+◌, ◌*◌, ◌≡◌, ◌<◌, refl, arith}
use vfi.Sync.{Reach, here, next, wait, sync_wait, new}
use vfi.Sync.Barrier.{fresh, state, count_completes_round}

two_of_three : Reach 3 fresh (state 1 2 2)
unfolding sync_wait
two_of_three = next (next here (wait fresh)) (wait _)

created : new 3 ≡ record { count = 3 }
unfolding new
created = refl

count_completes_round_example : (rounds : ℕ) × (1 + 2 ≡ rounds * 3) × (1 < 3)
count_completes_round_example = count_completes_round (omega arith) (omega arith) two_of_three
