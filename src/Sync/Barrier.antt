-- ===== src/Sync/Barrier.antt =====
-- The barrier of n parties: every party comes with the offset n.
use vfi.Prelude.{ℕ, suc, ◌+◌, ◌*◌, ◌^◌, ◌<◌, ◌≡◌, ◌⊎◌, inl, inr, arith}
use vfi.Sync.{
  System, Step, Reach, here, next, send, wait, leave, interrupt, arrive, sync_send, sync_wait,
}

-- Before the first arrival.
abbrev pub fresh : System
fresh = record { sync = record { count = 0 }; sleeping = 0; arrivals = 0 }

abbrev pub state : ℕ → ℕ → ℕ → System
state count sleeping arrivals = record {
  sync = record { count = count };
  sleeping = sleeping;
  arrivals = arrivals;
}

-- The count is what is missing in the current round.
record Inv (n : ℕ) (s : System) : Type 0 where
  rounds : ℕ
  exact : s.sync.count + s.arrivals ≡ rounds * n
  small : s.sync.count < n

arrive-cases :
    (n c : ℕ)
    → 0 < n
    → n < 2 ^ 31
    → ((c ≡ 0) × ((arrive n (record { count = c })).1.count + 1 ≡ n))
      ⊎ ((arrive n (record { count = c })).1.count + 1 ≡ c)
unfolding arrive
arrive-cases n c h small = ground arith

arrive-Inv :
    (n : ℕ) (s : System) (sleeping : ℕ)
    → 0 < n
    → n < 2 ^ 31
    → Inv n s
    → Inv n (record { sync = (arrive n s.sync).1; sleeping = sleeping; arrivals = s.arrivals + 1 })
arrive-Inv n s sleeping h small v = elim (arrive-cases n s.sync.count h small) [
  | inl (z, e) ↦ record {
    rounds = suc v.rounds;
    exact = omega (arith, v.exact);
    small = omega arith;
  }
  | inr e ↦ record {
    rounds = v.rounds;
    exact = omega (arith, v.exact);
    small = omega (arith, v.small);
  }
]

Step-Inv : {n : ℕ} {s t : System} → 0 < n → n < 2 ^ 31 → Step n s t → Inv n s → Inv n t
unfolding sync_send sync_wait
Step-Inv {n} h w (send s) v = arrive-Inv n s s.sleeping h w v
Step-Inv {n} h w (wait s) v = arrive-Inv n s _ h w v
Step-Inv h w (leave s p e) v = record { rounds = v.rounds; exact = v.exact; small = v.small }
Step-Inv h w (interrupt s p) v = record { rounds = v.rounds; exact = v.exact; small = v.small }

Reach-Inv : {n : ℕ} {s t : System} → 0 < n → n < 2 ^ 31 → Inv n s → Reach n s t → Inv n t
Reach-Inv h w v here = v
Reach-Inv h w v (next r st) = Step-Inv h w st (Reach-Inv h w v r)

-- In every interleaving of sends, waits, wake-ups and interrupted waits on a barrier whose count is 0 at
-- the start, and whose parties all come with the offset n, which is above 0 and below 2 ^ 31, the count
-- is what the arrivals lack to a whole number of rounds of n, and below n.
pub count_completes_round :
    {n : ℕ} {s : System}
    → 0 < n
    → n < 2 ^ 31
    → Reach n fresh s
    → (rounds : ℕ) × (s.sync.count + s.arrivals ≡ rounds * n) × (s.sync.count < n)
count_completes_round {n} h w r =
    let v = Reach-Inv h w (record { rounds = 0; exact = omega arith; small = h }) r in
    (v.rounds, v.exact, v.small)
