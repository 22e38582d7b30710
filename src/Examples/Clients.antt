-- ===== src/Examples/Clients.antt =====
-- A pool of two clients.
use thunder_go.Prelude.{ℕ, Option, [], ◌∷◌}
use thunder_go.Pool.{Pool, new_pool, acquire_best}
use thunder_go.Pool.Selection.{Chosen, acquire_best-Chosen}
use thunder_go.Pool.Leases.{
  System, here, next, acquires, calls, acquire, call, Inv, started_Reach-Inv,
}
use thunder_go.Prelude.Int.{pos}

abbrev pair_of_clients : Pool
pair_of_clients = record { inflight = 1 ∷ 0 ∷ []; max_concurrent = 8 }

abbrev started : System
started = record { pool = new_pool (pos 1) 2; leases = [] }

started_Reach-Inv_example : Inv (call 0 (call 0 (acquire started)))
started_Reach-Inv_example = started_Reach-Inv (pos 1) 2 (
    next (next (next here (acquires started)) (calls 0 (acquire started)))
      (calls 0 (call 0 (acquire started))))

acquire_best-Chosen_example :
    (b : Option (ℕ × ℕ)) × Chosen pair_of_clients b (acquire_best pair_of_clients)
acquire_best-Chosen_example = acquire_best-Chosen pair_of_clients
