-- ===== src/Pool/Ids/Examples.antt =====
-- A queue of two ids, and a third one.
use high_speed_cproxy.Base.{ℕ, ◌≡◌, ◌≢◌, ◌≤◌, ◌<◌, ◌⊎◌, refl, List, [], ◌∷◌, arith}
use high_speed_cproxy.Pool.{fill_id_queue, allocate_id, release_id}
use high_speed_cproxy.Pool.Nodes.{count}
use high_speed_cproxy.Pool.Ids.{IsFree, IsAllocated, ids_preserved}

abbrev two_ids : List ℕ
two_ids = 3 ∷ 7 ∷ []

two_ids-IsFree : IsFree two_ids
two_ids-IsFree = record { once = λ x. ground arith; no_zero = refl }

ids_preserved_example :
    IsFree (fill_id_queue [])
    × ((x : ℕ)
        → (1 ≤ x → x ≤ 1024 → count x (fill_id_queue []) ≡ 1)
          × ((x ≡ 0) ⊎ (1024 < x) → count x (fill_id_queue []) ≡ 0))
    × IsFree (allocate_id two_ids).1
    × IsAllocated two_ids (allocate_id two_ids)
    × IsFree (release_id two_ids 5)
    × (count 5 (release_id two_ids 5) ≡ 1)
    × ((x : ℕ) → x ≢ 5 → count x (release_id two_ids 5) ≡ count x two_ids)
ids_preserved_example = ids_preserved two_ids 5 two_ids-IsFree (λ e. absurd (omega (arith, e))) refl
