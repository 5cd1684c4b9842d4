-- ===== src/Pool/Ids.antt =====
-- The queue of free session ids of src/session_pool.c: fill_id_queue, allocate_id and release_id.
mod Examples
use high_speed_cproxy.Base.{
  ℕ, zero, suc, ◌+◌, ◌≡◌, ◌≢◌, ◌≤◌, ◌<◌, ◌⊎◌, inl, inr, refl, List, [], ◌∷◌, ◌++◌, arith, dec_lt,
  ℕ_discrete,
}
use high_speed_cproxy.Pool.{fill_from, fill_id_queue, allocate_id, release_id}
use high_speed_cproxy.Pool.Nodes.{count, count-append}

-- Where the id waits in the queue.
count-fill_from :
    (q : List ℕ) (i n x : ℕ)
    → ((x < i) ⊎ (i + n ≤ x) → count x (fill_from q i n) ≡ count x q)
      × (i ≤ x → x < i + n → count x (fill_from q i n) ≡ count x q + 1)
unfolding fill_from
count-fill_from q i zero x = (λ h. refl, λ l u. absurd (omega (arith, l, u)))
count-fill_from q i (suc n) x =
    let ih = count-fill_from (q ++ (i ∷ [])) (i + 1) n x in
    (
      λ h. ground (arith, ih.0, h, count-append x q (i ∷ [])),
      λ l u. ground (arith, ih.0, ih.1, l, u, count-append x q (i ∷ [])),
    )

-- fill_id_queue puts each id from 1 to 1024 into an empty queue once, and nothing else.
pub fill_each_once :
    (x : ℕ)
    → (1 ≤ x → x ≤ 1024 → count x (fill_id_queue []) ≡ 1)
      × ((x ≡ 0) ⊎ (1024 < x) → count x (fill_id_queue []) ≡ 0)
unfolding fill_id_queue
fill_each_once x =
    let f = count-fill_from [] 1 1024 x in
    (λ l u. omega (arith, f.1 l (omega (arith, u))), λ h. f.0 (omega (arith, h)))

-- No id waits twice, and 0 does not wait.
pub record IsFree (q : List ℕ) : Type 0 where
  pub once : (x : ℕ) → count x q ≤ 1
  pub no_zero : count 0 q ≡ 0

fill-IsFree : IsFree (fill_id_queue [])
fill-IsFree = record {
  once = λ x. elim (dec_lt 1024 x) [
    | yes u ↦ omega (arith, (fill_each_once x).1 (inr u))
    | no u ↦ elim (dec_lt 0 x) [
      | yes l ↦ omega (arith, (fill_each_once x).0 (omega arith) (omega arith))
      | no l ↦ omega (arith, (fill_each_once x).1 (inl (omega arith)))
    ]
  ];
  no_zero = (fill_each_once 0).1 (inl refl);
}

count_tail : (x y : ℕ) (q : List ℕ) → count x q ≤ count x (y ∷ q)
count_tail x y q = ground arith

count_head : (x : ℕ) (q : List ℕ) → count x (x ∷ q) ≡ count x q + 1
count_head x q = ground arith

-- What allocate_id does to a queue: it is empty, or it loses the id that is handed out and no other.
abbrev pub IsAllocated : (q : List ℕ) → ℕ × List ℕ → Type 0
IsAllocated q r =
    ((q ≡ []) × (r.0 ≡ 0) × (r.1 ≡ []))
    ⊎ ((r.0 ≢ 0)
        × (count r.0 q ≡ 1)
        × (count r.0 r.1 ≡ 0)
        × ((x : ℕ) → x ≢ r.0 → count x r.1 ≡ count x q))

allocate_keeps : (q : List ℕ) → IsFree q → IsFree (allocate_id q).1 × IsAllocated q (allocate_id q)
unfolding allocate_id
allocate_keeps [] h = (h, inl (refl, refl, refl))
allocate_keeps (y ∷ q) h = (
  record {
    once = λ x. omega (arith, h.once x, count_tail x y q);
    no_zero = omega (arith, h.no_zero, count_tail 0 y q);
  },
  inr (
    λ e. absurd (ground (arith, e, h.no_zero)),
    omega (arith, h.once y, count_head y q),
    omega (arith, h.once y, count_head y q),
    λ x s. ground (arith, s),
  ),
)

release_keeps :
    (q : List ℕ) (id : ℕ)
    → IsFree q
    → id ≢ 0
    → count id q ≡ 0
    → IsFree (release_id q id)
      × (count id (release_id q id) ≡ 1)
      × ((x : ℕ) → x ≢ id → count x (release_id q id) ≡ count x q)
unfolding release_id
release_keeps q id h ne e = (
  record {
    once = λ x. elim (ℕ_discrete x id) [
      | yes s ↦ ground (arith, s, e, count-append x q (id ∷ []), h.once x)
      | no s ↦ ground (arith, s, count-append x q (id ∷ []), h.once x)
    ];
    no_zero = ground (arith, ne, h.no_zero, count-append 0 q (id ∷ []));
  },
  ground (arith, e, count-append id q (id ∷ [])),
  λ x s. ground (arith, s, count-append x q (id ∷ [])),
)

-- A queue is in order if no id waits twice and 0 does not wait. The queue that fill_id_queue leaves is, with each id from 1
-- to 1024 and no other. From a queue in order, allocate_id leaves one in order: it returns 0 and leaves the queue empty
-- if it is empty, and otherwise it returns an id other than 0 that waited and then no longer waits, and every
-- other id waits as before. release_id of an id other than 0 that does not wait leaves a queue in order in which
-- the id waits, and every other id waits as before.
pub ids_preserved :
    (q : List ℕ) (id : ℕ)
    → IsFree q
    → id ≢ 0
    → count id q ≡ 0
    → IsFree (fill_id_queue [])
      × ((x : ℕ)
          → (1 ≤ x → x ≤ 1024 → count x (fill_id_queue []) ≡ 1)
            × ((x ≡ 0) ⊎ (1024 < x) → count x (fill_id_queue []) ≡ 0))
      × IsFree (allocate_id q).1
      × IsAllocated q (allocate_id q)
      × IsFree (release_id q id)
      × (count id (release_id q id) ≡ 1)
      × ((x : ℕ) → x ≢ id → count x (release_id q id) ≡ count x q)
ids_preserved q id h ne e =
    let (kept, allocated) = allocate_keeps q h in
    let (in_order, waits, others) = release_keeps q id h ne e in
    (fill-IsFree, fill_each_once, kept, allocated, in_order, waits, others)

fill_from-cons : (q : List ℕ) (x i n : ℕ) → fill_from (x ∷ q) i n ≡ x ∷ fill_from q i n
unfolding fill_from
fill_from-cons q x i zero = refl
fill_from-cons q x i (suc n) = fill_from-cons (q ++ (i ∷ [])) x (i + 1) n

-- The first id and the others.
pub fill_id_queue_first : fill_id_queue [] ≡ 1 ∷ fill_from [] 2 1023
unfolding fill_id_queue fill_from
fill_id_queue_first = fill_from-cons [] 1 2 1023
