-- ===== src/Pool/Nodes.antt =====
-- The tail queues of src/session_pool.c and include/dev.h: linking and unlinking sessions
-- (include/session.h) and session nodes (include/dev.h).
use high_speed_cproxy.Base.{
  ℕ, suc, ◌+◌, ◌≡◌, ◌≢◌, ◌⊎◌, refl, Bool, true, false, List, [], ◌∷◌, ◌++◌, arith, ◌==◌,
  if◌then◌else◌, remove, ℕ_discrete,
}
use high_speed_cproxy.Pool.{
  HighSpeedNetDevice, link_to_queue, unlink_from_queue, insert_session_node, remove_session_node,
  append_node, take_node,
}

-- How often a number stands in a list.
abbrev pub count : ℕ → List ℕ → ℕ
count x [] = 0
count x (y ∷ ys) = let rest = count x ys in if x == y then suc rest else rest

pub count-append : (x : ℕ) (xs ys : List ℕ) → count x (xs ++ ys) ≡ count x xs + count x ys
count-append x [] ys = omega arith
count-append x (y ∷ xs) ys = ground (arith, count-append x xs ys)

-- A removal takes the one element just appended, if it was not there before.
pub remove-snoc : (x : ℕ) (xs : List ℕ) → count x xs ≡ 0 → remove x (xs ++ (x ∷ [])) ≡ xs
remove-snoc x [] h = ground arith
remove-snoc x (y ∷ ys) h = elim (ℕ_discrete x y) [
  | yes e ↦ absurd (ground (arith, e, h))
  | no ne ↦ ground (arith, ne, h, remove-snoc x ys (ground (arith, ne, h)))
]

count-remove : (x : ℕ) (xs : List ℕ) → count x xs ≡ 1 → count x (remove x xs) ≡ 0
count-remove x [] h = absurd (omega (arith, h))
count-remove x (y ∷ ys) h = elim (ℕ_discrete x y) [
  | yes e ↦ ground (arith, e, h)
  | no ne ↦ ground (arith, ne, h, count-remove x ys (ground (arith, ne, h)))
]

-- A session stands once in a queue if its flag is set, and not at all if it is clear.
abbrev pub Linked : List ℕ → ℕ → Bool → Type 0
Linked q sess true = count sess q ≡ 1
Linked q sess false = count sess q ≡ 0

-- Linking leaves the session in the queue once and its flag set, however often it is done; unlinking
-- leaves it out of the queue and its flag clear. For a session that was not linked, unlinking after
-- linking gives back the queue as it was.
link_unlink :
    (q : List ℕ) (sess : ℕ) (flag : Bool)
    → Linked q sess flag
    → Linked (link_to_queue q sess flag).0 sess (link_to_queue q sess flag).1
      × ((link_to_queue q sess flag).1 ≡ true)
      × Linked (unlink_from_queue q sess flag).0 sess (unlink_from_queue q sess flag).1
      × ((unlink_from_queue q sess flag).1 ≡ false)
      × (flag ≡ false → (unlink_from_queue (link_to_queue q sess flag).0 sess true).0 ≡ q)
unfolding link_to_queue unlink_from_queue
link_unlink q sess true h = (h, refl, count-remove sess q h, refl, λ e. absurd (ground (arith, e)))
link_unlink q sess false h =
    (ground (arith, count-append sess q (sess ∷ []), h), refl, h, refl, λ e. remove-snoc sess q h)

-- The node stands in neither of the device's two session queues.
pub record IsApart (dev : HighSpeedNetDevice) (node : ℕ) : Type 0 where
  pub udp : count node dev.udp_node_queue ≡ 0
  pub tcp : count node dev.tcp_node_queue ≡ 0

-- A node of an unlinked session inserted for a known protocol (UDP or TCP) and removed for the same one
-- leaves the device as it was and the session unlinked. For another protocol the insert fails, and the
-- device and the flag are as they were.
insert_remove :
    (dev : HighSpeedNetDevice) (node proto_type : ℕ)
    → IsApart dev node
    → ((proto_type ≡ 0) ⊎ (proto_type ≡ 1)
        → (dev' : HighSpeedNetDevice) × (insert_session_node dev node proto_type false
            ≡ (true, dev', true))
          × (remove_session_node dev' node proto_type true ≡ (dev, false)))
      × (proto_type ≢ 0
          → proto_type ≢ 1
          → insert_session_node dev node proto_type false ≡ (false, dev, false))
unfolding insert_session_node remove_session_node append_node take_node
insert_remove dev node proto_type h = (
  λ k. (
    append_node dev node proto_type,
    ground (arith, k),
    ground (
      arith,
      k,
      remove-snoc node dev.udp_node_queue h.udp,
      remove-snoc node dev.tcp_node_queue h.tcp,
    ),
  ),
  λ a b. ground (arith, a, b),
)
