-- ===== src/Engine/Passes/Pending.antt =====
-- The fourth step of engine_run_hyperamp of src/engine.c at one session of the queue.
use mathlib.Core.List.{append-nil, append_assoc, map-append}
use high_speed_cproxy.Base.{
  ℕ, ◌+◌, ◌≤◌, ◌≡◌, ◌≢◌, ◌⊎◌, inl, inr, refl, sym, ap, ap₂, subst, ◌∙◌, true, false, Option, none,
  some, List, [], ◌∷◌, ◌++◌, map, arith, ◌==◌, if◌then◌else◌, ℕ_discrete, length,
}
use high_speed_cproxy.Shm.{Shm}
use high_speed_cproxy.Shm.Fifo.{Rep}
use high_speed_cproxy.Selector.{process_ok, process_again}
use high_speed_cproxy.Pool.{SessMsgSeg, BackendSession, BackendSessionPool}
use high_speed_cproxy.Pool.Nodes.{count}
use high_speed_cproxy.Pool.Links.{times_b2f, IsLinked, kept_f2b, kept_b2f, removed_b2f}
use high_speed_cproxy.Transfer.Drain.{Fit, message, IsDrained}
use high_speed_cproxy.Engine.Passes.{b2f_done}

-- The messages that a session, or some sessions one after the other, have for the frontend.
abbrev pub messages_of : Option BackendSession → List (List ℕ)
messages_of none = []
messages_of (some sess) = map message sess.msg_b2f

abbrev pub pending : (ℕ → Option BackendSession) → List ℕ → List (List ℕ)
pending heap [] = []
pending heap (a ∷ todo) = messages_of (heap a) ++ pending heap todo

pending-agree :
    (h k : ℕ → Option BackendSession) (todo : List ℕ)
    → ((a : ℕ) → count a todo ≢ 0 → h a ≡ k a)
    → pending h todo ≡ pending k todo
pending-agree h k [] e = refl
pending-agree h k (x ∷ todo) e =
    ap₂ (λ v l. messages_of v ++ l) (e x (λ z. absurd (ground (arith, z))))
      (pending-agree h k todo (λ a n. e a (λ z. n (ground (arith, z)))))

-- Every segment of every session fits a block.
abbrev pub AllFit : ℕ → (ℕ → Option BackendSession) → Type 0
AllFit block_size heap =
    (a : ℕ) (sess : BackendSession) → heap a ≡ some sess → Fit block_size sess.msg_b2f

-- What the pass leaves of the sessions `todo`: the messages `taken` have joined the queue.
pub record IsPassed (base : ℕ) (s' : Shm) (ms : List (List ℕ)) (p q : BackendSessionPool)
    (todo : List ℕ) : Type 0 where
  pub taken : List (List ℕ)
  pub rep : Rep base s' (ms ++ taken)
  pub order : pending p.heap todo ≡ taken ++ pending q.heap todo
  pub linked : IsLinked q
  pub others : (a : ℕ) → count a todo ≡ 0 → q.heap a ≡ p.heap a
  pub outcome : (pending q.heap todo ≡ []) ⊎ (length (ms ++ taken) + 1 ≡ s'.capacity)

module _ (p : BackendSessionPool) (x : ℕ) (todo : List ℕ) (sess : BackendSession) (l : IsLinked p)
    (live : p.heap x ≡ some sess) (flag : sess.state_b2f ≡ true) (once : count x todo ≡ 0)
    (base : ℕ) (s s₁ : Shm) (ms : List (List ℕ)) (left : List SessMsgSeg) where
  unfoldable pub ok_pool : BackendSessionPool
  ok_pool = b2f_done p x sess process_ok left

  unfoldable pub again_pool : BackendSessionPool
  again_pool = b2f_done p x sess process_again left

  ok-heap :
      (a : ℕ)
      → ok_pool.heap a
        ≡ (if a == x then some (record sess { msg_b2f = left; state_b2f = false }) else p.heap a)
  unfolding ok_pool b2f_done
  ok-heap a = ground arith

  again-heap :
      (a : ℕ)
      → again_pool.heap a ≡ (if a == x then some (record sess { msg_b2f = left }) else p.heap a)
  unfolding again_pool b2f_done
  again-heap a = ground arith

  pub ok-IsLinked : IsLinked ok_pool
  unfolding ok_pool b2f_done
  ok-IsLinked = record {
    f2b = kept_f2b p x sess l live (some (record sess { msg_b2f = left; state_b2f = false })) refl;
    b2f =
        removed_b2f p x sess l live flag (some (record sess { msg_b2f = left; state_b2f = false }))
          refl;
  }

  again-IsLinked : IsLinked again_pool
  unfolding again_pool b2f_done
  again-IsLinked = record {
    f2b = kept_f2b p x sess l live (some (record sess { msg_b2f = left })) refl;
    b2f = kept_b2f p x sess l live (some (record sess { msg_b2f = left })) refl;
  }

  other_ok : (a : ℕ) → a ≢ x → ok_pool.heap a ≡ p.heap a
  other_ok a ne =
      ok-heap a ∙ if_other (some (record sess { msg_b2f = left; state_b2f = false })) a ne
    where
      if_other :
          (v : Option BackendSession) (a : ℕ) → a ≢ x → (if a == x then v else p.heap a) ≡ p.heap a
      if_other v a ne = ground (arith, ne)

  other_again : (a : ℕ) → a ≢ x → again_pool.heap a ≡ p.heap a
  other_again a ne = again-heap a ∙ if_other (some (record sess { msg_b2f = left })) a ne
    where
      if_other :
          (v : Option BackendSession) (a : ℕ) → a ≢ x → (if a == x then v else p.heap a) ≡ p.heap a
      if_other v a ne = ground (arith, ne)

  in_rest : (a : ℕ) → count a todo ≢ 0 → a ≢ x
  in_rest a n e = n (ap (λ b. count b todo) e ∙ once)

  again_here : again_pool.heap x ≡ some (record sess { msg_b2f = left })
  again_here = again-heap x ∙ at_x (some (record sess { msg_b2f = left }))
    where
      at_x : (v : Option BackendSession) → (if x == x then v else p.heap x) ≡ v
      at_x v = ground arith

  ok_here : ok_pool.heap x ≡ some (record sess { msg_b2f = left; state_b2f = false })
  ok_here = ok-heap x ∙ at_x (some (record sess { msg_b2f = left; state_b2f = false }))
    where
      at_x : (v : Option BackendSession) → (if x == x then v else p.heap x) ≡ v
      at_x v = ground arith

  pub again-IsPassed :
      IsDrained base s s₁ ms sess.msg_b2f left process_again
      → IsPassed base s₁ ms p again_pool (x ∷ todo)
  again-IsPassed d = record {
    taken = map message d.taken;
    rep = d.rep;
    order =
        ap₂ (λ v l. messages_of v ++ l) live
          (pending-agree p.heap again_pool.heap todo (λ a n. sym (other_again a (in_rest a n))))
        ∙ ap (λ l. l ++ pending again_pool.heap todo)
            (ap (map message) d.split ∙ map-append message d.taken left)
        ∙ append_assoc (map message d.taken) (map message left) (pending again_pool.heap todo)
        ∙ ap (λ v. map message d.taken ++ (messages_of v ++ pending again_pool.heap todo))
            (sym again_here);
    linked = again-IsLinked;
    others = λ a n. other_again a (λ e. absurd (ground (arith, n, e)));
    outcome = inr (elim d.outcome [ inl h ↦ absurd (ground (arith, h.0)) | inr h ↦ h.2 ]);
  }

  pub ok-IsPassed :
      (s' : Shm) (q : BackendSessionPool) (d : IsDrained base s s₁ ms sess.msg_b2f left process_ok)
      → IsPassed base s' (ms ++ map message d.taken) ok_pool q todo
      → IsPassed base s' ms p q (x ∷ todo)
  ok-IsPassed s' q d r =
      let done : left ≡ [] = elim d.outcome [
        | inl h ↦ h.1
        | inr h ↦ absurd (ground (arith, h.0))
      ] in
      let nothing : messages_of (q.heap x) ≡ [] =
        ap messages_of (r.others x once ∙ ok_here) ∙ ap (map message) done in
      record {
        taken = map message d.taken ++ r.taken;
        rep = subst (Rep base s') (append_assoc ms (map message d.taken) r.taken) r.rep;
        order =
            ap₂ (λ v l. messages_of v ++ l) live
              (pending-agree p.heap ok_pool.heap todo (λ a n. sym (other_ok a (in_rest a n)))
                ∙ r.order)
            ∙ ap (λ l. l ++ (r.taken ++ pending q.heap todo))
                (ap (map message) (d.split ∙ ap (λ l. d.taken ++ l) done ∙ append-nil d.taken))
            ∙ sym (append_assoc (map message d.taken) r.taken (pending q.heap todo))
            ∙ ap (λ l. (map message d.taken ++ r.taken) ++ (l ++ pending q.heap todo))
                (sym nothing);
        linked = r.linked;
        others =
            λ a n. r.others a (ground (arith, n)) ∙ other_ok a (λ e. absurd (ground (arith, n, e)));
        outcome = elim r.outcome [
          | inl h ↦ inl (ap₂ (λ l k. l ++ k) nothing h)
          | inr h ↦
              inr (ap (λ l. length l + 1) (sym (append_assoc ms (map message d.taken) r.taken)) ∙ h)
        ];
      }

  pub to_come :
      ((a : ℕ) → count a (x ∷ todo) ≤ count a p.queue_b2f)
      → (a : ℕ) → count a todo ≤ count a ok_pool.queue_b2f
  to_come h a = elim (ℕ_discrete a x) [
    | yes e ↦ omega (arith, ap (λ b. count b todo) e, once)
    | no ne ↦
        let fewer : count a todo ≤ count a p.queue_b2f = ground (arith, ne, h a) in
        omega (arith, fewer, ok-IsLinked.b2f a, ap times_b2f (other_ok a ne), l.b2f a)
  ]

  pub still_fit :
      left ≡ []
      → AllFit s.block_size p.heap
      → s₁.block_size ≡ s.block_size
      → AllFit s₁.block_size ok_pool.heap
  still_fit done f b a t e = elim (ℕ_discrete a x) [
    | yes same ↦
        subst (Fit s₁.block_size)
          (sym (ap segments (sym e ∙ ap ok_pool.heap same ∙ ok_here) ∙ done)) tt
    | no ne ↦ subst (λ n. Fit n t.msg_b2f) (sym b) (f a t (sym (other_ok a ne) ∙ e))
  ]
    where
      segments : Option BackendSession → List SessMsgSeg
      segments none = []
      segments (some t) = t.msg_b2f
