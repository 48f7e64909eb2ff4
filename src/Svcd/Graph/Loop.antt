-- ===== src/Svcd/Graph/Loop.antt =====
-- The queue loop of ResolveTopologicalSort: its invariant, and that its fuel is enough.
use a_from_scratch_linux_use.Base.{
  ℕ, ◌+◌, ◌<◌, ◌≡◌, refl, Bool, true, ◌&&◌, List, [], ◌∷◌, ◌++◌, ◌==◌, ltb, if◌then◌else◌, arith,
  Bytes, str_eq_iff, str_eq_refl, append_assoc, append-nil,
}
use a_from_scratch_linux_use.Base.Int.{ℤ, pos}
use a_from_scratch_linux_use.Svcd.Graph.{is_zero, pred, update, relax}
use a_from_scratch_linux_use.Svcd.Graph.Count.{occ, occ-append}
use a_from_scratch_linux_use.Svcd.Graph.Edges.{Edges, pending, targets, pending-step}

-- Each dependency is met before its service: of every service of `order`, no edge leads to it from
-- a service that is neither in `seen` nor earlier in `order`.
abbrev pub Respects : Edges → List Bytes → List Bytes → Type 0
Respects e seen [] = Unit
Respects e seen (n ∷ order) = (pending e seen n ≡ 0) × Respects e (seen ++ n ∷ []) order

Respects-snoc :
    (e : Edges) (seen order : List Bytes) (c : Bytes)
    → Respects e seen order
    → pending e (seen ++ order) c ≡ 0
    → Respects e seen (order ++ c ∷ [])
Respects-snoc e seen [] c r h = (rw append-nil at h, tt)
Respects-snoc e seen (n ∷ order) c r h =
    (r.0, Respects-snoc e (seen ++ n ∷ []) order c r.1 (rw append_assoc h))

update-pred :
    (k : Bytes → ℕ) (n : Bytes) (ns : List Bytes) (degree : Bytes → ℤ)
    → ((x : Bytes) → degree x ≡ pos (k x + occ x (n ∷ ns)))
    → (x : Bytes) → update degree n (pred (degree n)) x ≡ pos (k x + occ x ns)
update-pred k n ns degree h x = ground (arith, h x, h n, str_eq_iff x n, str_eq_refl n)

relax-degree :
    (k : Bytes → ℕ) (ns : List Bytes) (degree : Bytes → ℤ) (queue : List Bytes)
    → ((x : Bytes) → degree x ≡ pos (k x + occ x ns))
    → (x : Bytes) → (relax ns degree queue).0 x ≡ pos (k x)
unfolding relax
relax-degree k [] degree queue h x = ground (arith, h x)
relax-degree k (n ∷ ns) degree queue h x = relax-degree k ns _ _ (update-pred k n ns degree h) x

relax-queue :
    (k : Bytes → ℕ) (ns : List Bytes) (degree : Bytes → ℤ) (queue : List Bytes)
    → ((x : Bytes) → degree x ≡ pos (k x + occ x ns))
    → (x : Bytes)
    → occ x (relax ns degree queue).1
      ≡ occ x queue + (if k x == 0 && ltb 0 (occ x ns) then 1 else 0)
unfolding relax
relax-queue k [] degree queue h x = ground arith
relax-queue k (n ∷ ns) degree queue h x =
    let rest =
      relax-queue k ns (update degree n (pred (degree n)))
        (if is_zero (pred (degree n)) then queue ++ n ∷ [] else queue) (update-pred k n ns degree h)
        x in
    ground (arith, rest, h n, str_eq_iff x n, str_eq_refl n, occ-append x queue (n ∷ []))

module _ (e : Edges) (key : Bytes → Bool) where
  -- Between two rounds: inDegree counts the edges from services not yet taken, and the services
  -- taken or queued are, once each, those whose dependencies have all been taken.
  pub record Inv (degree : Bytes → ℤ) (queue taken : List Bytes) : Type 0 where
    pub degrees : (x : Bytes) → degree x ≡ pos (pending e taken x)
    pub placed :
        (x : Bytes) → occ x taken + occ x queue ≡ (if key x && pending e taken x == 0 then 1 else 0)
    pub respects : Respects e [] taken

  module _ (degree : Bytes → ℤ) (c : Bytes) (queue taken : List Bytes)
      (inv : Inv degree (c ∷ queue) taken) where
    pub front_is_ready : (occ c taken ≡ 0) × (key c ≡ true) × (pending e taken c ≡ 0)
    front_is_ready = ground (arith, inv.placed c, str_eq_refl c)

    split_degree :
        (x : Bytes) → degree x ≡ pos (pending e (taken ++ c ∷ []) x + occ x (targets e c))
    split_degree x = ground (arith, inv.degrees x, pending-step e taken c x front_is_ready.0)

    pub relax-Inv :
        ((x : Bytes) → 0 < pending e [] x → key x ≡ true)
        → Inv
            (relax (targets e c) degree queue).0
            (relax (targets e c) degree queue).1
            (taken ++ c ∷ [])
    relax-Inv keyed = record {
      degrees = relax-degree (pending e (taken ++ c ∷ [])) (targets e c) degree queue split_degree;
      placed = λ x. ground (
        arith,
        relax-queue (pending e (taken ++ c ∷ [])) (targets e c) degree queue split_degree x,
        inv.placed x,
        keyed x,
        pending-step e taken c x front_is_ready.0,
        pending-step e [] c x refl,
        occ-append x taken (c ∷ []),
        str_eq_iff x c,
      );
      respects = Respects-snoc e [] taken c inv.respects front_is_ready.2;
    }
