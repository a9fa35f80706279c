-- ===== src/Broadcast/Queue/Removal.antt =====
-- The removal by indices at the end of a flush (broadcast/queue.ts).
use openclaw_event_server_pl.Common.{
  ℕ, zero, suc, ◌≡◌, refl, Bool, true, false, List, [], ◌∷◌, ◌≤◌, arith, if◌then◌else◌, length, ap,
}
use openclaw_event_server_pl.Broadcast.Queue.{QueuedEvent, splice, remove_indices}

-- The positions, from `base` on, at which the decision is to remove, ascending.
abbrev pub marked : ℕ → List Bool → List ℕ
marked base [] = []
marked base (d ∷ ds) = if d then base ∷ marked (suc base) ds else marked (suc base) ds

-- What the decisions leave; entries past the last decision stay.
abbrev pub survivors : List Bool → List QueuedEvent → List QueuedEvent
survivors [] xs = xs
survivors (d ∷ ds) [] = []
survivors (d ∷ ds) (x ∷ xs) = if d then survivors ds xs else x ∷ survivors ds xs

remove_indices-shifted :
    (base : ℕ) (ds : List Bool) (x : QueuedEvent) (xs : List QueuedEvent)
    → remove_indices (marked (suc base) ds) (x ∷ xs) ≡ x ∷ remove_indices (marked base ds) xs
unfolding remove_indices
remove_indices-shifted base [] x xs = refl
remove_indices-shifted base (true ∷ ds) x xs =
    ap (splice (suc base)) (remove_indices-shifted (suc base) ds x xs)
remove_indices-shifted base (false ∷ ds) x xs = remove_indices-shifted (suc base) ds x xs

remove_indices-nil : (is : List ℕ) → remove_indices is [] ≡ []
unfolding remove_indices
remove_indices-nil [] = refl
remove_indices-nil (i ∷ is) = rw (remove_indices-nil is)

-- Indices that were pushed in ascending order take out of the queue exactly the entries that they
-- stand for.
pub remove_indices-marked :
    (ds : List Bool) (xs : List QueuedEvent) → remove_indices (marked 0 ds) xs ≡ survivors ds xs
unfolding remove_indices
remove_indices-marked [] xs = refl
remove_indices-marked (d ∷ ds) [] = remove_indices-nil (marked 0 (d ∷ ds))
remove_indices-marked (true ∷ ds) (x ∷ xs) =
    rw (remove_indices-shifted 0 ds x xs) (remove_indices-marked ds xs)
remove_indices-marked (false ∷ ds) (x ∷ xs) =
    rw (remove_indices-shifted 0 ds x xs) (ap (◌∷◌ x) (remove_indices-marked ds xs))

length-splice : (i : ℕ) (xs : List QueuedEvent) → length (splice i xs) ≤ length xs
unfolding splice
length-splice i [] = omega arith
length-splice zero (x ∷ xs) = omega arith
length-splice (suc i) (x ∷ xs) = omega (arith, length-splice i xs)

pub length-remove_indices :
    (is : List ℕ) (xs : List QueuedEvent) → length (remove_indices is xs) ≤ length xs
unfolding remove_indices
length-remove_indices [] xs = omega arith
length-remove_indices (i ∷ is) xs =
    omega (arith, length-splice i (remove_indices is xs), length-remove_indices is xs)
