-- ===== src/Domain/Transitions.antt =====
-- The transition diagram of a run as a relation on statuses.
use http_harness.Base.{ℕ, zero, suc, ◌+◌, ◌≤◌, ◌≡◌, refl, subst, true, false, arith}
use http_harness.Domain.States.{RunStatus, run_transitions, is_terminal}

-- At most `n` allowed transitions, one after the other.
pub data Follows (s : RunStatus) : ℕ → RunStatus → Type 0 where
  stay : {n : ℕ} → Follows s n s
  move :
      {n : ℕ} {t u : RunStatus} → Follows s n t → run_transitions t u ≡ true → Follows s (suc n) u

pub Follows-more : {s t : RunStatus} {m : ℕ} (n : ℕ) → Follows s m t → m ≤ n → Follows s n t
Follows-more n stay le = stay
Follows-more zero (move f h) le = absurd (omega (arith, le))
Follows-more (suc n) (move f h) le = move (Follows-more n f (omega (arith, le))) h

pub Follows-trans :
    {s t u : RunStatus} {m n : ℕ} → Follows s m t → Follows t n u → Follows s (m + n) u
Follows-trans {m = m} {n = n} f stay = Follows-more (m + n) f (omega arith)
Follows-trans {s = s} {m = m} f (move {n = n} {u = u} g h) =
    subst (λ k. Follows s k u) (omega arith) (move (Follows-trans f g) h)

-- No transition leaves a terminal status.
pub run_transitions-is_terminal :
    (s t : RunStatus) → is_terminal s ≡ true → run_transitions s t ≡ false
unfolding run_transitions is_terminal
run_transitions-is_terminal s t h = ground arith

pub Follows-is_terminal : {s t : RunStatus} {n : ℕ} → Follows s n t → is_terminal s ≡ true → t ≡ s
Follows-is_terminal stay h = refl
Follows-is_terminal {s = s} (move {t = t} {u = u} f e) h =
    ground (arith, Follows-is_terminal f h, run_transitions-is_terminal s u)
