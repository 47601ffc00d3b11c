-- ===== src/Lifecycle/Leaves.antt =====
-- What a run leaves, however it ends.
use virtual_private_node.Lifecycle.Interrupt.{◌>>=◌, returned, cut}
use virtual_private_node.Base.{Result-cases}
use virtual_private_node.Base.{ℕ, ◌≡◌, Option, Result, ok, err}
use virtual_private_node.Lifecycle.{Host, LifecycleError}
use virtual_private_node.Lifecycle.Interrupt.{
  Stop, Machine, Run, pure, continue, ask, After, Triple,
}

-- From a host with `P`, the run leaves one with `J`, however it ends.
pub record Leaves {A : Type 0} (P J : Host → Type 0) (run : Run A) : Type 0 where
  pub left_by : (m : Machine) → P m.host → J (run m).1.host

pub Leaves-pure :
    {A : Type 0} (a : A) (P J : Host → Type 0) → ((h : Host) → P h → J h) → Leaves P J (pure a)
Leaves-pure a P J f = record { left_by = λ m p. f m.host p }

-- What was asked is known afterwards.
pub Leaves-ask :
    {A B : Type 0} (P J : Host → Type 0) (question : Host → Result LifecycleError A)
    (next : A → Run B)
    → ((h : Host) → P h → J h)
    → ((a : A) → Leaves (λ h. P h × (question h ≡ ok a)) J (next a))
    → Leaves P J (ask question >>= next)
unfolding ask ◌>>=◌
Leaves-ask P J question next f t = record {
  left_by = λ m p. elim (Result-cases (question m.host)) [
    | err (e, eq) ↦ rw (◌>>=◌, ask, eq) (f m.host p)
    | ok (a, eq) ↦ rw (◌>>=◌, ask, eq) ((t a).left_by m (p, eq))
  ];
}

pub Leaves-bind :
    {A B : Type 0} (P J : Host → Type 0) (first : Run A) (next : A → Run B)
    → Leaves P J first
    → ((a : A) → Leaves J J (next a))
    → Leaves P J (first >>= next)
unfolding ◌>>=◌
Leaves-bind P J first next t after = record { left_by = λ m p. go (first m) (t.left_by m p) }
  where
    go : (r : Result Stop _ × Machine) → J r.1.host → J (continue r.0 next r.1).1.host
    go (ok a, m) q = (after a).left_by m q
    go (err e, m) q = q

pub Leaves-cases :
    {A I : Type 0} (P : Host → Type 0) (P' : I → Host → Type 0) (J : Host → Type 0) (run : Run A)
    → ((h : Host) → P h → (i : I) × P' i h)
    → ((i : I) → Leaves (P' i) J run)
    → Leaves P J run
Leaves-cases P P' J run f t = record {
  left_by = λ m p. let (i, q) = f m.host p in (t i).left_by m q;
}

pub Triple-Leaves :
    {A : Type 0} (C P J : Host → Type 0) (Q : A → Host → Type 0) (run : Run A)
    → ((h : Host) → C h → J h)
    → ((a : A) (h : Host) → Q a h → J h)
    → Triple C P run Q
    → Leaves P J run
Triple-Leaves C P J Q run f g t = record { left_by = λ m p. go m.left (run m) (t.runs m p) }
  where
    go : (before : Option ℕ) (r : Result Stop _ × Machine) → After C Q before r → J r.1.host
    go before _ (returned a m q due) = g a m.host q
    go before _ (cut m c ne) = f m.host c
