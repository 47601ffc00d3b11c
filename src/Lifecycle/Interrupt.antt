-- ===== src/Lifecycle/Interrupt.antt =====
-- Runs on a host that may stop between any two operations: by a kill of the process, a crash of the
-- machine, or an operation that fails and has done nothing, which the code answers by returning at once.
use virtual_private_node.Base.{ℕ, zero, suc, ◌≡◌, ◌≢◌, refl, Option, none, some, Result, ok, err}
use virtual_private_node.Lifecycle.{Host, LifecycleError}

-- A run is refused by a check of the code, or interrupted.
pub data Stop : Type 0 where
  refused : LifecycleError → Stop
  interrupted : Stop

-- The host, and how many operations are left before the interruption; `none` is a run that is not
-- interrupted.
pub record Machine : Type 0 where
  pub host : Host
  pub left : Option ℕ

abbrev pub Run : Type 0 → Type 0
Run A = Machine → Result Stop A × Machine

abbrev pub pure : {A : Type 0} → A → Run A
pure a m = (ok a, m)

abbrev pub continue : {A B : Type 0} → Result Stop A → (A → Run B) → Run B
continue (ok a) next m = next a m
continue (err e) next m = (err e, m)

infixl 5 ◌>>=◌ ◌>>◌
unfoldable pub ◌>>=◌ : {A B : Type 0} → Run A → (A → Run B) → Run B
◌>>=◌ first next m = continue (first m).0 next (first m).1

abbrev pub ◌>>◌ : {B : Type 0} → Run (Unit {0}) → Run B → Run B
first >> next = first >>= λ u. next

abbrev pub stopped_or : Host → Option ℕ → Host → Option ℕ → Result Stop (Unit {0}) × Machine
stopped_or before none after later = (ok tt, record { host = after; left = none })
stopped_or before (some zero) after later =
    (err interrupted, record { host = before; left = some zero })
stopped_or before (some (suc n)) after later = (ok tt, record { host = after; left = some n })

-- An operation on the host; `torn` is what an interruption inside it leaves.
unfoldable pub act : (Host → Host) → (Host → Host) → Run (Unit {0})
act torn effect m = stopped_or (torn m.host) m.left (effect m.host) m.left

abbrev pub same_host : Host → Host
same_host h = h

-- An operation that is done or not.
abbrev pub atomically : (Host → Host) → Run (Unit {0})
atomically effect = act same_host effect

-- A call that changes nothing that is modelled, such as a sync.
abbrev pub touch : Run (Unit {0})
touch = atomically same_host

-- A check of the code on the host.
unfoldable pub ask : {A : Type 0} → (Host → Result LifecycleError A) → Run A
ask question m = elim (question m.host) [ ok a ↦ (ok a, m) | err e ↦ (err (refused e), m) ]

-- The outcome of a run from `before`: a value, with `Q` of the host then; or an interruption, with `C`
-- of the host then, and only if one was due. It is not refused.
pub data After {A : Type 0} (C : Host → Type 0) (Q : A → Host → Type 0) (before : Option ℕ)
    : Result Stop A × Machine → Type 0 where
  returned :
      (a : A) (m : Machine)
      → Q a m.host
      → (before ≡ none → m.left ≡ none)
      → After C Q before (ok a, m)
  cut : (m : Machine) → C m.host → before ≢ none → After C Q before (err interrupted, m)

-- Every run from a host with `P` ends so.
pub record Triple {A : Type 0} (C P : Host → Type 0) (run : Run A) (Q : A → Host → Type 0)
    : Type 0 where
  pub runs : (m : Machine) → P m.host → After C Q m.left (run m)

pub some-ne-none : (n : ℕ) → ◌≢◌ {A = Option ℕ} (some n) none
some-ne-none n h = cc

module _ (C : Host → Type 0) where
  pub Triple-pure :
      {A : Type 0} (a : A) (P : Host → Type 0) (Q : A → Host → Type 0)
      → ((h : Host) → P h → Q a h)
      → Triple C P (pure a) Q
  Triple-pure a P Q f = record { runs = λ m p. returned a m (f m.host p) (λ e. e) }

  bind-After :
      {A B : Type 0} (Q : A → Host → Type 0) (R : B → Host → Type 0) (next : A → Run B)
      (before : Option ℕ) (r : Result Stop A × Machine)
      → After C Q before r
      → ((a : A) → Triple C (Q a) (next a) R)
      → After C R before (continue r.0 next r.1)
  bind-After Q R next before _ (returned a m q due) after = go (next a m) ((after a).runs m q)
    where
      go : (r : Result Stop _ × Machine) → After C R m.left r → After C R before r
      go _ (returned b m' q' due') = returned b m' q' (λ e. due' (due e))
      go _ (cut m' c ne) = cut m' c (λ e. ne (due e))
  bind-After Q R next before _ (cut m c ne) after = cut m c ne

  pub Triple-bind :
      {A B : Type 0} (P : Host → Type 0) (Q : A → Host → Type 0) (R : B → Host → Type 0)
      (first : Run A) (next : A → Run B)
      → Triple C P first Q
      → ((a : A) → Triple C (Q a) (next a) R)
      → Triple C P (first >>= next) R
  unfolding ◌>>=◌
  Triple-bind P Q R first next t after = record {
    runs = λ m p. bind-After Q R next m.left (first m) (t.runs m p) after;
  }

  act-After :
      (h g : Host) (before : Option ℕ) (Q : Unit {0} → Host → Type 0)
      → C h
      → Q tt g
      → After C Q before (stopped_or h before g before)
  act-After h g none Q c q = returned tt (record { host = g; left = none }) q (λ e. refl)
  act-After h g (some zero) Q c q =
      cut (record { host = h; left = some zero }) c (some-ne-none zero)
  act-After h g (some (suc n)) Q c q =
      returned tt (record { host = g; left = some n }) q (λ e. absurd (some-ne-none (suc n) e))

  pub Triple-act :
      (P : Host → Type 0) (Q : Unit {0} → Host → Type 0) (torn effect : Host → Host)
      → ((h : Host) → P h → C (torn h))
      → ((h : Host) → P h → Q tt (effect h))
      → Triple C P (act torn effect) Q
  unfolding act
  Triple-act P Q torn effect c q = record {
    runs = λ m p. act-After (torn m.host) (effect m.host) m.left Q (c m.host p) (q m.host p);
  }

  pub Triple-ask :
      {A : Type 0} (P : Host → Type 0) (Q : A → Host → Type 0)
      (question : Host → Result LifecycleError A)
      → ((h : Host) → P h → (a : A) × (question h ≡ ok a) × Q a h)
      → Triple C P (ask question) Q
  unfolding ask
  Triple-ask P Q question f = record {
    runs = λ m p. let (a, e, q) = f m.host p in rw (ask, e) (returned a m q (λ d. d));
  }

  pub Triple-before :
      {A : Type 0} (P P' : Host → Type 0) (Q : A → Host → Type 0) (run : Run A)
      → ((h : Host) → P h → P' h)
      → Triple C P' run Q
      → Triple C P run Q
  Triple-before P P' Q run f t = record { runs = λ m p. t.runs m (f m.host p) }

  -- The run is judged for each of the cases that the precondition has.
  pub Triple-cases :
      {A I : Type 0} (P : Host → Type 0) (P' : I → Host → Type 0) (Q : A → Host → Type 0)
      (run : Run A)
      → ((h : Host) → P h → (i : I) × P' i h)
      → ((i : I) → Triple C (P' i) run Q)
      → Triple C P run Q
  Triple-cases P P' Q run f t = record { runs = λ m p. let (i, q) = f m.host p in (t i).runs m q }

  pub Triple-after :
      {A : Type 0} (P : Host → Type 0) (Q Q' : A → Host → Type 0) (run : Run A)
      → ((a : A) (h : Host) → Q a h → Q' a h)
      → Triple C P run Q
      → Triple C P run Q'
  Triple-after P Q Q' run f t = record { runs = λ m p. go m.left (run m) (t.runs m p) }
    where
      go :
          (before : Option ℕ) (r : Result Stop _ × Machine)
          → After C Q before r
          → After C Q' before r
      go before _ (returned a m q due) = returned a m (f a m.host q) due
      go before _ (cut m c ne) = cut m c ne

-- A run that nothing interrupts returns.
pub uninterrupted :
    {A : Type 0} (C : Host → Type 0) (Q : A → Host → Type 0) (before : Option ℕ)
    (r : Result Stop A × Machine)
    → before ≡ none
    → After C Q before r
    → (a : A) × (r.0 ≡ ok a) × Q a r.1.host
uninterrupted C Q before _ e (returned a m q due) = (a, refl, q)
uninterrupted C Q before _ e (cut m c ne) = absurd (ne e)
