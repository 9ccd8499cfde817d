-- ===== src/Server/State/Keeping.antt =====
-- Steps that leave what they are not about alone: a function of the state that reads the same before
-- and after.
use tin_system_do_wspolpracy.Base.{
  Bool, List, Outcome, ap, false, fault, if◌then◌else◌, not, ok, refl, true, ℕ, ◌∙◌, ◌≡◌,
}
use tin_system_do_wspolpracy.IntMap.{IntSet}
use tin_system_do_wspolpracy.Server.State.{Server, M, pure, asks, modify, ◌>>=◌, IntSet}
use tin_system_do_wspolpracy.Server.State.Ensures.{Ensures, Ensures-bind}

-- The state after reads as the state before.
abbrev pub Same : {X : Type 0} → (Server → X) → Server → Server → Type 0
Same f s s' = f s' ≡ f s

pub record IsKeeping {X A : Type 0} (f : Server → X) (m : M A) : Type 0 where
  pub keeps : (s : Server) → Ensures (λ _ s'. Same f s s') (m s)

-- The descriptors that are watched, with their bound and the one that listens, and what is open.
abbrev pub Watch : Type 0
Watch = ℕ × ℕ × IntSet × IntSet × List ℕ

abbrev pub watch : Server → Watch
watch s = (s.max_sd, s.listening, s.master, s.open_sockets, s.bad_closes)

-- One step after another.
pub Same-Ensures :
    {X B : Type 0} (f : Server → X) (o : Outcome (B × Server)) (s s' : Server)
    → Same f s s'
    → Ensures (λ _ t. Same f s' t) o
    → Ensures (λ _ t. Same f s t) o
Same-Ensures f (ok (b, t)) s s' h k = k ∙ h
Same-Ensures f (fault e) s s' h k = tt

module _ {X : Type 0} {f : Server → X} where
  pub pure-IsKeeping : {A : Type 0} (a : A) → IsKeeping f (pure a)
  pure-IsKeeping a = record { keeps = λ s. refl }

  pub asks-IsKeeping : {A : Type 0} (g : Server → A) → IsKeeping f (asks g)
  asks-IsKeeping g = record { keeps = λ s. refl }

  pub modify-IsKeeping :
      (g : Server → Server) → ((s : Server) → f (g s) ≡ f s) → IsKeeping f (modify g)
  modify-IsKeeping g h = record { keeps = h }

  pub bind-IsKeeping :
      {A B : Type 0} {m : M A} {k : A → M B}
      → IsKeeping f m
      → ((a : A) → IsKeeping f (k a))
      → IsKeeping f (m >>= k)
  bind-IsKeeping {m = m} {k = k} h l = record {
    keeps = λ s.
        Ensures-bind (λ _ s'. Same f s s') (λ _ s'. Same f s s') m k s (h.keeps s)
          λ a s' same. Same-Ensures f (k a s') s s' same ((l a).keeps s');
  }

  pub if-IsKeeping :
      {A : Type 0} (b : Bool) {m k : M A}
      → IsKeeping f m
      → IsKeeping f k
      → IsKeeping f (if b then m else k)
  if-IsKeeping true h k = h
  if-IsKeeping false h k = k

-- What a reading keeps, a reading of it keeps.
pub IsKeeping-after :
    {X Y A : Type 0} {f : Server → X} {m : M A} (g : X → Y)
    → IsKeeping f m
    → IsKeeping (λ s. g (f s)) m
IsKeeping-after {f = f} {m = m} g h = record { keeps = λ s. go s (m s) (h.keeps s) }
  where
    go :
        {B : Type 0} (s : Server) (o : Outcome (B × Server))
        → Ensures (λ _ t. Same f s t) o
        → Ensures (λ _ t. Same (λ u. g (f u)) s t) o
    go s (ok (a, t)) same = ap g same
    go s (fault e) same = tt

pub ruleset keeping =
    (pure-IsKeeping, asks-IsKeeping, bind-IsKeeping, if-IsKeeping, modify-IsKeeping, refl)
