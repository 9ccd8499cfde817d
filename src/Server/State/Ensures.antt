-- ===== src/Server/State/Ensures.antt =====
-- What holds of the result of a step that does not end the process.
use tin_system_do_wspolpracy.Base.{
  Bool, Fault, Outcome, false, fault, if◌then◌else◌, ok, refl, true, ◌≡◌,
}
use tin_system_do_wspolpracy.Server.State.{Server, M, ◌>>=◌}

abbrev pub Ensures : {A : Type 0} → (A → Server → Type 0) → Outcome (A × Server) → Type 0
Ensures P (ok (a, s)) = P a s
Ensures P (fault e) = Unit {0}

pub Ensures-map :
    {A : Type 0} {P Q : A → Server → Type 0}
    → ((a : A) (s : Server) → P a s → Q a s)
    → (o : Outcome (A × Server)) → Ensures P o
    → Ensures Q o
Ensures-map f (ok (a, s)) h = f a s h
Ensures-map f (fault e) h = tt

pub Ensures-both :
    {A : Type 0} (P Q : A → Server → Type 0) (o : Outcome (A × Server))
    → Ensures P o
    → Ensures Q o
    → Ensures (λ a s. P a s × Q a s) o
Ensures-both P Q (ok (a, s)) h k = (h, k)
Ensures-both P Q (fault e) h k = tt

pub Ensures-bind :
    {A B : Type 0} (P : A → Server → Type 0) (Q : B → Server → Type 0) (m : M A) (f : A → M B)
    (s : Server)
    → Ensures P (m s)
    → ((a : A) (s' : Server) → P a s' → Ensures Q (f a s'))
    → Ensures Q ((m >>= f) s)
Ensures-bind P Q m f s h k = go (m s) h
  where
    go :
        (o : Outcome (_ × Server))
        → Ensures P o
        → Ensures Q (elim o [ ok (a, s') ↦ f a s' | fault e ↦ fault e ])
    go (ok (a, s')) h = k a s' h
    go (fault e) h = tt

pub Ensures-if :
    {A : Type 0} (P : A → Server → Type 0) (b : Bool) (m k : M A) (s : Server)
    → (b ≡ true → Ensures P (m s))
    → (b ≡ false → Ensures P (k s))
    → Ensures P ((if b then m else k) s)
Ensures-if P true m k s h h' = h refl
Ensures-if P false m k s h h' = h' refl

pub Ensures-any : {A : Type 0} (o : Outcome (A × Server)) → Ensures (λ _ _. Unit {0}) o
Ensures-any (ok a) = tt
Ensures-any (fault e) = tt

-- A step whose result does not matter.
pub Ensures-after :
    {A B : Type 0} (Q : B → Server → Type 0) (m : M A) (f : A → M B) (s : Server)
    → ((a : A) (s' : Server) → Ensures Q (f a s'))
    → Ensures Q ((m >>= f) s)
Ensures-after Q m f s h =
    Ensures-bind (λ _ _. Unit {0}) Q m f s (Ensures-any (m s)) λ a s' _. h a s'

-- What follows a step that succeeds.
pub bind_ok :
    {A B : Type 0} (m : M A) (f : A → M B) (s : Server) (a : A) (s' : Server)
    → m s ≡ ok (a, s')
    → (m >>= f) s ≡ f a s'
bind_ok m f s a s' e = rw (e, ◌>>=◌) refl

-- Nothing follows a step that ends the process.
pub bind_fault :
    {A B : Type 0} (m : M A) (f : A → M B) (s : Server) (e : Fault)
    → m s ≡ fault e
    → (m >>= f) s ≡ fault e
bind_fault m f s e h = rw (h, ◌>>=◌) refl
