-- ===== src/Execution/Scheduler/Returns.antt =====
-- execution/scheduler.go: a program that returns a value, in terms of its parts.
use miletos.Common.{◌≡◌, refl, Bool, true, false}
use miletos.Execution.Store.{Store, Tx, Result, ok, err}
use miletos.Execution.Scheduler.Programs.{
  Program, End, value, error, exhausted, continue, ◌>>=◌, call, committed,
}

module _ {V : Type 0} where
  -- Whatever follows from the ends of both parts follows from the end of the whole.
  pub >>=-value :
      {A B : Type 0} (m : Program V A) (f : A → Program V B) (s s' : Store V) (b : B) {G : Type 0}
      → ((s₁ : Store V) (a : A) → m s ≡ (s₁, value a) → f a s₁ ≡ (s', value b) → G)
      → ◌>>=◌ m f s ≡ (s', value b)
      → G
  >>=-value {A} {B} m f s s' b {G} k h = by_end (m s).1 refl h
    where
      by_end : (end : End A) → (m s).1 ≡ end → continue f (m s).0 end ≡ (s', value b) → G
      by_end (value a) e h = k (m s).0 a (rw (← e) refl) h
      by_end (error x) e h = cc
      by_end exhausted e h = cc

  pub pure-value :
      {A : Type 0} (s s' : Store V) (a b : A)
      → Path (Store V × End A) (s, value a) (s', value b)
      → (s' ≡ s) × (b ≡ a)
  pure-value s s' a b h = (cc, cc)

  pub false-no_true :
      {G : Type 0} (s s' : Store V)
      → Path (Store V × End Bool) (s, value true) (s', value false)
      → G
  false-no_true s s' h = cc

  pub call-value :
      {A : Type 0} (t : Tx V A) (s s' : Store V) (a : A) → call t s ≡ (s', value a) → t s ≡ ok a s'
  call-value {A} t s s' a h = by_result (t s) h
    where
      by_result : (r : Result V A) → committed s r ≡ (s', value a) → r ≡ ok a s'
      by_result (ok b s₁) h = cc
      by_result (err x) h = cc
