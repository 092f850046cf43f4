-- ===== src/Exec.antt =====
-- How a call into the worker ends, and the state monad over it. A worker that dies or exits keeps
-- the state that it left behind, so that what it had sent and closed by then can be stated.
use virtual_trezor.Prelude.{◌≡◌, ap, Bool, true, false, if◌then◌else◌}

pub data Outcome {ℓ} (Fault World : Type 0) (A : Type ℓ) : Type ℓ where
  -- The function returned.
  done : A → World → Outcome Fault World A
  -- `die` or `die_errno`: a message on stderr and exit status 1.
  died : Fault → World → Outcome Fault World A
  -- exit (0)
  exited : World → Outcome Fault World A
  -- A system call has not returned yet.
  blocked : World → Outcome Fault World A

abbrev pub Exec {ℓ} : Type 0 → Type 0 → Type ℓ → Type ℓ
Exec F W A = W → Outcome F W A

infixl 5 ◌>>=◌ ◌>>◌
abbrev pub ◌>>=◌ {ℓ κ} :
    {F W : Type 0} {A : Type ℓ} {B : Type κ} → Exec F W A → (A → Exec F W B) → Exec F W B
◌>>=◌ m f w = elim (m w) [
  | done a w' ↦ f a w'
  | died e w' ↦ died e w'
  | exited w' ↦ exited w'
  | blocked w' ↦ blocked w'
]

abbrev pub ◌>>◌ {κ} : {F W : Type 0} {B : Type κ} → Exec F W (Unit {0}) → Exec F W B → Exec F W B
m >> k = m >>= λ _. k

abbrev pub pure {ℓ} : {F W : Type 0} {A : Type ℓ} → A → Exec F W A
pure a w = done a w

abbrev pub die {ℓ} : {F W : Type 0} {A : Type ℓ} → F → Exec F W A
die e w = died e w

abbrev pub unless_die : {F W : Type 0} → Bool → F → Exec F W (Unit {0})
unless_die true e w = done tt w
unless_die false e w = died e w

-- A call that returns hands its value on.
pub >>=-done {ℓ κ} :
    {F W : Type 0} {A : Type ℓ} {B : Type κ} (m : Exec F W A) (f : A → Exec F W B) (w v : W) (a : A)
    → m w ≡ done a v
    → (m >>= f) w ≡ f a v
>>=-done {F = F} {W = W} {A = A} {B = B} m f w v a p =
    ap
      (λ (o : Outcome F W A). elim o as (λ _. Outcome F W B) [
        | done b x ↦ f b x
        | died e x ↦ died e x
        | exited x ↦ exited x
        | blocked x ↦ blocked x
      ])
      p

pub >>=-died {ℓ κ} :
    {F W : Type 0} {A : Type ℓ} {B : Type κ} (m : Exec F W A) (f : A → Exec F W B) (w v : W) (e : F)
    → m w ≡ died e v
    → (m >>= f) w ≡ died e v
>>=-died {F = F} {W = W} {A = A} {B = B} m f w v e p =
    ap
      (λ (o : Outcome F W A). elim o as (λ _. Outcome F W B) [
        | done b x ↦ f b x
        | died e x ↦ died e x
        | exited x ↦ exited x
        | blocked x ↦ blocked x
      ])
      p

-- Two calls that end alike in a state go on alike.
pub >>=-at {ℓ κ} :
    {F W : Type 0} {A : Type ℓ} {B : Type κ} (m n : Exec F W A) (f : A → Exec F W B) (w : W)
    → m w ≡ n w
    → (m >>= f) w ≡ (n >>= f) w
>>=-at {F = F} {W = W} {A = A} {B = B} m n f w p =
    ap
      (λ (o : Outcome F W A). elim o as (λ _. Outcome F W B) [
        | done b x ↦ f b x
        | died e x ↦ died e x
        | exited x ↦ exited x
        | blocked x ↦ blocked x
      ])
      p

-- What holds of the value and the state of every call that returns.
abbrev pub Returns {ℓ κ} : {F W : Type 0} {A : Type ℓ} → Outcome F W A → (A → W → Type κ) → Type κ
Returns (done a w) P = P a w
Returns (died e w) P = Unit
Returns (exited w) P = Unit
Returns (blocked w) P = Unit

pub Returns-all {ℓ} : {F W : Type 0} {A : Type ℓ} (o : Outcome F W A) → Returns o (λ _ _. Unit {0})
Returns-all (done a w) = tt
Returns-all (died e w) = tt
Returns-all (exited w) = tt
Returns-all (blocked w) = tt

pub Returns->>= {ℓ κ μ} :
    {F W : Type 0} {A : Type ℓ} {B : Type κ} (m : Exec F W A) (f : A → Exec F W B)
    (P : A → W → Type μ) (Q : B → W → Type μ) (w : W)
    → Returns (m w) P
    → ((a : A) (w' : W) → P a w' → Returns (f a w') Q)
    → Returns ((m >>= f) w) Q
Returns->>= m f P Q w h k = split (m w) h
  where
    split :
        (o : Outcome _ _ _)
        → Returns o P
        → Returns
            (elim o [
              | done a w' ↦ f a w'
              | died e w' ↦ died e w'
              | exited w' ↦ exited w'
              | blocked w' ↦ blocked w'
            ])
            Q
    split (done a w') p = k a w' p
    split (died e w') p = tt
    split (exited w') p = tt
    split (blocked w') p = tt

pub Returns_imp {ℓ κ μ} :
    {F W : Type 0} {A : Type ℓ} (P : A → W → Type κ) (Q : A → W → Type μ) (o : Outcome F W A)
    → ((a : A) (w : W) → P a w → Q a w)
    → Returns o P
    → Returns o Q
Returns_imp P Q (done a w) f h = f a w h
Returns_imp P Q (died e w) f h = tt
Returns_imp P Q (exited w) f h = tt
Returns_imp P Q (blocked w) f h = tt

-- Whenever the call returns, the states before and after it are related.
abbrev pub Respects {ℓ} : {F W : Type 0} {A : Type ℓ} → (W → W → Type 0) → Exec F W A → Type 0
Respects {W = W} R m = (w : W) → Returns (m w) λ _ w'. R w w'

module _ {F W : Type 0} (R : W → W → Type 0) (R_trans : (u v w : W) → R u v → R v w → R u w) where
  pub Respects->>= {ℓ κ} :
      {A : Type ℓ} {B : Type κ} (m : Exec F W A) (f : A → Exec F W B)
      → Respects R m
      → ((a : A) → Respects R (f a))
      → Respects R (m >>= f)
  Respects->>= m f h k w =
      Returns->>= m f (λ _ v. R w v) (λ _ x. R w x) w (h w)
        λ a v p.
          Returns_imp (λ _ x. R v x) (λ _ x. R w x) (f a v) (λ _ x q. R_trans w v x p q) (k a v)

pub Respects-if {ℓ} :
    {F W : Type 0} {A : Type ℓ} (R : W → W → Type 0) (b : Bool) (m n : Exec F W A)
    → Respects R m
    → Respects R n
    → Respects R (if b then m else n)
Respects-if R true m n h k = h
Respects-if R false m n h k = k

pub Respects-die {ℓ} :
    {F W : Type 0} (A : Type ℓ) (R : W → W → Type 0) (m : Exec F W (Unit {0})) (e : F)
    → Respects R (m >>= λ _. die {A = A} e)
Respects-die A R m e w =
    Returns->>= m (λ _. die e) (λ _ _. Unit {0}) (λ _ w'. R w w') w (Returns-all (m w))
      (λ _ _ _. tt)
