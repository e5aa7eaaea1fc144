-- ===== src/Exec.antt =====
-- A function that awaits services, changes what they keep, and may throw: what was changed before
-- the throw stays changed.
use code_trace.Prelude.{◌≡◌, sym, ◌∙◌, subst, refl}
use code_trace.Errors.{Result, ok, err, Failure}

abbrev pub Exec : Type 0 → Type 0 → Type 0
Exec S A = S → Result A × S

module _ {S A : Type 0} where
  abbrev pub pure : A → Exec S A
  pure a s = (ok a, s)

  abbrev pub raise : Failure → Exec S A
  raise e s = (err e, s)

  abbrev pub lift : Result A → Exec S A
  lift r s = (r, s)

  abbrev pub gets : (S → A) → Exec S A
  gets f s = (ok (f s), s)

module _ {S A B : Type 0} where
  abbrev pub continue : Result A × S → (A → Exec S B) → Result B × S
  continue (ok a, s) k = k a s
  continue (err e, s) k = (err e, s)

  infixl 5 ◌>>=◌
  unfoldable pub ◌>>=◌ : Exec S A → (A → Exec S B) → Exec S B
  ◌>>=◌ m k s = continue (m s) k

  pub bind_lem : (m : Exec S A) (k : A → Exec S B) (s : S) → (m >>= k) s ≡ continue (m s) k
  unfolding ◌>>=◌
  bind_lem m k s = refl

  -- `try { return await m } then k; catch (e) { handler }`, the handler outside the `try`
  abbrev pub settle : Result A × S → (A → Exec S B) → (Failure → Exec S B) → Result B × S
  settle (ok a, s) k handler = k a s
  settle (err e, s) k handler = handler e s

  unfoldable pub try_then : Exec S A → (A → Exec S B) → (Failure → Exec S B) → Exec S B
  try_then m k handler s = settle (m s) k handler

  pub try_then_lem :
      (m : Exec S A) (k : A → Exec S B) (handler : Failure → Exec S B) (s : S)
      → try_then m k handler s ≡ settle (m s) k handler
  unfolding try_then
  try_then_lem m k handler s = refl

-- What an outcome satisfies: `P` of the result and the state after a return, `Q` of the failure and
-- the state after a throw.
pub data Ends {S A : Type 0} (r : Result A × S) (P : A → S → Type 0) (Q : Failure → S → Type 0)
    : Type 0 where
  returned : (a : A) (t : S) → r ≡ (ok a, t) → P a t → Ends r P Q
  threw : (e : Failure) (t : S) → r ≡ (err e, t) → Q e t → Ends r P Q

module _ {S A : Type 0} where
  pub Ends-ok :
      (r : Result A × S) {P : A → S → Type 0} {Q : Failure → S → Type 0} (a : A) (t : S)
      → Ends r P Q
      → r ≡ (ok a, t)
      → P a t
  Ends-ok r {P} a t (returned b u same h) e =
      let (result, state) = same_outcome b a u t (sym same ∙ e) in
      subst (λ v. P a v) state (subst (λ x. P x u) result h)
    where
      same_outcome :
          (x y : A) (v w : S) → ◌≡◌ {A = Result A × S} (ok x, v) (ok y, w) → (x ≡ y) × (v ≡ w)
      same_outcome x y v w h = (cc, cc)
  Ends-ok r a t (threw f u same h) e = absurd (cc (same, e))

  -- The same with the equation of the outcome.
  pub Ends-seen :
      (r : Result A × S) {P : A → S → Type 0} {Q : Failure → S → Type 0}
      → Ends r P Q
      → Ends r (λ a t. (r ≡ (ok a, t)) × P a t) (λ e t. (r ≡ (err e, t)) × Q e t)
  Ends-seen r (returned a t same h) = returned a t same (same, h)
  Ends-seen r (threw e t same h) = threw e t same (same, h)

  -- What holds of the state that an outcome leaves, whatever the outcome.
  pub Ends-state : (r : Result A × S) (R : S → Type 0) → R r.1 → Ends r (λ a t. R t) (λ e t. R t)
  Ends-state (ok a, t) R h = returned a t refl h
  Ends-state (err e, t) R h = threw e t refl h

  pub Ends-mono :
      (r : Result A × S) {P P' : A → S → Type 0} {Q Q' : Failure → S → Type 0}
      → Ends r P Q
      → ((a : A) (t : S) → P a t → P' a t)
      → ((e : Failure) (t : S) → Q e t → Q' e t)
      → Ends r P' Q'
  Ends-mono r (returned a t same h) f g = returned a t same (f a t h)
  Ends-mono r (threw e t same h) f g = threw e t same (g e t h)

module _ {S A B : Type 0} where
  Ends-continue :
      (r : Result A × S) (k : A → Exec S B) {P : A → S → Type 0} {P' : B → S → Type 0}
      {Q Q' : Failure → S → Type 0}
      → Ends r P Q
      → ((a : A) (t : S) → P a t → Ends (k a t) P' Q')
      → ((e : Failure) (t : S) → Q e t → Q' e t)
      → Ends (continue r k) P' Q'
  Ends-continue r k (returned a t same h) f g = rw same (f a t h)
  Ends-continue r k (threw e t same h) f g = rw same (threw e t refl (g e t h))

  pub Ends-bind :
      (m : Exec S A) (k : A → Exec S B) (s : S) {P : A → S → Type 0} {P' : B → S → Type 0}
      {Q Q' : Failure → S → Type 0}
      → Ends (m s) P Q
      → ((a : A) (t : S) → P a t → Ends (k a t) P' Q')
      → ((e : Failure) (t : S) → Q e t → Q' e t)
      → Ends ((m >>= k) s) P' Q'
  Ends-bind m k s h f g = rw (bind_lem m k s) (Ends-continue (m s) k h f g)

  Ends-settle :
      (r : Result A × S) (k : A → Exec S B) (handler : Failure → Exec S B) {P : A → S → Type 0}
      {P' : B → S → Type 0} {Q Q' : Failure → S → Type 0}
      → Ends r P Q
      → ((a : A) (t : S) → P a t → Ends (k a t) P' Q')
      → ((e : Failure) (t : S) → Q e t → Ends (handler e t) P' Q')
      → Ends (settle r k handler) P' Q'
  Ends-settle r k handler (returned a t same h) f g = rw same (f a t h)
  Ends-settle r k handler (threw e t same h) f g = rw same (g e t h)

  pub Ends-try_then :
      (m : Exec S A) (k : A → Exec S B) (handler : Failure → Exec S B) (s : S) {P : A → S → Type 0}
      {P' : B → S → Type 0} {Q Q' : Failure → S → Type 0}
      → Ends (m s) P Q
      → ((a : A) (t : S) → P a t → Ends (k a t) P' Q')
      → ((e : Failure) (t : S) → Q e t → Ends (handler e t) P' Q')
      → Ends (try_then m k handler s) P' Q'
  Ends-try_then m k handler s h f g =
      rw (try_then_lem m k handler s) (Ends-settle (m s) k handler h f g)

  pub Ends-gets :
      (f : S → A) (k : A → Exec S B) (s : S) {P' : B → S → Type 0} {Q' : Failure → S → Type 0}
      → Ends (k (f s) s) P' Q'
      → Ends ((gets f >>= k) s) P' Q'
  Ends-gets f k s h = rw (bind_lem (gets f) k s) h
