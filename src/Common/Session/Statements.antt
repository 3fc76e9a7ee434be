-- ===== src/Common/Session/Statements.antt =====
-- What a single statement on the pool does.
use mathlib.Core.Path.{◌≡◌, refl}
use mathlib.Core.Logic.{◌⊎◌, inl, inr}
use event_driven_order_fulfi.Common.Results.{Outcome, ok, err}
use event_driven_order_fulfi.Common.Session.{
  Reply, served, refused, lost, Session, arrive, read, exec, answer_read, answer_exec, install,
}

module _ {D E A : Type 0} where
  answer_exec-cases :
      (e : E) (f : D → A × D) (r : Reply) (t : Session D)
      → let t' = install t (f t.committed).1 in
        (answer_exec e f (r, t) ≡ (err e, t))
        ⊎ ((answer_exec e f (r, t) ≡ (err e, t'))
            ⊎ (answer_exec e f (r, t) ≡ (ok (f t.committed).0, t')))
  unfolding answer_exec
  answer_exec-cases e f served t = inr (inr refl)
  answer_exec-cases e f refused t = inl refl
  answer_exec-cases e f lost t = inr (inl refl)

  -- A statement fails without an effect, or has its effect and fails or answers.
  pub exec-cases :
      (e : E) (f : D → A × D) (s : Session D)
      → let t = (arrive s).1 in
        let t' = install t (f t.committed).1 in
        (exec e f s ≡ (err e, t))
        ⊎ ((exec e f s ≡ (err e, t')) ⊎ (exec e f s ≡ (ok (f t.committed).0, t')))
  unfolding exec
  exec-cases e f s = answer_exec-cases e f (arrive s).0 (arrive s).1

  answer_read-cases :
      (e : E) (q : D → A) (r : Reply) (t : Session D)
      → (x : Outcome E A) × (answer_read e q (r, t) ≡ (x, t)) × ((a : A) → x ≡ ok a → q t.view ≡ a)
  unfolding answer_read
  answer_read-cases e q served t = (ok (q t.view), refl, λ a h. cc)
  answer_read-cases e q refused t = (err e, refl, λ a h. cc)
  answer_read-cases e q lost t = (err e, refl, λ a h. cc)

  pub read-cases :
      (e : E) (q : D → A) (s : Session D)
      → let t = (arrive s).1 in
        (x : Outcome E A) × (read e q s ≡ (x, t)) × ((a : A) → x ≡ ok a → q t.view ≡ a)
  unfolding read
  read-cases e q s = answer_read-cases e q (arrive s).0 (arrive s).1
