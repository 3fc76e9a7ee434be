-- ===== src/Common/Session/Atomic.antt =====
-- Transactions that commit as a whole or leave nothing, as long as no reply is lost.
use mathlib.Core.Path.{refl, subst}
use mathlib.Core.Logic.{◌≢◌}
use mathlib.Core.Bool.{Bool, true, false}
use mathlib.Core.List.{List, [], ◌∷◌, ◌++◌}
use event_driven_order_fulfi.Common.Tests.{if◌then◌else◌}
use event_driven_order_fulfi.Common.Results.{Outcome, ok, err}
use event_driven_order_fulfi.Common.Session.{
  Reply, served, refused, lost, Turn, Session, Action, arrive, arrive_at, commit, answer_commit,
  pure, rolled_back, continue, ◌>>=◌,
}
use event_driven_order_fulfi.Common.Session.Drift.{
  Drift, Drift-refl, Drift-trans, arrive-Drift, Tentative,
}

module _ {D : Type 0} where
  -- Every statement of the schedule gets its reply.
  abbrev pub Answered : List (Turn D) → Type 0
  Answered [] = Unit
  Answered (t ∷ ts) = (t.reply ≢ lost) × Answered ts

  Answered-drop : (ts us : List (Turn D)) → Answered (ts ++ us) → Answered us
  Answered-drop [] us h = h
  Answered-drop (t ∷ ts) us h = Answered-drop ts us h.1

  pub Drift-Answered : {s t : Session D} → Drift s t → Answered s.turns → Answered t.turns
  Drift-Answered {s} {t} d h =
      Answered-drop d.taken t.turns (subst (λ ts. Answered ts) d.turns_eq h)

-- Where the result satisfies `P`, only other sessions have changed what is committed.
pub record Atomic {D E A : Type 0} (P : Outcome E A → Type 0) (m : Action D E A) : Type 0 where
  pub undone : (s : Session D) → Answered s.turns → P (m s).0 → Drift s (m s).1

module _ {D E A : Type 0} (P : Outcome E A → Type 0) where
  answer_commit-Drift :
      (e : E) (a : A) (r : Reply) (s : Session D)
      → ¬ P (ok a)
      → r ≢ lost
      → P (continue (answer_commit e (r, s)) (λ _. pure a)).0
      → Drift s (continue (answer_commit e (r, s)) (λ _. pure a)).1
  unfolding answer_commit
  answer_commit-Drift e a served s h n p = absurd (h p)
  answer_commit-Drift e a refused s h n p = Drift-refl s
  answer_commit-Drift e a lost s h n p = absurd (n refl)

module _ {D : Type 0} where
  reply_known_at : (ts : List (Turn D)) (s : Session D) → Answered ts → (arrive_at ts s).0 ≢ lost
  unfolding arrive_at
  reply_known_at [] s h = λ e. cc
  reply_known_at (t ∷ ts) s h = h.0

  reply_known : (s : Session D) → Answered s.turns → (arrive s).0 ≢ lost
  unfolding arrive
  reply_known s h = reply_known_at s.turns s h

module _ {D E A : Type 0} {P : Outcome E A → Type 0} where
  pub Atomic-Tentative : {m : Action D E A} → Tentative m → Atomic P m
  Atomic-Tentative h = record { undone = λ s a p. h.drift s }

  pub Atomic-rolled_back : {m : Action D E A} → Atomic P m → Atomic P (rolled_back m)
  unfolding rolled_back
  Atomic-rolled_back h = record {
    undone = λ s a p.
        let d = h.undone s a p in
        record { taken = d.taken; turns_eq = d.turns_eq; committed_eq = d.committed_eq };
  }

  pub Atomic-if :
      (b : Bool) (m n : Action D E A) → Atomic P m → Atomic P n → Atomic P (if b then m else n)
  Atomic-if true m n h k = h
  Atomic-if false m n h k = k

  pub Atomic-commit : (e : E) (a : A) → ¬ P (ok a) → Atomic {D = D} P (commit e >>= λ _. pure a)
  unfolding commit
  Atomic-commit e a h = record {
    undone = λ s n p.
        let d = arrive-Drift s in
        Drift-trans d (answer_commit-Drift P e a (arrive s).0 (arrive s).1 h (reply_known s n) p);
  }

module _ {D E A B : Type 0} {P : Outcome E B → Type 0} where
  continue-undone :
      (s : Session D) (r : Outcome E A) (t : Session D) (f : A → Action D E B)
      → Answered s.turns
      → Drift s t
      → ((a : A) → Atomic P (f a))
      → P (continue (r, t) f).0
      → Drift s (continue (r, t) f).1
  continue-undone s (ok a) t f n d k p = Drift-trans d ((k a).undone t (Drift-Answered d n) p)
  continue-undone s (err e) t f n d k p = d

  pub Atomic-bind :
      (m : Action D E A) (f : A → Action D E B)
      → Tentative m
      → ((a : A) → Atomic P (f a))
      → Atomic P (m >>= f)
  Atomic-bind m f h k = record {
    undone = λ s n p. continue-undone s (m s).0 (m s).1 f n (h.drift s) k p;
  }

abbrev pub Failed : {E A : Type 0} → Outcome E A → Type 0
Failed (ok a) = ⊥
Failed (err e) = Unit
