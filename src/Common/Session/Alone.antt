-- ===== src/Common/Session/Alone.antt =====
-- A session beside which nobody else commits: statements may still fail or lose their replies.
use mathlib.Core.Path.{◌≡◌, refl}
use mathlib.Core.Logic.{inl, inr}
use mathlib.Core.List.{List, [], ◌∷◌}
use event_driven_order_fulfi.Common.Lists.{All}
use event_driven_order_fulfi.Common.Results.{Outcome, ok, err}
use event_driven_order_fulfi.Common.Session.{Session, Turn, arrive, arrive_at, exec}
use event_driven_order_fulfi.Common.Session.Statements.{exec-cases}

module _ {D : Type 0} where
  abbrev pub IsAlone : List (Turn D) → Type 0
  IsAlone ts = All (λ t. (d : D) → t.others d ≡ d) ts

  arrive_at-IsAlone :
      (ts : List (Turn D)) (s : Session D)
      → s.turns ≡ ts
      → IsAlone ts
      → IsAlone (arrive_at ts s).1.turns × ((arrive_at ts s).1.committed ≡ s.committed)
  unfolding arrive_at
  arrive_at-IsAlone [] s e h = (rw e tt, refl)
  arrive_at-IsAlone (t ∷ ts) s e h = (h.1, h.0 s.committed)

  arrive-IsAlone :
      (s : Session D)
      → IsAlone s.turns
      → IsAlone (arrive s).1.turns × ((arrive s).1.committed ≡ s.committed)
  unfolding arrive
  arrive-IsAlone s h = arrive_at-IsAlone s.turns s refl h

-- What a statement may have done.
pub data Done {D E A : Type 0} (e : E) (f : D → A × D) (d : D) : Outcome E A → D → Type 0 where
  failed : Done e f d (err e) d
  unanswered : Done e f d (err e) (f d).1
  answered : Done e f d (ok (f d).0) (f d).1

module _ {D E A : Type 0} where
  pub exec-Done :
      (e : E) (f : D → A × D) (s : Session D)
      → IsAlone s.turns
      → IsAlone (exec e f s).1.turns × Done e f s.committed (exec e f s).0 (exec e f s).1.committed
  exec-Done e f s h =
      let (alone, same) = arrive-IsAlone s h in
      elim (exec-cases e f s) [
        | inl x ↦ rw (x, same) (alone, failed)
        | inr (inl x) ↦ rw (x, same) (alone, unanswered)
        | inr (inr x) ↦ rw (x, same) (alone, answered)
      ]
