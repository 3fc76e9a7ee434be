-- ===== src/Common/Session/Drift.antt =====
-- What a piece of a transaction leaves committed: nothing of its own.
use mathlib.Core.Path.{◌≡◌, refl}
use mathlib.Core.Bool.{Bool, true, false}
use mathlib.Core.List.{List, [], ◌∷◌, ◌++◌, append_assoc}
use event_driven_order_fulfi.Common.Tests.{if◌then◌else◌}
use event_driven_order_fulfi.Common.Results.{Outcome, ok, err}
use event_driven_order_fulfi.Common.Session.{
  Reply, served, refused, lost, Turn, Session, Action, arrive, arrive_at, read, write, begin, pure,
  raise, lift, ◌>>=◌, answer_read, answer_write, answer_begin, continue,
}

module _ {D : Type 0} where
  -- The commits of other sessions, in order.
  abbrev pub elapse : List (Turn D) → D → D
  elapse [] d = d
  elapse (t ∷ ts) d = elapse ts (t.others d)

  elapse-append : (ts us : List (Turn D)) (d : D) → elapse (ts ++ us) d ≡ elapse us (elapse ts d)
  elapse-append [] us d = refl
  elapse-append (t ∷ ts) us d = elapse-append ts us (t.others d)

  -- Between two sessions only others have committed.
  pub record Drift (s s' : Session D) : Type 0 where
    pub taken : List (Turn D)
    pub turns_eq : s.turns ≡ taken ++ s'.turns
    pub committed_eq : s'.committed ≡ elapse taken s.committed

  pub Drift-refl : (s : Session D) → Drift s s
  Drift-refl s = record { taken = []; turns_eq = refl; committed_eq = refl }

  pub Drift-trans : {s t u : Session D} → Drift s t → Drift t u → Drift s u
  Drift-trans {s} {t} {u} d e = record {
    taken = d.taken ++ e.taken;
    turns_eq = rw (d.turns_eq, e.turns_eq, append_assoc d.taken e.taken u.turns);
    committed_eq = rw (elapse-append d.taken e.taken s.committed, ← d.committed_eq) e.committed_eq;
  }

  arrive_at-Drift : (ts : List (Turn D)) (s : Session D) → s.turns ≡ ts → Drift s (arrive_at ts s).1
  unfolding arrive_at
  arrive_at-Drift [] s h = Drift-refl s
  arrive_at-Drift (t ∷ rest) s h = record { taken = t ∷ []; turns_eq = h; committed_eq = refl }

  pub arrive-Drift : (s : Session D) → Drift s (arrive s).1
  unfolding arrive
  arrive-Drift s = arrive_at-Drift s.turns s refl

-- A piece of a transaction that ends before the commit.
pub record Tentative {D E A : Type 0} (m : Action D E A) : Type 0 where
  pub drift : (s : Session D) → Drift s (m s).1

module _ {D E A : Type 0} where
  pub Tentative-pure : (a : A) → Tentative (pure {D = D} {E = E} a)
  Tentative-pure a = record { drift = Drift-refl }

  pub Tentative-raise : (e : E) → Tentative (raise {D = D} {A = A} e)
  Tentative-raise e = record { drift = Drift-refl }

  pub Tentative-lift : (r : Outcome E A) → Tentative (lift {D = D} r)
  Tentative-lift r = record { drift = Drift-refl }

  answer_read-eq : (e : E) (q : D → A) (r : Reply) (s : Session D) → (answer_read e q (r, s)).1 ≡ s
  unfolding answer_read
  answer_read-eq e q served s = refl
  answer_read-eq e q refused s = refl
  answer_read-eq e q lost s = refl

  pub Tentative-read : (e : E) (q : D → A) → Tentative (read e q)
  unfolding read
  Tentative-read e q = record {
    drift = λ s. rw (answer_read-eq e q (arrive s).0 (arrive s).1) (arrive-Drift s);
  }

  answer_write-Drift :
      (e : E) (f : D → A × D) (r : Reply) (s : Session D) → Drift s (answer_write e f (r, s)).1
  unfolding answer_write
  answer_write-Drift e f served s = record { taken = []; turns_eq = refl; committed_eq = refl }
  answer_write-Drift e f refused s = Drift-refl s
  answer_write-Drift e f lost s = record { taken = []; turns_eq = refl; committed_eq = refl }

  pub Tentative-write : (e : E) (f : D → A × D) → Tentative (write e f)
  unfolding write
  Tentative-write e f = record {
    drift = λ s. Drift-trans (arrive-Drift s) (answer_write-Drift e f (arrive s).0 (arrive s).1);
  }

module _ {D E : Type 0} where
  answer_begin-Drift : (e : E) (r : Reply) (s : Session D) → Drift s (answer_begin e (r, s)).1
  unfolding answer_begin
  answer_begin-Drift e served s = record { taken = []; turns_eq = refl; committed_eq = refl }
  answer_begin-Drift e refused s = Drift-refl s
  answer_begin-Drift e lost s = Drift-refl s

  pub Tentative-begin : (e : E) → Tentative (begin {D = D} e)
  unfolding begin
  Tentative-begin e = record {
    drift = λ s. Drift-trans (arrive-Drift s) (answer_begin-Drift e (arrive s).0 (arrive s).1);
  }

module _ {D E A B : Type 0} where
  continue-Drift :
      (s : Session D) (r : Outcome E A) (t : Session D) (f : A → Action D E B)
      → Drift s t
      → ((a : A) → Tentative (f a))
      → Drift s (continue (r, t) f).1
  continue-Drift s (ok a) t f d k = Drift-trans d ((k a).drift t)
  continue-Drift s (err e) t f d k = d

  pub Tentative-bind :
      (m : Action D E A) (f : A → Action D E B)
      → Tentative m
      → ((a : A) → Tentative (f a))
      → Tentative (m >>= f)
  Tentative-bind m f h k = record { drift = λ s. continue-Drift s (m s).0 (m s).1 f (h.drift s) k }

module _ {D E A : Type 0} where
  pub Tentative-if :
      (b : Bool) (m n : Action D E A) → Tentative m → Tentative n → Tentative (if b then m else n)
  Tentative-if true m n h k = h
  Tentative-if false m n h k = k

pub ruleset tentative = (
  Tentative-pure, Tentative-raise, Tentative-lift, Tentative-read, Tentative-write, Tentative-begin,
  Tentative-bind, Tentative-if,
)
