-- ===== src/Order/Saga/Rely.antt =====
-- The saga's calls stay in order, whatever the ports and the database answer and whatever else runs:
-- services/order/internal/app/saga/orchestrator.go.
use event_driven_order_fulfi.Common.{◌≡◌, refl, ap, List, [], ◌∷◌, Outcome, ok, err, inl, inr, All}
use event_driven_order_fulfi.Common.Text.{text_key}
use event_driven_order_fulfi.Common.Session.{
  Session, Turn, pure, lift, exec, arrive, arrive_at, continue, install, ◌>>=◌,
}
use event_driven_order_fulfi.Common.Session.Statements.{exec-cases}
use event_driven_order_fulfi.Order.Saga.{
  Fault, rejected, transient, Call, World, Saga, unless_rejected, branch_rejected,
}
use event_driven_order_fulfi.Order.Saga.Journal.{Later, IsConsistent}

-- Other sessions may do anything that keeps the world consistent and takes no call back.
abbrev pub IsSteady : List (Turn World) → Type 0
IsSteady ts =
    All
      (λ t.
        (w : World) → IsConsistent w → IsConsistent (t.others w) × Later w.calls (t.others w).calls)
      ts

pub record IsGood (s : Session World) : Type 0 where
  pub consistent : IsConsistent s.committed
  pub outside : s.view ≡ s.committed
  pub steady : IsSteady s.turns

pub record After {A : Type 0} (past : List Call) (Q : A → List Call → Type 0)
    (r : Outcome Fault A × Session World) : Type 0 where
  pub good : IsGood r.1
  pub later : Later past r.1.committed.calls
  pub gives : (a : A) → r.0 ≡ ok a → Q a r.1.committed.calls

-- `m`, run when the calls of `past` have been made, keeps the world good, and gives `Q`.
pub record Sound {A : Type 0} (past : List Call) (m : Saga A) (Q : A → List Call → Type 0)
    : Type 0 where
  pub run : (s : Session World) → IsGood s → Later past s.committed.calls → After past Q (m s)

arrive_at-IsGood :
    (ts : List (Turn World)) (s : Session World)
    → s.turns ≡ ts
    → IsSteady ts
    → IsGood s
    → IsGood (arrive_at ts s).1 × Later s.committed.calls (arrive_at ts s).1.committed.calls
unfolding arrive_at
arrive_at-IsGood [] s e st g = (g, λ _ h. h)
arrive_at-IsGood (t ∷ ts) s e st g =
    let (c, l) = st.0 s.committed g.consistent in
    (record { consistent = c; outside = ap t.others g.outside; steady = st.1 }, l)

pub arrive-IsGood :
    (s : Session World)
    → IsGood s
    → IsGood (arrive s).1 × Later s.committed.calls (arrive s).1.committed.calls
unfolding arrive
arrive-IsGood s g = arrive_at-IsGood s.turns s refl g.steady g

module _ {A : Type 0} (past : List Call) (Q : A → List Call → Type 0) where
  pub Sound-lift :
      (r : Outcome Fault A)
      → ((a : A) (l : List Call) → Later past l → r ≡ ok a → Q a l)
      → Sound past (lift r) Q
  Sound-lift r q = record {
    run = λ s g l. record { good = g; later = l; gives = λ a e. q a s.committed.calls l e };
  }

  pub Sound-pure : (a : A) → ((l : List Call) → Later past l → Q a l) → Sound past (pure a) Q
  Sound-pure a q = Sound-lift (ok a) (λ b l k e. let same : a ≡ b = cc in rw (← same) (q l k))

  pub Sound-exec :
      (f : World → A × World)
      → ((w : World)
          → IsConsistent w
          → Later past w.calls
          → IsConsistent (f w).1 × Later w.calls (f w).1.calls × Q (f w).0 (f w).1.calls)
      → Sound past (exec transient f) Q
  Sound-exec f q = record {
    run = λ s g l.
        let (g', l') = arrive-IsGood s g in
        let t = (arrive s).1 in
        let (c, k, now) = q t.committed g'.consistent (λ c h. l' c (l c h)) in
        let g2 : IsGood (install t (f t.committed).1) = record {
          consistent = c;
          outside = refl;
          steady = g'.steady;
        } in
        let l2 : Later past (f t.committed).1.calls = λ c h. k c (l' c (l c h)) in
        elim (exec-cases transient f s) [
          | inl e ↦ rw e (record { good = g'; later = λ c h. l' c (l c h); gives = λ a h. cc })
          | inr (inl e) ↦ rw e (record { good = g2; later = l2; gives = λ a h. cc })
          | inr (inr e) ↦ rw e (record {
            good = g2;
            later = l2;
            gives = λ a h. let same : (f t.committed).0 ≡ a = cc in rw (← same) now;
          })
        ];
  }

module _ {A B : Type 0} (past : List Call) (Q : A → List Call → Type 0)
    (R : B → List Call → Type 0) where
  pub Sound-bind :
      (m : Saga A) (f : A → Saga B)
      → Sound past m Q
      → ((a : A) (l : List Call) → Later past l → Q a l → Sound l (f a) R)
      → Sound past (m >>= f) R
  Sound-bind m f h k = record { run = λ s g l. next (m s) (h.run s g l) }
    where
      next : (r : Outcome Fault A × Session World) → After past Q r → After past R (continue r f)
      next (ok a, s) x =
          let it = (k a s.committed.calls x.later (x.gives a refl)).run s x.good (λ _ h. h) in
          record { good = it.good; later = λ c h. it.later c (x.later c h); gives = it.gives }
      next (err e, s) x = record { good = x.good; later = x.later; gives = λ a h. cc }

exec_err :
    {A : Type 0} (f : World → A × World) (s : Session World) {e : Fault}
    → (exec transient f s).0 ≡ err e
    → e ≡ transient
exec_err f s h = elim (exec-cases transient f s) [
  | inl x ↦ cc
  | inr (inl x) ↦ cc
  | inr (inr x) ↦ cc
]

module _ (past : List Call) (R : Unit {0} → List Call → Type 0) where
  pub Sound-unless_rejected :
      (f : World → Outcome Fault (Unit {0}) × World) (k next : Saga (Unit {0}))
      (P : Outcome Fault (Unit {0}) → List Call → Type 0)
      → Sound past (exec transient f) P
      → ((l : List Call) → Later past l → P (err rejected) l → Sound l k R)
      → ((l : List Call) → Later past l → P (ok tt) l → Sound l next R)
      → Sound past (unless_rejected (exec transient f >>= lift) k next) R
  unfolding unless_rejected
  Sound-unless_rejected f k next P h j n = record {
    run = λ s g l. branch (exec transient f s) (λ e. exec_err f s) (h.run s g l);
  }
    where
      branch :
          (r : Outcome Fault (Outcome Fault (Unit {0})) × Session World)
          → ((e : Fault) → r.0 ≡ err e → e ≡ transient)
          → After past P r
          → After past R (branch_rejected (continue r lift) k next)
      branch (ok (ok u), s) q x =
          let it = (n s.committed.calls x.later (x.gives (ok tt) refl)).run s x.good (λ _ h. h) in
          record { good = it.good; later = λ c h. it.later c (x.later c h); gives = it.gives }
      branch (ok (err rejected), s) q x =
          let it =
            (j s.committed.calls x.later (x.gives (err rejected) refl)).run s x.good (λ _ h. h) in
          record { good = it.good; later = λ c h. it.later c (x.later c h); gives = it.gives }
      branch (ok (err transient), s) q x = record {
        good = x.good;
        later = x.later;
        gives = λ a h. cc;
      }
      branch (err rejected, s) q x = let never = q rejected refl in cc
      branch (err transient, s) q x = record { good = x.good; later = x.later; gives = λ a h. cc }
