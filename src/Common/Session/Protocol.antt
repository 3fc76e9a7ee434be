-- ===== src/Common/Session/Protocol.antt =====
-- Rely and guarantee: an invariant of the database, and what its commits may change over time. Where
-- all other sessions keep to the protocol, a program is verified statement by statement.
use mathlib.Core.Path.{◌≡◌, refl, ap}
use mathlib.Core.Bool.{Bool, true, false}
use mathlib.Core.Logic.{inl, inr}
use mathlib.Core.List.{List, [], ◌∷◌}
use event_driven_order_fulfi.Common.Tests.{if◌then◌else◌}
use event_driven_order_fulfi.Common.Lists.{All}
use event_driven_order_fulfi.Common.Results.{Outcome, ok, err}
use event_driven_order_fulfi.Common.Session.{
  Session, Turn, Action, pure, raise, lift, read, exec, arrive, arrive_at, continue, install, ◌>>=◌,
}
use event_driven_order_fulfi.Common.Session.Statements.{exec-cases, read-cases}

-- `Ahead d d'`: from `d` the commits may lead to `d'`.
pub record Protocol (D : Type 0) : Type 1 where
  pub Holds : D → Type 0
  pub Ahead : D → D → Type 0
  pub Ahead-refl : (d : D) → Ahead d d
  pub Ahead-trans : {a b c : D} → Ahead a b → Ahead b c → Ahead a c

module _ {D : Type 0} (G : Protocol D) where
  -- A commit that keeps to the protocol.
  pub record Allowed (f : D → D) : Type 0 where
    pub keeps : (d : D) → G.Holds d → G.Holds (f d) × G.Ahead d (f d)

  abbrev pub IsSteady : List (Turn D) → Type 0
  IsSteady ts = All (λ t. Allowed t.others) ts

  -- Outside transactions, in a valid state, with others that keep to the protocol.
  pub record IsGood (s : Session D) : Type 0 where
    pub valid : G.Holds s.committed
    pub outside : s.view ≡ s.committed
    pub steady : IsSteady s.turns

  pub record After {E A : Type 0} (past : D) (Q : A → D → Type 0) (r : Outcome E A × Session D)
      : Type 0 where
    pub good : IsGood r.1
    pub ahead : G.Ahead past r.1.committed
    pub gives : (a : A) → r.0 ≡ ok a → Q a r.1.committed

  -- `m`, run ahead of `past`, keeps to the protocol, and where it succeeds its result satisfies `Q`.
  pub record Sound {E A : Type 0} (past : D) (m : Action D E A) (Q : A → D → Type 0) : Type 0 where
    pub run : (s : Session D) → IsGood s → G.Ahead past s.committed → After past Q (m s)

  arrive_at-IsGood :
      (ts : List (Turn D)) (s : Session D)
      → s.turns ≡ ts
      → IsSteady ts
      → IsGood s
      → IsGood (arrive_at ts s).1 × G.Ahead s.committed (arrive_at ts s).1.committed
  unfolding arrive_at
  arrive_at-IsGood [] s e st g = (g, G.Ahead-refl s.committed)
  arrive_at-IsGood (t ∷ ts) s e st g =
      let (v, a) = st.0.keeps s.committed g.valid in
      (record { valid = v; outside = ap t.others g.outside; steady = st.1 }, a)

  arrive-IsGood :
      (s : Session D) → IsGood s → IsGood (arrive s).1 × G.Ahead s.committed (arrive s).1.committed
  unfolding arrive
  arrive-IsGood s g = arrive_at-IsGood s.turns s refl g.steady g

  module _ {E A : Type 0} (past : D) (Q : A → D → Type 0) where
    pub Sound-lift :
        (r : Outcome E A)
        → ((a : A) (d : D) → G.Ahead past d → r ≡ ok a → Q a d)
        → Sound past (lift r) Q
    Sound-lift r q = record {
      run = λ s g l. record { good = g; ahead = l; gives = λ a e. q a s.committed l e };
    }

    pub Sound-pure : (a : A) → ((d : D) → G.Ahead past d → Q a d) → Sound {E = E} past (pure a) Q
    Sound-pure a q = Sound-lift (ok a) (λ b d k e. let same : a ≡ b = cc in rw (← same) (q d k))

    pub Sound-raise : (e : E) → Sound past (raise e) Q
    Sound-raise e = Sound-lift (err e) (λ a d k h. cc)

    pub Sound-if :
        (b : Bool) (m n : Action D E A)
        → (b ≡ true → Sound past m Q)
        → (b ≡ false → Sound past n Q)
        → Sound past (if b then m else n) Q
    Sound-if true m n h k = h refl
    Sound-if false m n h k = k refl

    -- A SELECT sees a state that the commits have led to.
    pub Sound-read :
        (e : E) (q : D → A)
        → ((d : D) → G.Holds d → G.Ahead past d → Q (q d) d)
        → Sound past (read e q) Q
    Sound-read e q h = record {
      run = λ s g l.
          let (g', l') = arrive-IsGood s g in
          let l2 = G.Ahead-trans l l' in
          let (x, same, seen) = read-cases e q s in
          let t = (arrive s).1 in
          let now : Q (q t.view) t.committed = rw g'.outside (h t.committed g'.valid l2) in
          rw same (record { good = g'; ahead = l2; gives = λ a k. rw (← seen a k) now });
    }

    -- A statement that commits by itself.
    pub Sound-exec :
        (e : E) (f : D → A × D)
        → ((d : D)
            → G.Holds d
            → G.Ahead past d
            → G.Holds (f d).1 × G.Ahead d (f d).1 × Q (f d).0 (f d).1)
        → Sound past (exec e f) Q
    Sound-exec e f q = record {
      run = λ s g l.
          let (g', l') = arrive-IsGood s g in
          let t = (arrive s).1 in
          let l1 = G.Ahead-trans l l' in
          let (v, a, now) = q t.committed g'.valid l1 in
          let g2 : IsGood (install t (f t.committed).1) = record {
            valid = v;
            outside = refl;
            steady = g'.steady;
          } in
          let l2 = G.Ahead-trans l1 a in
          elim (exec-cases e f s) [
            | inl x ↦ rw x (record { good = g'; ahead = l1; gives = λ b h. cc })
            | inr (inl x) ↦ rw x (record { good = g2; ahead = l2; gives = λ b h. cc })
            | inr (inr x) ↦ rw x (record {
              good = g2;
              ahead = l2;
              gives = λ b h. let same : (f t.committed).0 ≡ b = cc in rw (← same) now;
            })
          ];
    }

  module _ {E A B : Type 0} (past : D) (Q : A → D → Type 0) (R : B → D → Type 0) where
    After-continue :
        (r : Outcome E A × Session D) (f : A → Action D E B)
        → ((a : A) (d : D) → G.Ahead past d → Q a d → Sound d (f a) R)
        → After past Q r
        → After past R (continue r f)
    After-continue (ok a, s) f k x =
        let it =
          (k a s.committed x.ahead (x.gives a refl)).run s x.good (G.Ahead-refl s.committed) in
        record { good = it.good; ahead = G.Ahead-trans x.ahead it.ahead; gives = it.gives }
    After-continue (err e, s) f k x = record { good = x.good; ahead = x.ahead; gives = λ a h. cc }

    pub Sound-bind :
        (m : Action D E A) (f : A → Action D E B)
        → Sound past m Q
        → ((a : A) (d : D) → G.Ahead past d → Q a d → Sound d (f a) R)
        → Sound past (m >>= f) R
    Sound-bind m f h k = record { run = λ s g l. After-continue (m s) f k (h.run s g l) }
