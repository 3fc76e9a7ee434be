-- ===== src/Common/Session/Transaction.antt =====
-- Rely and guarantee within a transaction: what is committed and what the transaction sees are valid,
-- and what it sees moves along the protocol.
use mathlib.Core.Path.{◌≡◌, refl}
use mathlib.Core.List.{List, [], ◌∷◌}
use event_driven_order_fulfi.Common.Results.{Outcome, ok, err}
use event_driven_order_fulfi.Common.Session.{
  Reply, served, refused, lost, Session, Turn, Action, arrive, arrive_at, read, write, emit, begin,
  commit, pure, rolled_back, continue, answer_read, answer_write, answer_emit, answer_begin,
  answer_commit, ◌>>=◌,
}
use event_driven_order_fulfi.Common.Session.Protocol.{Protocol, IsSteady}

module _ {D : Type 0} (G : Protocol D) where
  pub record IsOpen (s : Session D) : Type 0 where
    pub valid : G.Holds s.committed
    pub seen : G.Holds s.view
    pub steady : IsSteady G s.turns

  -- `m` leaves every valid session valid.
  pub record Keeps {E A : Type 0} (m : Action D E A) : Type 0 where
    pub run : (s : Session D) → IsOpen s → IsOpen (m s).1

  pub record Within {E A : Type 0} (past : D) (Q : A → D → Type 0) (r : Outcome E A × Session D)
      : Type 0 where
    pub open_after : IsOpen r.1
    pub ahead : G.Ahead past r.1.view
    pub gives : (a : A) → r.0 ≡ ok a → Q a r.1.view

  -- A part of a transaction whose view is ahead of `past`.
  pub record Part {E A : Type 0} (past : D) (m : Action D E A) (Q : A → D → Type 0) : Type 0 where
    pub run : (s : Session D) → IsOpen s → G.Ahead past s.view → Within past Q (m s)

  arrive_at-IsOpen :
      (ts : List (Turn D)) (s : Session D)
      → s.turns ≡ ts
      → IsSteady G ts
      → IsOpen s
      → IsOpen (arrive_at ts s).1 × G.Ahead s.view (arrive_at ts s).1.view
  unfolding arrive_at
  arrive_at-IsOpen [] s e st o = (o, G.Ahead-refl s.view)
  arrive_at-IsOpen (t ∷ ts) s e st o =
      let (v, a) = st.0.keeps s.committed o.valid in
      let (v', a') = st.0.keeps s.view o.seen in
      (record { valid = v; seen = v'; steady = st.1 }, a')

  arrive-IsOpen :
      (s : Session D) → IsOpen s → IsOpen (arrive s).1 × G.Ahead s.view (arrive s).1.view
  unfolding arrive
  arrive-IsOpen s o = arrive_at-IsOpen s.turns s refl o.steady o

  module _ {E A : Type 0} (past : D) (Q : A → D → Type 0) where
    pub Part-pure : (a : A) → ((d : D) → G.Ahead past d → Q a d) → Part {E = E} past (pure a) Q
    Part-pure a q = record {
      run = λ s o l. record {
        open_after = o;
        ahead = l;
        gives = λ b e. let same : a ≡ b = cc in rw (← same) (q s.view l);
      };
    }

    answer_read-Within :
        (e : E) (q : D → A) (r : Reply) (s : Session D)
        → IsOpen s
        → G.Ahead past s.view
        → Q (q s.view) s.view
        → Within past Q (answer_read e q (r, s))
    unfolding answer_read
    answer_read-Within e q served s o l h = record {
      open_after = o;
      ahead = l;
      gives = λ a k. let same : q s.view ≡ a = cc in rw (← same) h;
    }
    answer_read-Within e q refused s o l h = record { open_after = o; ahead = l; gives = λ a k. cc }
    answer_read-Within e q lost s o l h = record { open_after = o; ahead = l; gives = λ a k. cc }

    pub Part-read :
        (e : E) (q : D → A)
        → ((d : D) → G.Holds d → G.Ahead past d → Q (q d) d)
        → Part past (read e q) Q
    unfolding read
    Part-read e q h = record {
      run = λ s o l.
          let (o', l') = arrive-IsOpen s o in
          let t = (arrive s).1 in
          let l2 = G.Ahead-trans l l' in
          answer_read-Within e q (arrive s).0 t o' l2 (h t.view o'.seen l2);
    }

    answer_write-Within :
        (e : E) (f : D → A × D) (r : Reply) (s : Session D)
        → IsOpen s
        → G.Ahead past s.view
        → G.Holds (f s.view).1 × G.Ahead s.view (f s.view).1 × Q (f s.view).0 (f s.view).1
        → Within past Q (answer_write e f (r, s))
    unfolding answer_write
    answer_write-Within e f served s o l (v, a, h) = record {
      open_after = record { valid = o.valid; seen = v; steady = o.steady };
      ahead = G.Ahead-trans l a;
      gives = λ b k. let same : (f s.view).0 ≡ b = cc in rw (← same) h;
    }
    answer_write-Within e f refused s o l h = record {
      open_after = o;
      ahead = l;
      gives = λ a k. cc;
    }
    answer_write-Within e f lost s o l (v, a, h) = record {
      open_after = record { valid = o.valid; seen = v; steady = o.steady };
      ahead = G.Ahead-trans l a;
      gives = λ b k. cc;
    }

    pub Part-write :
        (e : E) (f : D → A × D)
        → ((d : D)
            → G.Holds d
            → G.Ahead past d
            → G.Holds (f d).1 × G.Ahead d (f d).1 × Q (f d).0 (f d).1)
        → Part past (write e f) Q
    unfolding write
    Part-write e f h = record {
      run = λ s o l.
          let (o', l') = arrive-IsOpen s o in
          let t = (arrive s).1 in
          let l2 = G.Ahead-trans l l' in
          answer_write-Within e f (arrive s).0 t o' l2 (h t.view o'.seen l2);
    }

  module _ {E : Type 0} (past : D) (Q : Unit {0} → D → Type 0) where
    answer_emit-Within :
        (e : E) (f : D → D) (r : Reply) (s : Session D)
        → ((d : D) → G.Holds d → G.Holds (f d) × G.Ahead d (f d) × Q tt (f d))
        → IsOpen s
        → G.Ahead past s.view
        → Within past Q (answer_emit e f (r, s))
    unfolding answer_emit
    answer_emit-Within e f served s h o l =
        let (v, a, q) = h s.view o.seen in
        record {
          open_after = record { valid = (h s.committed o.valid).0; seen = v; steady = o.steady };
          ahead = G.Ahead-trans l a;
          gives = λ b k. q;
        }
    answer_emit-Within e f refused s h o l = record { open_after = o; ahead = l; gives = λ b k. cc }
    answer_emit-Within e f lost s h o l =
        let (v, a, q) = h s.view o.seen in
        record {
          open_after = record { valid = (h s.committed o.valid).0; seen = v; steady = o.steady };
          ahead = G.Ahead-trans l a;
          gives = λ b k. cc;
        }

    pub Part-emit :
        (e : E) (f : D → D)
        → ((d : D) → G.Holds d → G.Holds (f d) × G.Ahead d (f d) × Q tt (f d))
        → Part past (emit e f) Q
    unfolding emit
    Part-emit e f h = record {
      run = λ s o l.
          let (o', l') = arrive-IsOpen s o in
          answer_emit-Within e f (arrive s).0 (arrive s).1 h o' (G.Ahead-trans l l');
    }

    answer_commit-Within :
        (e : E) (r : Reply) (s : Session D)
        → IsOpen s
        → G.Ahead past s.view
        → ((d : D) → G.Ahead past d → Q tt d)
        → Within past Q (answer_commit e (r, s))
    unfolding answer_commit
    answer_commit-Within e served s o l q = record {
      open_after = record { valid = o.seen; seen = o.seen; steady = o.steady };
      ahead = l;
      gives = λ b k. q s.view l;
    }
    answer_commit-Within e refused s o l q = record { open_after = o; ahead = l; gives = λ b k. cc }
    answer_commit-Within e lost s o l q = record {
      open_after = record { valid = o.seen; seen = o.seen; steady = o.steady };
      ahead = l;
      gives = λ b k. cc;
    }

    pub Part-commit : (e : E) → ((d : D) → G.Ahead past d → Q tt d) → Part past (commit e) Q
    unfolding commit
    Part-commit e q = record {
      run = λ s o l.
          let (o', l') = arrive-IsOpen s o in
          answer_commit-Within e (arrive s).0 (arrive s).1 o' (G.Ahead-trans l l') q;
    }

  module _ {E A B : Type 0} (past : D) (Q : A → D → Type 0) (R : B → D → Type 0) where
    Within-continue :
        (r : Outcome E A × Session D) (f : A → Action D E B)
        → ((a : A) (d : D) → G.Ahead past d → Q a d → Part d (f a) R)
        → Within past Q r
        → Within past R (continue r f)
    Within-continue (ok a, s) f k x =
        let it = (k a s.view x.ahead (x.gives a refl)).run s x.open_after (G.Ahead-refl s.view) in
        record {
          open_after = it.open_after;
          ahead = G.Ahead-trans x.ahead it.ahead;
          gives = it.gives;
        }
    Within-continue (err e, s) f k x = record {
      open_after = x.open_after;
      ahead = x.ahead;
      gives = λ a h. cc;
    }

    pub Part-bind :
        (m : Action D E A) (f : A → Action D E B)
        → Part past m Q
        → ((a : A) (d : D) → G.Ahead past d → Q a d → Part d (f a) R)
        → Part past (m >>= f) R
    Part-bind m f h k = record { run = λ s o l. Within-continue (m s) f k (h.run s o l) }

  answer_begin-IsOpen :
      {E : Type 0} (e : E) (r : Reply) (s : Session D) → IsOpen s → IsOpen (answer_begin e (r, s)).1
  unfolding answer_begin
  answer_begin-IsOpen e served s o = record { valid = o.valid; seen = o.valid; steady = o.steady }
  answer_begin-IsOpen e refused s o = o
  answer_begin-IsOpen e lost s o = o

  module _ {E A : Type 0} where
    continue-IsOpen :
        (r : Outcome E (Unit {0}) × Session D) (m : Action D E A) (Q : A → D → Type 0)
        → ((d : D) → Part d m Q)
        → IsOpen r.1
        → IsOpen (continue r (λ _. m)).1
    continue-IsOpen (ok u, s) m Q h o = ((h s.view).run s o (G.Ahead-refl s.view)).open_after
    continue-IsOpen (err e, s) m Q h o = o

    -- A whole transaction.
    pub Keeps-transaction :
        (e : E) (m : Action D E A) (Q : A → D → Type 0)
        → ((d : D) → Part d m Q)
        → Keeps (rolled_back (begin e >>= λ _. m))
    unfolding rolled_back begin
    Keeps-transaction e m Q h = record {
      run = λ s o.
          let (o', _) = arrive-IsOpen s o in
          let start = answer_begin-IsOpen e (arrive s).0 (arrive s).1 o' in
          let end = continue-IsOpen (answer_begin e (arrive s)) m Q h start in
          record { valid = end.valid; seen = end.valid; steady = end.steady };
    }
