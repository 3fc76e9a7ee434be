-- ===== src/Common/Session.antt =====
-- A service's connection to its database. Every statement takes one turn of a schedule that is
-- given from outside: first other sessions may commit, then the statement is served, refused, or
-- served with its reply lost. An empty schedule stands for a database that nobody else uses and
-- that always answers. Transactions read what is committed (READ COMMITTED) and their own writes.
pub mod Drift
pub mod Atomic
pub mod Statements
pub mod Protocol
pub mod Transaction
pub mod Alone
use mathlib.Core.Path.{◌≡◌, refl}
use mathlib.Core.List.{List, [], ◌∷◌}
use event_driven_order_fulfi.Common.Results.{Outcome, ok, err}

pub data Reply : Type 0 where
  served refused lost : Reply

pub record Turn (D : Type 0) : Type 0 where
  -- What the other sessions commit before the statement runs.
  pub others : D → D
  pub reply : Reply

-- `view` is what the running transaction sees; outside one it is `committed`.
pub record Session (D : Type 0) : Type 0 where
  pub committed : D
  pub view : D
  pub turns : List (Turn D)

-- Calls return their error, and leave the session behind either way.
abbrev pub Action : Type 0 → Type 0 → Type 0 → Type 0
Action D E A = Session D → Outcome E A × Session D

module _ {D : Type 0} where
  abbrev pub quiet : D → Session D
  quiet d = record { committed = d; view = d; turns = [] }

  unfoldable pub arrive_at : List (Turn D) → Session D → Reply × Session D
  arrive_at [] s = (served, s)
  arrive_at (t ∷ rest) s =
      (t.reply, record { committed = t.others s.committed; view = t.others s.view; turns = rest })

  -- A statement reaches the server.
  unfoldable pub arrive : Session D → Reply × Session D
  unfolding arrive_at
  arrive s = arrive_at s.turns s

abbrev pub install : {D : Type 0} → Session D → D → Session D
install s d = record s { committed = d; view = d }

module _ {D E A : Type 0} where
  abbrev pub pure : A → Action D E A
  pure a s = (ok a, s)

  abbrev pub raise : E → Action D E A
  raise e s = (err e, s)

  abbrev pub lift : Outcome E A → Action D E A
  lift r s = (r, s)

  answer_read : E → (D → A) → Reply × Session D → Outcome E A × Session D
  answer_read e q (served, s) = (ok (q s.view), s)
  answer_read e q (refused, s) = (err e, s)
  answer_read e q (lost, s) = (err e, s)

  -- A SELECT, in a transaction or straight on the pool. `e` is the error of a failed call.
  unfoldable pub read : E → (D → A) → Action D E A
  unfolding arrive answer_read
  read e q s = answer_read e q (arrive s)

  answer_write : E → (D → A × D) → Reply × Session D → Outcome E A × Session D
  answer_write e f (served, s) = (ok (f s.view).0, record s { view = (f s.view).1 })
  answer_write e f (refused, s) = (err e, s)
  answer_write e f (lost, s) = (err e, record s { view = (f s.view).1 })

  -- A writing statement of a transaction.
  unfoldable pub write : E → (D → A × D) → Action D E A
  unfolding arrive answer_write
  write e f s = answer_write e f (arrive s)

  answer_exec : E → (D → A × D) → Reply × Session D → Outcome E A × Session D
  answer_exec e f (served, s) = (ok (f s.committed).0, install s (f s.committed).1)
  answer_exec e f (refused, s) = (err e, s)
  answer_exec e f (lost, s) = (err e, install s (f s.committed).1)

  -- A writing statement on the pool, which commits by itself.
  unfoldable pub exec : E → (D → A × D) → Action D E A
  unfolding arrive answer_exec
  exec e f s = answer_exec e f (arrive s)

  -- `defer tx.Rollback`: after a commit there is nothing left to undo.
  unfoldable pub rolled_back : Action D E A → Action D E A
  rolled_back m s = let (r, s') = m s in (r, record s' { view = s'.committed })

module _ {D E : Type 0} where
  answer_emit : E → (D → D) → Reply × Session D → Outcome E (Unit {0}) × Session D
  answer_emit e f (served, s) = (ok tt, record s { committed = f s.committed; view = f s.view })
  answer_emit e f (refused, s) = (err e, s)
  answer_emit e f (lost, s) = (err e, record s { committed = f s.committed; view = f s.view })

  -- A call of another system within a transaction: it takes effect at once.
  unfoldable pub emit : E → (D → D) → Action D E (Unit {0})
  unfolding arrive answer_emit
  emit e f s = answer_emit e f (arrive s)

  answer_begin : E → Reply × Session D → Outcome E (Unit {0}) × Session D
  answer_begin e (served, s) = (ok tt, record s { view = s.committed })
  answer_begin e (refused, s) = (err e, s)
  answer_begin e (lost, s) = (err e, s)

  unfoldable pub begin : E → Action D E (Unit {0})
  unfolding arrive answer_begin
  begin e s = answer_begin e (arrive s)

  answer_commit : E → Reply × Session D → Outcome E (Unit {0}) × Session D
  answer_commit e (served, s) = (ok tt, record s { committed = s.view })
  answer_commit e (refused, s) = (err e, s)
  answer_commit e (lost, s) = (err e, record s { committed = s.view })

  unfoldable pub commit : E → Action D E (Unit {0})
  unfolding arrive answer_commit
  commit e s = answer_commit e (arrive s)

module _ {D E A B : Type 0} where
  abbrev pub continue : Outcome E A × Session D → (A → Action D E B) → Outcome E B × Session D
  continue (ok a, s) f = f a s
  continue (err e, s) f = (err e, s)

  -- `x, err := m; if err != nil { return err }`
  infixl 5 ◌>>=◌ ◌>>◌
  abbrev pub ◌>>=◌ : Action D E A → (A → Action D E B) → Action D E B
  ◌>>=◌ m f s = continue (m s) f

  abbrev pub ◌>>◌ : Action D E A → Action D E B → Action D E B
  m >> k = m >>= λ _. k
