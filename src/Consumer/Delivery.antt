-- ===== src/Consumer/Delivery.antt =====
-- Delivery at least once: the loop of the workers over any number of restarts,
-- services/fulfillment/internal/worker/consumer/worker.go and its siblings.
use event_driven_order_fulfi.Common.{
  ℕ, zero, suc, ◌+◌, ◌≡◌, refl, sym, ◌∙◌, Bool, true, false, ◌⊎◌, inl, inr, List, [], ◌∷◌, Outcome,
  ok, err, All, All-append, take, drop, take-drop, arith,
}
use event_driven_order_fulfi.Common.Session.{Session, Action, Reply, served, refused, lost}
use event_driven_order_fulfi.Common.Session.Protocol.{Protocol, IsGood, Sound}
use event_driven_order_fulfi.Consumer.{
  Message, Failure, permanent, transient, DeadLetter, Worker, next_reply, commit_message,
  publish_dead, process, run, conclude, commit_next, proceed, commit_answered, publish_answered,
}

-- A handler of messages over a database that follows a protocol, and the effect that a message has
-- had once its handling succeeds. Only poisoned messages fail for good.
pub record Handler {W : Type 0} (G : Protocol W) : Type 1 where
  pub handle : Message → Action W Failure (Unit {0})
  pub Effect : Message → W → Type 0
  pub Poison : Message → Type 0
  pub stable : (m : Message) (w w' : W) → Effect m w → G.Ahead w w' → Effect m w'
  pub sound : (past : W) (m : Message) → Sound G past (handle m) (λ _ w. Effect m w)
  pub poison : (m : Message) (s : Session W) → (handle m s).0 ≡ err permanent → Poison m

-- Whether a message is on the dead-letter topic.
abbrev pub IsDead : Message → List DeadLetter → Type 0
IsDead m [] = ⊥
IsDead m (l ∷ rest) = (m ≡ l.message) ⊎ IsDead m rest

module _ {W : Type 0} (handle : Message → Action W Failure (Unit {0})) where
  -- The lives of a worker: each begins at the committed offset.
  abbrev pub lives : ℕ → List Message → Worker W → Worker W
  lives zero log r = r
  lives (suc n) log r = lives n log (run handle r.committed (drop r.committed log) r)

  -- A transient failure stops the worker in front of the message.
  pub run_stopped :
      (at : ℕ) (m : Message) (rest : List Message) (r : Worker W)
      → handle m r.session ≡ (err transient, r.session)
      → run handle at (m ∷ rest) r ≡ r
  unfolding run process conclude proceed
  run_stopped at m rest r e = rw e refl

module _ {W : Type 0} (G : Protocol W) (h : Handler G) where
  -- A message has had its effect, or it is poisoned and a dead letter.
  abbrev pub IsSettled : Worker W → Message → Type 0
  IsSettled r m = h.Effect m r.session.committed ⊎ (h.Poison m × IsDead m r.dead)

  -- Every message below the committed offset is settled.
  pub record IsReliable (log : List Message) (r : Worker W) : Type 0 where
    pub good : IsGood G r.session
    pub settled : All (IsSettled r) (take r.committed log)

  -- What one worker state leads to.
  record Later (r r' : Worker W) : Type 0 where
    pub ahead : G.Ahead r.session.committed r'.session.committed
    pub kept : (m : Message) → IsDead m r.dead → IsDead m r'.dead

  IsSettled-Later : {r r' : Worker W} → Later r r' → (m : Message) → IsSettled r m → IsSettled r' m
  IsSettled-Later {r} {r'} l m (inl e) = inl (h.stable m _ _ e l.ahead)
  IsSettled-Later l m (inr (p, d)) = inr (p, l.kept m d)

  All-Later :
      {r r' : Worker W}
      → Later r r'
      → (ms : List Message) → All (IsSettled r) ms
      → All (IsSettled r') ms
  All-Later l [] a = tt
  All-Later l (m ∷ ms) a = (IsSettled-Later l m a.0, All-Later l ms a.1)

  module _ (log : List Message) (at : ℕ) (m : Message) (rest : List Message)
      (here : drop at log ≡ m ∷ rest) where
    -- The state behind a message: reliable, and past the message if the worker goes on.
    record Passed (x : Bool × Worker W) : Type 0 where
      pub reliable : IsReliable log x.1
      pub past : x.0 ≡ true → x.1.committed ≡ suc at

    settled_next :
        (r : Worker W)
        → All (IsSettled r) (take at log)
        → IsSettled r m
        → All (IsSettled r) (take (at + 1) log)
    settled_next r a b =
        let e : at + 1 ≡ suc at = omega arith in
        rw (e, (take-drop at log m rest here).0)
          (All-append (IsSettled r) (take at log) (m ∷ []) a (b, tt))

    commit_answered-Passed :
        (reply : Reply) (r : Worker W)
        → IsGood G r.session
        → r.committed ≡ at
        → All (IsSettled r) (take at log)
        → IsSettled r m
        → Passed (commit_answered at reply r)
    unfolding commit_answered
    commit_answered-Passed served r g e a b = record {
      reliable = record { good = g; settled = settled_next r a b };
      past = λ _. omega arith;
    }
    commit_answered-Passed refused r g e a b = record {
      reliable = record { good = g; settled = rw e a };
      past = λ x. cc;
    }
    commit_answered-Passed lost r g e a b = record {
      reliable = record { good = g; settled = settled_next r a b };
      past = λ x. cc;
    }

    commit_message-Passed :
        (r : Worker W)
        → IsGood G r.session
        → r.committed ≡ at
        → All (IsSettled r) (take at log)
        → IsSettled r m
        → Passed (commit_message at r)
    unfolding commit_message
    commit_message-Passed r g e a b =
        let (reply, left) = next_reply r.replies in
        let r' = record r { replies = left } in
        let l : Later r r' = record { ahead = G.Ahead-refl r.session.committed; kept = λ x d. d } in
        commit_answered-Passed reply r' g e (All-Later l (take at log) a) (IsSettled-Later l m b)

    publish_answered-Passed :
        (reply : Reply) (r : Worker W)
        → IsGood G r.session
        → r.committed ≡ at
        → All (IsSettled r) (take at log)
        → h.Poison m
        → Passed
            (commit_next at (publish_answered (record { message = m; source_offset = at }) reply r))
    unfolding publish_answered commit_next
    publish_answered-Passed served r g e a b =
        let r' = record r { dead = record { message = m; source_offset = at } ∷ r.dead } in
        let l : Later r r' = record {
          ahead = G.Ahead-refl r.session.committed;
          kept = λ x d. inr d;
        } in
        commit_message-Passed r' g e (All-Later l (take at log) a) (inr (b, inl refl))
    publish_answered-Passed refused r g e a b = record {
      reliable = record { good = g; settled = rw e a };
      past = λ x. cc;
    }
    publish_answered-Passed lost r g e a b =
        let r' = record r { dead = record { message = m; source_offset = at } ∷ r.dead } in
        let l : Later r r' = record {
          ahead = G.Ahead-refl r.session.committed;
          kept = λ x d. inr d;
        } in
        record {
          reliable = record { good = g; settled = rw e (All-Later l (take at log) a) };
          past = λ x. cc;
        }

    conclude-Passed :
        (answer : Outcome Failure (Unit {0})) (r : Worker W)
        → IsGood G r.session
        → r.committed ≡ at
        → All (IsSettled r) (take at log)
        → (answer ≡ ok tt → h.Effect m r.session.committed)
        → (answer ≡ err permanent → h.Poison m)
        → Passed (conclude at m answer r)
    unfolding conclude publish_dead
    conclude-Passed (ok u) r g e a b c = commit_message-Passed r g e a (inl (b refl))
    conclude-Passed (err permanent) r g e a b c =
        let (reply, left) = next_reply r.replies in
        let r' = record r { replies = left } in
        let l : Later r r' = record { ahead = G.Ahead-refl r.session.committed; kept = λ x d. d } in
        publish_answered-Passed reply r' g e (All-Later l (take at log) a) (c refl)
    conclude-Passed (err transient) r g e a b c = record {
      reliable = record { good = g; settled = rw e a };
      past = λ x. cc;
    }

    process-Passed :
        (r : Worker W) → r.committed ≡ at → IsReliable log r → Passed (process h.handle at m r)
    unfolding process
    process-Passed r e v =
        let it =
          (h.sound r.session.committed m).run r.session v.good (G.Ahead-refl r.session.committed) in
        let r' = record r { session = (h.handle m r.session).1 } in
        let l : Later r r' = record { ahead = it.ahead; kept = λ x d. d } in
        let before : All (IsSettled r) (take at log) = rw (← e) v.settled in
        conclude-Passed (h.handle m r.session).0 r' it.good e (All-Later l (take at log) before)
          (λ k. it.gives tt k) (λ k. h.poison m r.session k)

  proceed-IsReliable :
      (log rest : List Message) (at : ℕ) (m : Message) (d : drop at log ≡ m ∷ rest)
      (x : Bool × Worker W) (next : Worker W → Worker W)
      → Passed log at m rest d x
      → ((r : Worker W) → r.committed ≡ suc at → IsReliable log r → IsReliable log (next r))
      → IsReliable log (proceed x next)
  unfolding proceed
  proceed-IsReliable log rest at m d (true, r) next p k = k r (p.past refl) p.reliable
  proceed-IsReliable log rest at m d (false, r) next p k = p.reliable

  run-IsReliable :
      (log rest : List Message) (at : ℕ) (r : Worker W)
      → drop at log ≡ rest
      → r.committed ≡ at
      → IsReliable log r
      → IsReliable log (run h.handle at rest r)
  unfolding run
  run-IsReliable log [] at r d e v = v
  run-IsReliable log (m ∷ rest) at r d e v =
      let next : at + 1 ≡ suc at = omega arith in
      proceed-IsReliable log rest at m d (process h.handle at m r) (run h.handle (at + 1) rest)
        (process-Passed log at m rest d r e v)
        (λ r' e' v'.
          run-IsReliable log rest (at + 1) r' (rw next (take-drop at log m rest d).1)
            (e' ∙ sym next) v')

  -- Whatever fails, and however often the worker stops and starts again: if every message below the
  -- committed offset has had its effect or is poisoned and a dead letter, this stays so.
  pub lives-IsReliable :
      (n : ℕ) (log : List Message) (r : Worker W)
      → IsReliable log r
      → IsReliable log (lives h.handle n log r)
  lives-IsReliable zero log r v = v
  lives-IsReliable (suc n) log r v =
      lives-IsReliable n log (run h.handle r.committed (drop r.committed log) r)
        (run-IsReliable log (drop r.committed log) r.committed r refl refl v)
