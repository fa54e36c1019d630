-- ===== src/Node/Safety.antt =====
-- What holds of a node whatever the ledgers answer, the clock shows and the order of the tasks is.
use decentralised_interledge.Prelude.{
  ℕ, none, [], ◌∷◌, Result, ok, err, ◌≢◌, ◌⊎◌, inl, inr, refl, arith, Bool-cases, ◌==◌,
}
use decentralised_interledge.Prelude.Dict.{
  lookup, insert, erase, lookup-insert, lookup-erase_ne, HasUniqueKeys, insert-HasUniqueKeys,
  erase-HasUniqueKeys,
}
use native.Mathlib.Decide.{ℕ_discrete}
use decentralised_interledge.Interfaces.{Transfer}
use decentralised_interledge.Register.{Register, register_transfer, deregister_transfer}
use decentralised_interledge.Node.Calls.{
  Call, Reply, Coro, ret, raise, await, add, drop, registered, time,
}
use decentralised_interledge.Node.System.{Env, System, answered, Log, resume, turn}
use decentralised_interledge.Node.Protocol.{
  Extends, there, IsKnown, IsAllowed, IsJustified, AreKnown, MayDrop, Obeys, AreKnown-Extends,
  MayDrop-Extends,
}

-- Each call so far was allowed, and the register holds known transfers, each once and under its
-- own id.
pub record IsSound {W : Type 0} (s : System W) : Type 0 where
  pub justified : IsJustified s.log
  pub known : AreKnown s.log s.register
  pub unique : HasUniqueKeys s.register

insert-AreKnown :
    (log : Log) (t : Transfer) (s : Register)
    → IsKnown log t
    → AreKnown log s
    → AreKnown log (insert t.id t s)
insert-AreKnown log t [] known h = (refl, known, tt)
insert-AreKnown log t ((k, u) ∷ s) known (i, ku, rest) = elim (Bool-cases (t.id == k)) [
  | inl same ↦ rw same (refl, known, rest)
  | inr other ↦ rw other (i, ku, insert-AreKnown log t s known rest)
]

erase-AreKnown : (log : Log) (i : ℕ) (s : Register) → AreKnown log s → AreKnown log (erase i s)
erase-AreKnown log i [] h = tt
erase-AreKnown log i ((k, u) ∷ s) (e, ku, rest) = elim (Bool-cases (i == k)) [
  | inl same ↦ rw same rest
  | inr other ↦ rw other (e, ku, erase-AreKnown log i s rest)
]

module _ {W : Type 0} where
  -- What a run from s to s' brings about, in a sound system.
  pub record Advances (s s' : System W) : Type 0 where
    pub sound : IsSound s'
    pub extends : Extends s.log s'.log
    -- A transfer that was registered is so still, or was allowed to leave.
    pub kept :
        (i : ℕ) → lookup i s.register ≢ none → (lookup i s'.register ≢ none) ⊎ MayDrop s'.log i

  pub Advances-refl : (s : System W) → IsSound s → Advances s s
  Advances-refl s h = record { sound = h; extends = λ o p. p; kept = λ i r. inl r }

  pub Advances-trans : {s s' s'' : System W} → Advances s s' → Advances s' s'' → Advances s s''
  Advances-trans {s} {s'} {s''} a b = record {
    sound = b.sound;
    extends = λ o p. b.extends o (a.extends o p);
    kept = λ i r. elim (a.kept i r) [
      | inl still ↦ b.kept i still
      | inr may ↦ inr (MayDrop-Extends s'.log s''.log b.extends i may)
    ];
  }

  add-Advances :
      (t : Transfer) (s : System W)
      → IsSound s
      → IsKnown s.log t
      → Advances s (record s { register = register_transfer t s.register })
  unfolding register_transfer
  add-Advances t s h known = record {
    sound = record {
      justified = h.justified;
      known = insert-AreKnown s.log t s.register known h.known;
      unique = insert-HasUniqueKeys t.id t s.register h.unique;
    };
    extends = λ o p. p;
    kept = λ i r. inl (ground (arith, lookup-insert i t.id t s.register));
  }

  drop-Advances :
      (i : ℕ) (s : System W)
      → IsSound s
      → MayDrop s.log i
      → Advances s (record s { register = (deregister_transfer i s.register).1 })
  unfolding deregister_transfer
  drop-Advances i s h may = record {
    sound = record {
      justified = h.justified;
      known = erase-AreKnown s.log i s.register h.known;
      unique = erase-HasUniqueKeys i s.register h.unique;
    };
    extends = λ o p. p;
    kept = λ j r. elim (ℕ_discrete j i) [
      | yes same ↦ inr (rw same may)
      | no other ↦ inl (rw (lookup-erase_ne j i s.register other) r)
    ];
  }

  pub answer-Advances :
      (c : Call) (r : Result (Reply c)) (w : W) (s : System W)
      → IsSound s
      → IsAllowed s.log c
      → Advances s (record s { world = w; log = answered c r ∷ s.log })
  answer-Advances c r w s h allowed = record {
    sound = record {
      justified = (allowed, h.justified);
      known = AreKnown-Extends s.log (answered c r ∷ s.log) (λ o p. there p) s.register h.known;
      unique = h.unique;
    };
    extends = λ o p. there p;
    kept = λ i x. inl x;
  }

  -- The clock moves the world on and nothing else.
  tick-Advances : (w : W) (s : System W) → IsSound s → Advances s (record s { world = w })
  tick-Advances w s h = record {
    sound = record { justified = h.justified; known = h.known; unique = h.unique };
    extends = λ o p. p;
    kept = λ i r. inl r;
  }

-- A part of a run, with what is left of the coroutine.
abbrev pub Goes : {W A : Type 0} → System W → Coro A × System W → Type 0
Goes s (m, s') = Advances s s' × Obeys s'.log m

resume-Goes :
    {W A : Type 0} (c : Call) (k : Reply c → Coro A) (s : System W) (a : Result (Reply c) × W)
    → IsSound s
    → Obeys s.log (await c k)
    → Goes s (resume c k s a)
unfolding resume
resume-Goes c k s (ok x, w) h (allowed, rest) =
    (answer-Advances c (ok x) w s h allowed, rest s.log (λ o p. p) x)
resume-Goes c k s (err e, w) h (allowed, rest) = (answer-Advances c (err e) w s h allowed, tt)

Goes-behind :
    {W A : Type 0} {s s' : System W} (r : Coro A × System W) → Advances s s' → Goes s' r → Goes s r
Goes-behind r a (b, o) = (Advances-trans a b, o)

module _ {W : Type 0} (env : Env W) where
  pub turn-Goes :
      {A : Type 0} (m : Coro A) (s : System W) → IsSound s → Obeys s.log m → Goes s (turn env m s)
  unfolding turn
  turn-Goes (ret a) s h o = (Advances-refl s h, tt)
  turn-Goes (raise e) s h o = (Advances-refl s h, tt)
  turn-Goes (await c k) s h o = resume-Goes c k s (env.answer c s.world) h o
  turn-Goes (add t k) s h (known, o) =
      let a = add-Advances t s h known in Goes-behind _ a (turn-Goes k _ a.sound o)
  turn-Goes (drop i k) s h (may, o) =
      let a = drop-Advances i s h may in Goes-behind _ a (turn-Goes k _ a.sound o)
  turn-Goes (registered k) s h o =
      turn-Goes (k s.register) s h (o s.log (λ o p. p) s.register h.known)
  turn-Goes (time k) s h o =
      let a = tick-Advances (env.clock s.world).1 s h in
      Goes-behind _ a (turn-Goes (k (env.clock s.world).0) _ a.sound (o (env.clock s.world).0))
