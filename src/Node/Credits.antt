-- ===== src/Node/Credits.antt =====
-- How many commits and aborts a node makes, against how many transfers were reported to it. A task
-- holds a credit from the report of its transfer until its commit or abort; a registered transfer
-- that no task is about is a credit too.
pub mod Turns
pub mod Gathers
pub mod Roles
pub mod Settling
pub mod Phases
pub mod Rounds
use decentralised_interledge.Prelude.{
  ℕ, ◌+◌, ◌≤◌, Bool, true, false, ◌&&◌, ◌||◌, not, ◌==◌, List, [], ◌∷◌, Result, ok, err, ◌≡◌,
  if◌then◌else◌,
}
use decentralised_interledge.Prelude.Dict.{HasUniqueKeys}
use decentralised_interledge.Interfaces.{Transfer}
use decentralised_interledge.Register.{Register}
use decentralised_interledge.Node.Calls.{
  Call, Reply, Coro, ret, raise, await, add, drop, registered, time, process_event, commit_sending,
  abort_sending,
}
use decentralised_interledge.Node.System.{System, Log, answered}

-- One, if the test is true.
abbrev pub one_if : Bool → ℕ
one_if true = 1
one_if false = 0

-- Is the call a commit or an abort for this initiator id?
abbrev pub closes : ℕ → Call → Bool
closes i (commit_sending j) = j == i
closes i (abort_sending j _) = j == i
closes i _ = false

-- Is the answer a transfer with this initiator id?
abbrev pub reports : ℕ → (c : Call) → Result (Reply c) → Bool
reports i (process_event _) (ok t) = t.initiator_id == i
reports i _ _ = false

-- The commits and aborts that were asked for, those that raised among them.
abbrev pub closings : ℕ → Log → ℕ
closings i [] = 0
closings i (answered c r ∷ log) = one_if (closes i c) + closings i log

abbrev pub reported : ℕ → Log → ℕ
reported i [] = 0
reported i (answered c r ∷ log) = one_if (reports i c r) + reported i log

-- The registered transfers with this initiator id that the test leaves out.
abbrev pub uncovered : ℕ → (ℕ → ℕ → Bool) → Register → ℕ
uncovered i covered [] = 0
uncovered i covered ((k, u) ∷ register) =
    one_if (u.initiator_id == i && not (covered k u.initiator_id)) + uncovered i covered register

-- Where a task stands: before the report of its transfer, before the commit or abort, in front of
-- the drop, or where it will close nothing more.
pub data Stance : Type 0 where
  idle : Stance
  holding dropping : Transfer → Stance
  spent : Stance

abbrev pub weight : ℕ → Stance → ℕ
weight i (holding t) = one_if (t.initiator_id == i)
weight i _ = 0

-- Is the registered transfer, with its key and initiator id, the one that the task is about?
abbrev pub covers : Stance → ℕ → ℕ → Bool
covers (holding t) k j = (t.id == k) && (t.initiator_id == j)
covers (dropping t) k j = (t.id == k) && (t.initiator_id == j)
covers _ k j = false

-- What a task may ask where it stands, and where the answer leaves it.
abbrev pub May : Stance → Call → Type 0
May idle (process_event _) = Unit
May idle _ = ⊥
May (holding t) (process_event _) = ⊥
May (holding t) (commit_sending i) = i ≡ t.initiator_id
May (holding t) (abort_sending i _) = i ≡ t.initiator_id
May (holding t) _ = Unit
May (dropping t) _ = ⊥
May spent (process_event _) = ⊥
May spent (commit_sending _) = ⊥
May spent (abort_sending _ _) = ⊥
May spent _ = Unit

abbrev pub moved : Stance → (c : Call) → Result (Reply c) → Stance
moved idle (process_event _) (ok t) = holding t
moved (holding t) (commit_sending _) _ = dropping t
moved (holding t) (abort_sending _ _) _ = dropping t
moved σ _ _ = σ

abbrev pub MayLose : Stance → ℕ → Type 0
MayLose (dropping t) i = i ≡ t.id
MayLose spent i = Unit
MayLose _ i = ⊥

-- A task may end where it holds nothing that it has to drop.
abbrev pub MayEnd : Stance → Type 0
MayEnd (holding t) = Unit
MayEnd spent = Unit
MayEnd _ = ⊥

-- The coroutine keeps to what its stance allows: it closes only the transfer that was reported to
-- it, at most once, and then drops it before it ends.
abbrev pub Plays : Stance → Coro (Unit {0}) → Type 0
Plays σ (ret a) = MayEnd σ
Plays σ (raise e) = Unit
Plays σ (await c k) = May σ c × ((r : Reply c) → Plays (moved σ c (ok r)) (k r))
Plays σ (add t k) = (σ ≡ holding t) × Plays σ k
Plays σ (drop i k) = MayLose σ i × Plays spent k
Plays σ (registered k) = (s : Register) → Plays σ (k s)
Plays σ (time k) = (n : ℕ) → Plays σ (k n)

-- Each transfer stands under its own id.
abbrev pub AreKeyed : Register → Type 0
AreKeyed [] = Unit
AreKeyed ((k, t) ∷ register) = (k ≡ t.id) × AreKeyed register

abbrev pub IsOrderly : Register → Type 0
IsOrderly register = HasUniqueKeys register × AreKeyed register

-- The credits of the other tasks are n, and what they are about is C: no transfer has been closed
-- more often than it was reported, after all credits are spent.
pub record IsBalanced {W : Type 0} (i n : ℕ) (C : ℕ → ℕ → Bool) (σ : Stance) (s : System W)
    : Type 0 where
  pub orderly : IsOrderly s.register
  pub balance :
      closings i s.log + (n + weight i σ) + uncovered i (λ k j. C k j || covers σ k j) s.register
      ≤ reported i s.log
