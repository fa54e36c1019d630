-- ===== src/Register/Laws.antt =====
-- What the searches of the register return comes from the register.
use decentralised_interledge.Prelude.{
  ℕ, some, List, [], ◌∷◌, ok, ◌≡◌, inl, inr, All, Bool-cases, ◌==◌, >>=_inv, arith,
}
use mathlib.Core.Path.{subst}
use decentralised_interledge.Interfaces.{Transfer, NodeConfig}
use decentralised_interledge.Register.{first_with_initiator_id, is_due, due_among}

module _ {ℓ} (P : Transfer → Type ℓ) where
  pub first_with_initiator_id-All :
      (id : ℕ) (ts : List Transfer) (t : Transfer)
      → All P ts
      → first_with_initiator_id id ts ≡ some t
      → P t
  unfolding first_with_initiator_id
  first_with_initiator_id-All id [] t h e = cc
  first_with_initiator_id-All id (x ∷ ts) t h e = elim (Bool-cases (x.initiator_id == id)) [
    | inl hit ↦ let same : x ≡ t = ground arith in subst P same h.0
    | inr miss ↦ first_with_initiator_id-All id ts t h.1 (rw miss at e)
  ]

  pub due_among-All :
      (depth : ℕ) (config : NodeConfig) (clock : Transfer → ℕ × ℕ) (ts : List Transfer)
      (due : List Transfer)
      → All P ts
      → due_among depth config clock ts ≡ ok due
      → All P due
  unfolding due_among
  due_among-All depth config clock [] due h e =
      let none_due : [] ≡ due = cc in subst (All P) none_due tt
  due_among-All depth config clock (t ∷ ts) due h e =
      let (mine, e', _) = >>=_inv (is_due depth config clock t) _ e in
      let (rest, e'', er) = >>=_inv (due_among depth config clock ts) _ e' in
      let held = due_among-All depth config clock ts rest h.1 er in
      elim (Bool-cases mine) [
        | inl m ↦ let same : t ∷ rest ≡ due = ground arith in subst (All P) same (h.0, held)
        | inr m ↦ let same : rest ≡ due = ground arith in subst (All P) same held
      ]
