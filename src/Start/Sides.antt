-- ===== src/Start/Sides.antt =====
-- Which sections the adapters of a bridge are configured by, and which bridges start.
use mathlib.Core.Path.{subst}
use Prim.Native.String.{String}
use text.Mathlib.Text.{◌==◌ as str_eq}
use decentralised_interledge.Prelude.{
  true, Option, none, some, refl, Result, ok, err, >>=_inv, system_exit, Bool-cases, ◌≡◌, ◌≢◌, ◌⊎◌,
  inl, inr, arith,
}
use decentralised_interledge.Start.{
  InitiatorPlan, ResponderPlan, ethereum_initiator, fabric_initiator, ethereum_responder,
  ksi_responder, fabric_responder, Setup, Bridge, initiator_plan, responder_plan,
  left_to_right_bridge, right_to_left_bridge, main,
}

-- The section that configures an adapter.
abbrev pub initiator_section : InitiatorPlan → String
initiator_section (ethereum_initiator s) = s
initiator_section (fabric_initiator s) = s

initiator_plan_own :
    (ledger section : String) (plan : InitiatorPlan)
    → initiator_plan ledger section section ≡ ok plan
    → initiator_section plan ≡ section
initiator_plan_own ledger section plan e = ground arith

responder_plan_cases :
    (ledger section fabric_section : String) (plan : ResponderPlan)
    → responder_plan ledger section fabric_section ≡ ok plan
    → (plan ≡ ethereum_responder section)
      ⊎ ((plan ≡ ksi_responder section) ⊎ (plan ≡ fabric_responder fabric_section))
responder_plan_cases ledger section fabric_section plan e = ground arith

stops : {V : Type 0} (v : V) → ¬ (err system_exit ≡ ok v)
stops v e = cc

-- The bridge, if there is one, has these options.
abbrev pub HasConfig : {I R C : Type 0} → C → Option (Bridge I R C) → Type 0
HasConfig config none = Unit
HasConfig config (some bridge) = bridge.config ≡ config

have_config :
    {I R C : Type 0} (config : C) (made started : Option (Bridge I R C) × Option (Bridge I R C))
    → ok made ≡ ok started
    → HasConfig config made.0
    → HasConfig config made.1
    → HasConfig config started.0 × HasConfig config started.1
have_config config made started e h k =
    let same : made ≡ started = cc in
    subst (λ p. HasConfig config p.0 × HasConfig config p.1) same (h, k)

module _ {I R : Type 0} (setup : Setup I R) where
  -- A bridge from left to right has an initiator that is configured by the left section, and an
  -- Ethereum or KSI responder that is configured by the right section, or a Fabric responder that is
  -- configured by the left section.
  pub left_to_right_bridge_sections :
      (left right : String) (i : I) (r : R)
      → left_to_right_bridge setup left right ≡ ok (i, r)
      → (plan : InitiatorPlan) × (other : ResponderPlan) × (setup.make_initiator plan ≡ ok i)
        × (setup.make_responder other ≡ ok r)
        × (initiator_section plan ≡ left)
        × ((other ≡ ethereum_responder right)
            ⊎ ((other ≡ ksi_responder right) ⊎ (other ≡ fabric_responder left)))
  unfolding left_to_right_bridge
  left_to_right_bridge_sections left right i r e =
      let (ledger_left, e1, _) = >>=_inv (setup.type_of left) _ e in
      let (ledger_right, e2, _) = >>=_inv (setup.type_of right) _ e1 in
      let (plan, e3, planned) = >>=_inv (initiator_plan ledger_left left left) _ e2 in
      let (i', e4, made) = >>=_inv (setup.make_initiator plan) _ e3 in
      let (other, e5, other_planned) = >>=_inv (responder_plan ledger_right right left) _ e4 in
      let (r', e6, other_made) = >>=_inv (setup.make_responder other) _ e5 in
      (
        plan,
        other,
        ground (arith, made),
        ground (arith, other_made),
        initiator_plan_own ledger_left left plan planned,
        responder_plan_cases ledger_right right left other other_planned,
      )

  -- If `main` returns, at least one bridge is started; one from left to right exactly for the
  -- directions left-to-right and both, and one back exactly for right-to-left and both.
  pub main_starts :
      {C : Type 0} (direction left right : String) (node_cfg : Result C)
      (there back : Option (Bridge I R C))
      → main setup direction left right node_cfg ≡ ok (there, back)
      → ((str_eq direction "left-to-right" ≡ true) × (there ≢ none) × (back ≡ none))
        ⊎ (((str_eq direction "right-to-left" ≡ true) × (there ≡ none) × (back ≢ none))
            ⊎ ((str_eq direction "both" ≡ true) × (there ≢ none) × (back ≢ none)))
  unfolding main
  main_starts direction left right node_cfg there back e =
      elim (Bool-cases (str_eq direction "left-to-right")) [
        | inl hit ↦
            let (pair, e1, _) = >>=_inv (left_to_right_bridge setup left right) _ (rw hit at e) in
            let (config, e2, _) = >>=_inv node_cfg _ e1 in inl (hit, ground arith, ground arith)
        | inr miss ↦ elim (Bool-cases (str_eq direction "right-to-left")) [
          | inl hit ↦
              let (pair, e1, _) =
                >>=_inv (right_to_left_bridge setup left right) _ (rw (miss, hit) at e) in
              let (config, e2, _) = >>=_inv node_cfg _ e1 in
              inr (inl (hit, ground arith, ground arith))
          | inr other ↦ elim (Bool-cases (str_eq direction "both")) [
            | inl hit ↦
                let (pair, e1, _) =
                  >>=_inv (left_to_right_bridge setup left right) _ (rw (miss, other, hit) at e) in
                let (pair', e2, _) = >>=_inv (right_to_left_bridge setup left right) _ e1 in
                let (config, e3, _) = >>=_inv node_cfg _ e2 in
                inr (inr (hit, ground arith, ground arith))
            | inr none_of_them ↦ absurd (stops (there, back) (rw (miss, other, none_of_them) at e))
          ]
        ]
      ]

  -- The bridges that are started have the options that were parsed.
  pub main-HasConfig :
      {C : Type 0} (direction left right : String) (node_cfg : Result C)
      (there back : Option (Bridge I R C))
      → main setup direction left right node_cfg ≡ ok (there, back)
      → (config : C) × (node_cfg ≡ ok config) × HasConfig config there × HasConfig config back
  unfolding main
  main-HasConfig direction left right node_cfg there back e =
      elim (Bool-cases (str_eq direction "left-to-right")) [
        | inl hit ↦
            let (pair, e1, _) = >>=_inv (left_to_right_bridge setup left right) _ (rw hit at e) in
            let (config, e2, found) = >>=_inv node_cfg _ e1 in
            let (h, k) = have_config config _ (there, back) e2 refl tt in (config, found, h, k)
        | inr miss ↦ elim (Bool-cases (str_eq direction "right-to-left")) [
          | inl hit ↦
              let (pair, e1, _) =
                >>=_inv (right_to_left_bridge setup left right) _ (rw (miss, hit) at e) in
              let (config, e2, found) = >>=_inv node_cfg _ e1 in
              let (h, k) = have_config config _ (there, back) e2 tt refl in (config, found, h, k)
          | inr other ↦ elim (Bool-cases (str_eq direction "both")) [
            | inl hit ↦
                let (pair, e1, _) =
                  >>=_inv (left_to_right_bridge setup left right) _ (rw (miss, other, hit) at e) in
                let (pair', e2, _) = >>=_inv (right_to_left_bridge setup left right) _ e1 in
                let (config, e3, found) = >>=_inv node_cfg _ e2 in
                let (h, k) = have_config config _ (there, back) e3 refl refl in
                (config, found, h, k)
            | inr none_of_them ↦ absurd (stops (there, back) (rw (miss, other, none_of_them) at e))
          ]
        ]
      ]
