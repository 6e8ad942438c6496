-- ===== src/Arm/Cursor.antt =====
-- The search for the next action of the chain, `resolveActionCursor` of `backend/src/api/arm.ts`.
use bondsman.Common.{
  ℕ, zero, suc, ◌+◌, ◌≤◌, ◌<◌, false, Option, none, some, List, [], ◌∷◌, ◌++◌, ◌≡◌, refl, ◌∙◌,
  arith,
}
use mathlib.Core.List.{append-nil, append_assoc}
use bondsman.Arm.{Failure, Outcome, ok, err, RawAction, Outside, World, handled, outward, pure}
use bondsman.Arm.Failures.{is_transient_rpc_error}
use bondsman.Arm.Loops.{
  ChainActionView, view_of, next_free, probe_from, resolve_action_cursor,
  max_unprojected_action_probes,
}

-- What a read gives on a chain that holds this and answers nothing else but that an action is missing.
abbrev pub answer_of : Failure → Option RawAction → Outcome RawAction
answer_of missing none = err missing
answer_of missing (some raw) = ok raw

-- The views of so many actions, from one on.
abbrev pub views : (ℕ → RawAction) → ℕ → ℕ → List ChainActionView
views raw zero action_id = []
views raw (suc k) action_id = view_of action_id (raw action_id) ∷ views raw k (suc action_id)

module _ {S : Type 0} (outside : Outside S) (raw : ℕ → RawAction) (missing : Failure) where
  probe_from_found :
      (probes : ℕ) (actions : List ChainActionView) (action_id : ℕ) (w : World S)
      → outside.read_action action_id w.outer ≡ (ok (raw action_id), w.outer)
      → probe_from outside (suc probes) actions action_id w
        ≡ probe_from outside probes
            (actions ++ (view_of action_id (raw action_id) ∷ []))
            (suc action_id)
            w
  unfolding probe_from handled outward
  probe_from_found probes actions action_id w e = rw (probe_from, handled, outward, e) refl

  probe_from_ends :
      (probes : ℕ) (actions : List ChainActionView) (action_id : ℕ) (w : World S)
      → outside.read_action action_id w.outer ≡ (err missing, w.outer)
      → is_transient_rpc_error missing ≡ false
      → probe_from outside (suc probes) actions action_id w ≡ (ok (actions, action_id), w)
  unfolding probe_from handled outward pure
  probe_from_ends probes actions action_id w e lasting =
      rw (probe_from, handled, outward, e, lasting, pure) refl

  probe_from_finds :
      (probes k : ℕ) (actions : List ChainActionView) (action_id : ℕ) (w : World S)
      → k < probes
      → ((i : ℕ)
          → action_id ≤ i
          → i < action_id + k
          → outside.read_action i w.outer ≡ (ok (raw i), w.outer))
      → outside.read_action (action_id + k) w.outer ≡ (err missing, w.outer)
      → is_transient_rpc_error missing ≡ false
      → probe_from outside probes actions action_id w
        ≡ (ok (actions ++ views raw k action_id, action_id + k), w)
  unfolding probe_from
  probe_from_finds zero k actions action_id w lt found last lasting = absurd (omega arith)
  probe_from_finds (suc probes) zero actions action_id w lt found last lasting =
      let here : action_id + 0 ≡ action_id = omega arith in
      let stop = probe_from_ends probes actions action_id w (rw here at last) lasting in
      rw (here, append-nil actions) stop
  probe_from_finds (suc probes) (suc k) actions action_id w lt found last lasting =
      let on : action_id + suc k ≡ suc action_id + k = omega arith in
      let v = view_of action_id (raw action_id) in
      let more =
        probe_from_finds probes k (actions ++ (v ∷ [])) (suc action_id) w (omega arith)
          (λ i lo hi. found i (omega arith) (omega arith)) (rw on at last) lasting in
      probe_from_found probes actions action_id w (found action_id (omega arith) (omega arith))
      ∙ (more ∙ rw (on, append_assoc actions (v ∷ []) (views raw k (suc action_id))) refl)

  -- The search ends with a result where the chain holds fewer than 200 actions after the projected
  -- ones, reads leave it as it is, and the read of the action after them fails for a reason that
  -- lasts: the projected actions followed by those of the chain in their order, and the identifier
  -- of the first action that is missing.
  pub resolve_action_cursor_finds :
      (k : ℕ) (projected : List ChainActionView) (w : World S)
      → k < 200
      → ((i : ℕ)
          → next_free projected ≤ i
          → i < next_free projected + k
          → outside.read_action i w.outer ≡ (ok (raw i), w.outer))
      → outside.read_action (next_free projected + k) w.outer ≡ (err missing, w.outer)
      → is_transient_rpc_error missing ≡ false
      → resolve_action_cursor outside projected w
        ≡ (ok (projected ++ views raw k (next_free projected), next_free projected + k), w)
  unfolding resolve_action_cursor
  resolve_action_cursor_finds k projected w lt found last lasting =
      probe_from_finds max_unprojected_action_probes k projected (next_free projected) w lt found
        last lasting
