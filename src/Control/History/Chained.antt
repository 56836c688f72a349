-- ===== src/Control/History/Chained.antt =====
-- The audit log over a history.
use a2ad.Common.{
  ℕ, ◌+◌, String, ◌≡◌, refl, sym, ap, ◌∙◌, List, [], ◌∷◌, ◌++◌, length, length-append, arith,
}
use a2ad.Control.Records.{Row, Store, audit}
use a2ad.Control.Audit.{Platform, verify, last_hash}
use a2ad.Control.Audit.Chain.{verify_iff}
use a2ad.Control.Audit.Log.{Logged, Logged-same, Logged-append, Logged-trans}
use a2ad.Control.Finish.Frame.{finish-Logged, restart-Logged}
use a2ad.Control.Handle.{Decision, reply, forward, dispatch, admit, event}
use a2ad.Control.Handle.Admits.{AdmitOk, admit-AdmitOk}
use a2ad.Control.History.{Action, requested, settled, logged, restarted, step, run}

module _ (p : Platform) where
  AdmitOk-Logged : (env : _) (s : Store) (d : Decision × Store) → AdmitOk p env s d → Logged p s d.1
  AdmitOk-Logged env s (reply r, s') h = h.1
  AdmitOk-Logged env s (forward req, s') h = h.1
  AdmitOk-Logged env s (dispatch id req, s') (op, m, st, e, named) = st.log

  pub step-Logged : (a : Action) (s : Store) → Logged p s (step p a s)
  unfolding step event
  step-Logged (requested env input) s =
      AdmitOk-Logged env s (admit p env input s) (admit-AdmitOk p env s input)
  step-Logged (settled env id r) s = finish-Logged p env id r s
  step-Logged (logged env text) s = Logged-append p env _ s s refl
  step-Logged (restarted env) s = restart-Logged p env s

  pub run-Logged : (acts : List Action) (s : Store) → Logged p s (run p acts s)
  unfolding run
  run-Logged [] s = Logged-same p s s refl
  run-Logged (a ∷ acts) s = Logged-trans p s _ _ (step-Logged a s) (run-Logged acts (step p a s))

  -- Whatever the requests, outcomes, events and restarts, a log that `audit.verify` accepts is accepted
  -- afterwards: its rows are still there, in their places, and the rows that have been added are
  -- counted and hashed.
  pub run_verified :
      (acts : List Action) (s : Store) (n : ℕ) (head : String)
      → verify p s ≡ audit n head
      → (added : List Row) × ((run p acts s).events ≡ s.events ++ added)
        × (verify p (run p acts s) ≡ audit (n + length added) (last_hash p head added))
  unfolding last_hash
  run_verified acts s n head h =
      let (chain, count, last) = (verify_iff p s n head).0 h in
      let l = run-Logged acts s in
      let (added, e) = l.grows in
      (
        added,
        e,
        (verify_iff p (run p acts s) (n + length added) (last_hash p head added)).1 (
          l.chain chain,
          omega (arith, count, ap length e, length-append s.events added),
          ap (λ x. last_hash p x added) last
              ∙ sym (last_hash-split "" s.events added)
              ∙ ap (last_hash p "") (sym e),
        ),
      )
    where
      last_hash-split :
          (previous : String) (xs ys : List Row)
          → last_hash p previous (xs ++ ys) ≡ last_hash p (last_hash p previous xs) ys
      last_hash-split previous [] ys = refl
      last_hash-split previous (x ∷ xs) ys = last_hash-split x.hash xs ys
