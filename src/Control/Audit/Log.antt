-- ===== src/Control/Audit/Log.antt =====
-- The log is append-only: what it means that a store follows another, for their tables of events.
use a2ad.Common.{◌≡◌, sym, ap, ◌∙◌, List, [], ◌∷◌, ◌++◌}
use mathlib.Core.Path.{subst}
use mathlib.Core.List.{append-nil, append_assoc}
use a2ad.Control.Records.{Event, Row, Store}
use a2ad.Control.Audit.{Platform, Env, append, append_row, new_row}
use a2ad.Control.Audit.Chain.{IsChain, append-IsChain}

-- The rows of the first log are still the first rows of the second.
abbrev pub Extends : List Row → List Row → Type 0
Extends old new = (added : List Row) × (new ≡ old ++ added)

module _ (p : Platform) where
  -- From one store to another the log has only grown, and stays a chain of hashes.
  pub record Logged (s s' : Store) : Type 0 where
    pub grows : Extends s.events s'.events
    pub chain : IsChain p "" s.events → IsChain p "" s'.events

  pub Logged-same : (s s' : Store) → s'.events ≡ s.events → Logged s s'
  Logged-same s s' e = record {
    grows = ([], e ∙ sym (append-nil s.events));
    chain = λ c. subst (IsChain p "") (sym e) c;
  }

  pub Logged-append :
      (env : Env) (event : Event) (s t : Store)
      → t.events ≡ s.events
      → Logged s (append p env event t)
  unfolding append append_row
  Logged-append env event s t e = record {
    grows = (new_row p env event t.events ∷ [], ap (λ x. x ++ new_row p env event t.events ∷ []) e);
    chain = λ c. append-IsChain p env event t (subst (IsChain p "") (sym e) c);
  }

  pub Logged-trans : (s t u : Store) → Logged s t → Logged t u → Logged s u
  Logged-trans s t u h k =
      let (a, e) = h.grows in
      let (b, f) = k.grows in
      record {
        grows = (a ++ b, f ∙ ap (λ x. x ++ b) e ∙ append_assoc s.events a b);
        chain = λ c. k.chain (h.chain c);
      }
