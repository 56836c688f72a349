-- ===== src/Control/Handle/Admits.antt =====
-- What `handle` has done when it reaches the dispatcher, or has replied without it.
use mathlib.Core.Path.{subst}
use mathlib.Core.Option.{none-ne-some, some-injective}
use a2ad.Common.{String, ◌≡◌, refl, sym, arith, Bool, true, false, Option, none, some, ◌||◌}
use a2ad.Control.Records.{Field, missing, ill_typed, given, Op, Request, Store, Reply, failure}
use a2ad.Control.Exit.{
  Exit, next, return, throw, Ensures, on_next, value, bounded_text, required, contains,
}
use a2ad.Control.Names.{op_of, mutation}
use a2ad.Control.Audit.{Platform, Env}
use a2ad.Control.Audit.Log.{Logged, Logged-same}
use a2ad.Control.Begin.{Begun, refused, started, begin}
use a2ad.Control.Begin.Outcome.{Starts, BegunOk, begin-BegunOk}
use a2ad.Control.Listing.{read_only}
use a2ad.Control.Handle.{
  Input, object, not_object, Decision, reply, forward, dispatch, transaction, dispatch_given,
  begin_transaction, control, with_id, bad_digest, admit_mutation, admit_rest, admit_op, admit,
}
use a2ad.Control.Handle.Frame.{Kept, control-Kept}

bounded_text-next : (v w : String) → bounded_text v ≡ next w → v ≡ w
unfolding bounded_text
bounded_text-next v w h = ground arith

required-given : (v w : String) → required (given v) ≡ next w → v ≡ w
unfolding required
required-given v w h = bounded_text-next v w h

required-missing : (w : String) → required missing ≡ next w → ⊥
unfolding required
required-missing w h = cc

required-ill_typed : (w : String) → required ill_typed ≡ next w → ⊥
unfolding required
required-ill_typed w h = cc

-- The operation is the one that the request names.
abbrev pub Names : Request → Op → Type 0
Names req op = (name : String) × (value req.op "" ≡ next name) × (op_of name ≡ op)

module _ (p : Platform) (env : Env) (s : Store) where
  with_id-Names :
      (op : Op) (req found : Request) (f : Field String)
      → Names req op
      → with_id p env req f ≡ some found
      → Names found op
  unfolding with_id
  with_id-Names op req found missing named h = go (p.enforce || contains req.effects) h
    where
      go :
          (b : Bool)
          → (elim b [ true ↦ none | false ↦ some (record req { request_id = given env.fresh }) ])
            ≡ some found
          → Names found op
      go true h = absurd (none-ne-some found h)
      go false h = subst (λ r. Names r op) (some-injective _ _ h) named
  with_id-Names op req found (given id) named h =
      subst (λ r. Names r op) (some-injective _ _ h) named
  with_id-Names op req found ill_typed named h =
      subst (λ r. Names r op) (some-injective _ _ h) named

  -- A reply without dispatch leaves the executions alone; so does a request that is not governed. A
  -- dispatch follows a start of `begin` under its id.
  abbrev pub AdmitOk : Decision × Store → Type 0
  AdmitOk (reply r, s') = (s'.executions ≡ s.executions) × Logged p s s'
  AdmitOk (forward req, s') = (s'.executions ≡ s.executions) × Logged p s s'
  AdmitOk (dispatch id req, s') =
      (op : Op) × (mutation op ≡ true)
      × (st : Starts p env op req s s') × (st.plan.id ≡ id)
      × Names req op

  dispatch_given-ok :
      (op : Op) (req : Request) (s' : Store) (f : Field String)
      → mutation op ≡ true
      → Names req op
      → (st : Starts p env op req s s') → required f ≡ next st.plan.id
      → AdmitOk (dispatch_given f req, s')
  unfolding dispatch_given
  dispatch_given-ok op req s' (given id) m named st e =
      (op, m, st, sym (required-given id st.plan.id e), named)
  dispatch_given-ok op req s' missing m named st e = absurd (required-missing st.plan.id e)
  dispatch_given-ok op req s' ill_typed m named st e = absurd (required-ill_typed st.plan.id e)

  begin_transaction-ok :
      (op : Op) (req : Request) (b : Exit Begun)
      → mutation op ≡ true
      → Names req op
      → Ensures (BegunOk p env op req s) b
      → AdmitOk (begin_transaction req s b)
  unfolding begin_transaction
  begin_transaction-ok op req (next (refused r s')) m named (on_next h) = h
  begin_transaction-ok op req (next (started s')) m named (on_next st) =
      dispatch_given-ok op req s' req.request_id m named st st.admitted.id_given
  begin_transaction-ok op req (return r) m named h = (refl, Logged-same p s s refl)
  begin_transaction-ok op req (throw e) m named h = (refl, Logged-same p s s refl)

  admit_mutation-ok :
      (op : Op) (found : Option Request)
      → mutation op ≡ true
      → ((req : Request) → found ≡ some req → Names req op)
      → AdmitOk (admit_mutation p env op s found)
  unfolding admit_mutation
  admit_mutation-ok op none m named = (refl, Logged-same p s s refl)
  admit_mutation-ok op (some req) m named = go (bad_digest p op req.sha256)
    where
      go :
          (b : Bool)
          → AdmitOk (elim b [
            | true ↦ (reply (failure "invalid_request" "sha256 must be a string"), s)
            | false ↦ begin_transaction req s (begin p env op req s)
          ])
      go true = (refl, Logged-same p s s refl)
      go false =
          begin_transaction-ok op req (begin p env op req s) m (named req refl)
            (begin-BegunOk p env op req s)

  transaction-ok : (e : Exit (Reply × Store)) → Ensures (Kept p s) e → AdmitOk (transaction s e)
  unfolding transaction
  transaction-ok (next (r, s')) (on_next k) = (k.executions, k.log)
  transaction-ok (return r) h = (refl, Logged-same p s s refl)
  transaction-ok (throw e) h = (refl, Logged-same p s s refl)

  admit_rest-ok :
      (op : Op) (req : Request) (found : Option (Exit (Reply × Store)))
      → Names req op
      → control p env op req s ≡ found
      → AdmitOk (admit_rest p env op req s found)
  unfolding admit_rest
  admit_rest-ok op req (some e) named h = transaction-ok e (control-Kept p env op req s e h)
  admit_rest-ok op req none named h = go (mutation op) refl
    where
      go :
          (b : Bool)
          → mutation op ≡ b
          → AdmitOk (elim b [
            | true ↦ admit_mutation p env op s (with_id p env req req.request_id)
            | false ↦ (forward req, s)
          ])
      go true m =
          admit_mutation-ok op (with_id p env req req.request_id) m
            (λ found. with_id-Names op req found req.request_id named)
      go false m = (refl, Logged-same p s s refl)

  admit_op-ok :
      (op : Op) (req : Request) (found : Option (Exit Reply))
      → Names req op
      → AdmitOk (admit_op p env op req s found)
  unfolding admit_op
  admit_op-ok op req (some e) named = (refl, Logged-same p s s refl)
  admit_op-ok op req none named = admit_rest-ok op req (control p env op req s) named refl

  pub admit-AdmitOk : (input : Input) → AdmitOk (admit p env input s)
  unfolding admit
  admit-AdmitOk not_object = (refl, Logged-same p s s refl)
  admit-AdmitOk (object req) = go (value req.op "") refl
    where
      go :
          (v : Exit String)
          → value req.op "" ≡ v
          → AdmitOk (elim v [
            | next name ↦ admit_op p env (op_of name) req s (read_only p (op_of name) req s)
            | return r ↦ (reply r, s)
            | throw e ↦ (reply (failure "control_error" e), s)
          ])
      go (next name) e =
          admit_op-ok (op_of name) req (read_only p (op_of name) req s) (name, e, refl)
      go (return r) e = (refl, Logged-same p s s refl)
      go (throw message) e = (refl, Logged-same p s s refl)
