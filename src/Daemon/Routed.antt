-- ===== src/Daemon/Routed.antt =====
-- daemon/src/main.cpp: the request that the control plane hashes names the agent that its operation
-- reaches.
use a2ad.Common.{
  String, Bool, true, false, ◌≡◌, refl, sym, arith, Text, Option, none, some, ◌==◌, if◌then◌else◌,
  lookup, str_eq_iff, Bool-cases, inl, inr, ◌⊎◌, string_eq, nat_eq, text_eq,
}
use mathlib.Core.Path.{subst}
use a2ad.Common.Int.{ℤ}
use a2ad.Json.{
  Json, null, boolean, number, array, string, object, Fields, no_fields, field, done, ◌>>=◌,
  done-inj, >>=-eq-done, value_text, member, put, utf8, value_integer, contains,
}
use a2ad.A2aClient.Call.{set_member}
use a2ad.Tasks.{Task, Manager}
use a2ad.Daemon.Route.{
  route, route_submit, route_task, routed_to, with_default, with_task_agent, route_op, route_known,
  agent_of, is_on_task,
}
use a2ad.Daemon.Submit.{submit}
use a2ad.Daemon.Dispatch.{same}
pub mod Run

-- What a write of a member does to the reads that follow.
member-put :
    (written asked : String) (v : Json) (fs : Fields)
    → member asked (put written v fs) ≡ (if written == asked then some v else member asked fs)
unfolding member put
member-put written asked v no_fields = refl
member-put written asked v (field key old fs) = ground (
  arith,
  member-put written asked v fs,
  str_eq_iff key written,
  str_eq_iff key asked,
  str_eq_iff written asked,
)

abbrev pub with_agent : String → Fields → Json
with_agent a fs = object (put "agent" (string a) fs)

pub agent-with_agent : (a : String) (fs : Fields) → value_text "agent" "" (with_agent a fs) ≡ done a
unfolding value_text
agent-with_agent a fs = rw (member-put "agent" "agent" (string a) fs) refl

-- The other members are read as before.
pub other-with_agent :
    (a key d : String) (fs : Fields)
    → ("agent" == key) ≡ false
    → value_text key d (with_agent a fs) ≡ value_text key d (object fs)
unfolding value_text
other-with_agent a key d fs h = rw (member-put "agent" key (string a) fs, h) refl

pub integer-with_agent :
    (a key : String) (d : ℤ) (fs : Fields)
    → ("agent" == key) ≡ false
    → value_integer key d (with_agent a fs) ≡ value_integer key d (object fs)
unfolding value_integer
integer-with_agent a key d fs h = rw (member-put "agent" key (string a) fs, h) refl

pub on_task-cases :
    (op : String)
    → is_on_task op ≡ true
    → (op ≡ "respond") ⊎ (op ≡ "cancel") ⊎ (op ≡ "artifact.materialize")
on_task-cases op h = ground (
  arith,
  h,
  str_eq_iff op "respond",
  str_eq_iff op "cancel",
  str_eq_iff op "artifact.materialize",
)

pub value_text-object :
    (key d s : String) (j : Json) → value_text key d j ≡ done s → (fs : Fields) × (j ≡ object fs)
unfolding value_text
value_text-object key d s (object fs) h = (fs, refl)
value_text-object key d s null h = cc
value_text-object key d s (boolean b) h = cc
value_text-object key d s (number i t) h = cc
value_text-object key d s (string t) h = cc
value_text-object key d s (array js) h = cc

routed_to-cases :
    (o : Option String) (fs : Fields) (r : Json)
    → routed_to o (object fs) ≡ done r
    → (r ≡ object fs) ⊎ ((a : String) × (o ≡ some a) × (r ≡ with_agent a fs))
unfolding set_member
routed_to-cases none fs r h = inl (sym (done-inj h))
routed_to-cases (some a) fs r h = inr (a, refl, sym (done-inj h))

-- A submission without an agent whose directory has a default one.
abbrev pub Defaulted : (Text → Option String) → Fields → String → Type 0
Defaulted default_agent fs a =
    (cwd : String) × (value_text "agent" "" (object fs) ≡ done "")
    × (value_text "cwd" "" (object fs) ≡ done cwd)
    × (default_agent (utf8 cwd) ≡ some a)

with_default-cases :
    (default_agent : Text → Option String) (fs : Fields) (r : Json)
    → value_text "agent" "" (object fs) ≡ done ""
    → with_default default_agent (object fs) ≡ done r
    → (r ≡ object fs) ⊎ ((a : String) × Defaulted default_agent fs a × (r ≡ with_agent a fs))
with_default-cases default_agent fs r agent h =
    let (cwd, read, h') =
      >>=-eq-done (value_text "cwd" "" (object fs))
        (λ cwd. routed_to (default_agent (utf8 cwd)) (object fs)) h in
    elim (routed_to-cases (default_agent (utf8 cwd)) fs r h') [
      | inl e ↦ inl e
      | inr (a, found, e) ↦ inr (a, (cwd, agent, read, found), e)
    ]

route_submit-cases :
    (default_agent : Text → Option String) (fs : Fields) (r : Json)
    → route_submit default_agent (object fs) ≡ done r
    → (r ≡ object fs) ⊎ ((a : String) × Defaulted default_agent fs a × (r ≡ with_agent a fs))
unfolding route_submit
route_submit-cases default_agent fs r h =
    let (agent, read, h') =
      >>=-eq-done (value_text "agent" "" (object fs))
        (λ agent. if agent == "" then with_default default_agent (object fs) else done (object fs))
        h in
    elim (Bool-cases (agent == "")) [
      | inl e ↦
          with_default-cases default_agent fs r
            (subst (λ s. value_text "agent" "" (object fs) ≡ done s) ((str_eq_iff agent "").0 e)
              read)
            (subst
              (λ b.
                (if b then with_default default_agent (object fs) else done (object fs)) ≡ done r)
              e h')
      | inr e ↦ inl (
          sym (
            done-inj (
              subst
                (λ b.
                  (if b then with_default default_agent (object fs) else done (object fs)) ≡ done r)
                e h')))
    ]

route_task-cases :
    (m : Manager) (fs : Fields) (r : Json)
    → route_task m (object fs) ≡ done r
    → (r ≡ object fs) ⊎ ((a : String) × (r ≡ with_agent a fs))
unfolding route_task
route_task-cases m fs r h = go (contains "task_id" (object fs)) h
  where
    go :
        (b : Bool)
        → (if b then with_task_agent m (object fs) else done (object fs)) ≡ done r
        → (r ≡ object fs) ⊎ ((a : String) × (r ≡ with_agent a fs))
    go false h = inl (sym (done-inj h))
    go true h =
        let (id, read, h') =
          >>=-eq-done (value_text "task_id" "" (object fs))
            (λ id. routed_to (agent_of (lookup id m.tasks)) (object fs)) h in
        elim (routed_to-cases (agent_of (lookup id m.tasks)) fs r h') [
          | inl e ↦ inl e
          | inr (a, found, e) ↦ inr (a, e)
        ]

-- What the routing of an operation does to its request.
abbrev pub Routing : (Text → Option String) → String → Fields → Json → Type 0
Routing default_agent op fs r =
    (r ≡ object fs)
    ⊎ ((a : String) × (r ≡ with_agent a fs)
        × (((op ≡ "submit") × Defaulted default_agent fs a) ⊎ (is_on_task op ≡ true)))

submit-Routing :
    (default_agent : Text → Option String) (m : Manager) (fs : Fields) (r : Json)
    → route_op default_agent m (object fs) "submit" ≡ done r
    → Routing default_agent "submit" fs r
submit-Routing default_agent m fs r h =
    let (routed, sent, h') = >>=-eq-done (route_submit default_agent (object fs)) done h in
    elim (route_submit-cases default_agent fs r
      (subst (λ j. route_submit default_agent (object fs) ≡ done j) (done-inj h') sent)) [
        | inl e ↦ inl e
        | inr (a, chosen, e) ↦ inr (a, e, inl (refl, chosen))
      ]

route_known-Routing :
    (default_agent : Text → Option String) (m : Manager) (op : String) (fs : Fields) (r : Json)
    → route_known m op (object fs) ≡ done r
    → Routing default_agent op fs r
route_known-Routing default_agent m op fs r h = go (is_on_task op) refl h
  where
    go :
        (b : Bool)
        → is_on_task op ≡ b
        → (if b then route_task m (object fs) else done (object fs)) ≡ done r
        → Routing default_agent op fs r
    go false e h = inl (sym (done-inj h))
    go true e h = elim (route_task-cases m fs r h) [
      | inl same ↦ inl same
      | inr (a, routed) ↦ inr (a, routed, inr e)
    ]

pub route_op-Routing :
    (default_agent : Text → Option String) (m : Manager) (op : String) (fs : Fields) (r : Json)
    → route_op default_agent m (object fs) op ≡ done r
    → Routing default_agent op fs r
route_op-Routing default_agent m op fs r h = elim (Bool-cases (op == "submit")) [
  | inl e ↦
      let named = (str_eq_iff op "submit").0 e in
      subst (λ x. Routing default_agent x fs r) (sym named)
        (submit-Routing default_agent m fs r
          (subst (λ x. route_op default_agent m (object fs) x ≡ done r) named h))
  | inr e ↦ route_known-Routing default_agent m op fs r (
      subst
        (λ b.
          ((if b then route_submit default_agent (object fs) else done (object fs))
            >>= route_known m op)
          ≡ done r)
        e h)
]

route_task-found :
    (m : Manager) (fs : Fields) (id : String) (t : Task)
    → contains "task_id" (object fs) ≡ true
    → value_text "task_id" "" (object fs) ≡ done id
    → lookup id m.tasks ≡ some t
    → route_task m (object fs) ≡ done (with_agent t.agent fs)
unfolding route_task set_member
route_task-found m fs id t there read found =
    subst
      (λ b.
        (if b then with_task_agent m (object fs) else done (object fs))
        ≡ done (with_agent t.agent fs))
      (sym there) (rw (read, found) refl)

route_op-on_task :
    (default_agent : Text → Option String) (m : Manager) (op : String) (req : Json)
    → is_on_task op ≡ true
    → route_op default_agent m req op ≡ route_task m req
route_op-on_task default_agent m op req h = elim (on_task-cases op h) [
  | inl e ↦ subst Same (sym e) refl
  | inr (inl e) ↦ subst Same (sym e) refl
  | inr (inr e) ↦ subst Same (sym e) refl
]
  where
    Same : String → Type 0
    Same x = route_op default_agent m req x ≡ route_task m req

route_task-agent :
    (m : Manager) (fs : Fields) (r : Json) (id : String) (t : Task)
    → contains "task_id" (object fs) ≡ true
    → value_text "task_id" "" (object fs) ≡ done id
    → lookup id m.tasks ≡ some t
    → route_task m (object fs) ≡ done r
    → value_text "agent" "" r ≡ done t.agent
route_task-agent m fs r id t there read found h =
    subst (λ j. value_text "agent" "" j ≡ done t.agent)
      (done-inj (subst (λ j. j ≡ done r) (route_task-found m fs id t there read found) h))
      (agent-with_agent t.agent fs)

-- An answer to a task, its cancellation and the saving of its artifact are hashed and dispatched with
-- the agent of the stored task, whatever agent the client has written into the request.
pub route-agent :
    (default_agent : Text → Option String) (m : Manager) (req r : Json) (op id : String) (t : Task)
    → value_text "op" "" req ≡ done op
    → is_on_task op ≡ true
    → contains "task_id" req ≡ true
    → value_text "task_id" "" req ≡ done id
    → lookup id m.tasks ≡ some t
    → route default_agent m req ≡ done r
    → value_text "agent" "" r ≡ done t.agent
unfolding route
route-agent default_agent m req r op id t named on_task there read found h =
    let (fs, e) = value_text-object "op" "" op req named in
    route_task-agent m fs r id t (subst (λ j. contains "task_id" j ≡ true) e there)
      (subst (λ j. value_text "task_id" "" j ≡ done id) e read) found
      (subst (λ j. route_task m j ≡ done r) e
        (subst (λ j. j ≡ done r) (route_op-on_task default_agent m op req on_task)
          (subst (λ o. (o >>= route_op default_agent m req) ≡ done r) named h)))
