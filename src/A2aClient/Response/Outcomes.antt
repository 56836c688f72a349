-- ===== src/A2aClient/Response/Outcomes.antt =====
-- What the kind of an error says of the response to a call, and what the control plane makes of it.
use a2ad.Common.{
  ℕ, ◌≡◌, refl, sym, ◌∙◌, ap, String, Bool, true, false, ◌&&◌, ◌||◌, not, Option, none, some, List,
  if◌then◌else◌, Text, Bool-cases, inl, inr, arith, ◌==◌, nat_eq, string_eq,
}
use a2ad.Common.Int.{pos}
use a2ad.Json.{
  Json, Library, Try, done, raised, ◌>>=◌, value_text, value_int, get, object, done-inj, object_at,
}
use a2ad.TaskState.{failed, rejected, state_eq}
use a2ad.Tasks.{Task}
use a2ad.Tasks.Remote.{ErrorKind, no_error, task_failure, A2aResult, no_result, error_kind_name}
use a2ad.Control.Finish.{is_uncertain}
use a2ad.A2aClient.Parse.{parse_task, parse_message}
use a2ad.A2aClient.Response.{
  HttpResponse, is_success, Wire, json_rpc, rest, grpc, Content, a_task, a_message, neither, Digits,
  is_text_at, is_array_at, content_of, task_list, is_config_method, parse_tasks, with_page,
  list_result, task_result, task_or_malformed, message_or_malformed, content_result, result_with,
  result_of, error_result, result_or_missing, error_or_result, checked, envelope, parsed, wrapped,
  refused, classify, matches_id, message_result, ended, message_checked, other_result,
  unless_refused, wrapped_body, body_or_object,
}

-- The kinds that say that there is no answer, or not the one that was asked for.
abbrev pub is_fault : ErrorKind → Bool
is_fault no_error = false
is_fault task_failure = false
is_fault _ = true

-- The result has the HTTP status, and is a success or has the kind of its fault.
pub record Classified (base out : A2aResult) : Type 0 where
  pub status : out.http_status ≡ base.http_status
  pub kind : out.ok ≡ not (is_fault out.error_kind)

-- What a call ensures of its result, unless it throws.
abbrev pub Ensures : {A : Type 0} → (A → Type 0) → Try A → Type 0
Ensures P (done a) = P a
Ensures P raised = Unit

pub Ensures-bind :
    {A B : Type 0} (P : B → Type 0) (m : Try A) (f : A → Try B)
    → ((a : A) → Ensures P (f a))
    → Ensures P (m >>= f)
Ensures-bind P (done a) f h = h a
Ensures-bind P raised f h = tt

-- The rest may use what the step ensures.
pub Ensures-bind_ensured :
    {A B : Type 0} (Q : A → Type 0) (P : B → Type 0) (m : Try A) (f : A → Try B)
    → Ensures Q m
    → ((a : A) → Q a → Ensures P (f a))
    → Ensures P (m >>= f)
Ensures-bind_ensured Q P (done a) f q h = h a q
Ensures-bind_ensured Q P raised f q h = tt

pub Ensures-map :
    {A : Type 0} (P Q : A → Type 0) (m : Try A) → ((a : A) → P a → Q a) → Ensures P m → Ensures Q m
Ensures-map P Q (done a) f h = f a h
Ensures-map P Q raised f h = tt

pub Ensures-done :
    {A : Type 0} (P : A → Type 0) (m : Try A) {a : A} → Ensures P m → m ≡ done a → P a
Ensures-done P m h e = rw e at h

task_result-Classified :
    (out : A2aResult) (t : Task) → out.error_kind ≡ no_error → Classified out (task_result out t)
unfolding task_result ended
task_result-Classified out t h = go (t.state == failed || t.state == rejected)
  where
    go :
        (b : Bool)
        → Classified out
            (ended b t.state (record out { ok = true; task = some t; context_id = t.context }))
    go true = record { status = refl; kind = refl }
    go false = record { status = refl; kind = ap (λ k. not (is_fault k)) (sym h) }

-- A success that is recorded in a result without a fault.
success-Classified :
    (base out : A2aResult)
    → out.http_status ≡ base.http_status
    → out.ok ≡ true
    → out.error_kind ≡ no_error
    → Classified base out
success-Classified base out s o k = record {
  status = s;
  kind = o ∙ sym (ap (λ kind. not (is_fault kind)) k);
}

module _ (lib : Library) (digits : Digits) (out : A2aResult)
    (clean : out.error_kind ≡ no_error) where
  with_page-Classified :
      (result : Json) (tasks : List Task)
      → Ensures
          (Classified out)
          (with_page lib digits result (record out { ok = true; tasks = tasks }))
  unfolding with_page
  with_page-Classified (object fs) tasks =
      Ensures-bind _ (value_text "nextPageToken" "" (object fs)) _ λ token.
        Ensures-bind _ (value_int "pageSize" (pos 0) (object fs)) _ λ size.
          Ensures-bind _ (value_int "totalSize" (pos 0) (object fs)) _
            λ total. success-Classified out _ refl refl clean
  with_page-Classified _ tasks = success-Classified out _ refl refl clean

  task-Classified : (t : Option Task) → Classified out (task_or_malformed out t)
  unfolding task_or_malformed
  task-Classified none = record { status = refl; kind = refl }
  task-Classified (some t) = task_result-Classified out t clean

  message-Classified :
      (b : Bool) (j : Json) → Ensures (Classified out) (message_checked lib digits b out j)
  unfolding message_checked message_result
  message-Classified true j =
      Ensures-bind _ (parse_message lib j) _ λ m. success-Classified out _ refl refl clean
  message-Classified false j = record { status = refl; kind = refl }

  other-Classified : (b : Bool) → Classified out (other_result b out)
  unfolding other_result
  other-Classified true = success-Classified out _ refl refl clean
  other-Classified false = record { status = refl; kind = refl }

  content-Classified :
      (method : String) (c : Content)
      → Ensures (Classified out) (content_result lib digits method out c)
  unfolding content_result message_or_malformed
  content-Classified method (a_task j) = Ensures-bind _ (parse_task lib j) _ task-Classified
  content-Classified method (a_message j) =
      message-Classified (is_text_at "messageId" j && is_text_at "role" j && is_array_at "parts" j)
        j
  content-Classified method neither = other-Classified (is_config_method method)

  result_with-Classified :
      (method : String) (result : Json) (list : Option (List Json))
      → Ensures (Classified out) (result_with lib digits method out result list)
  unfolding result_with list_result
  result_with-Classified method result (some js) =
      Ensures-bind _ (parse_tasks lib digits js) _ λ tasks. with_page-Classified result tasks
  result_with-Classified method result none = content-Classified method (content_of result)

  error-Classified : (e : Json) → Ensures (Classified out) (error_result lib digits out e)
  unfolding error_result
  error-Classified e = Ensures-bind _ (value_int "code" (pos 0) e) _ λ code.
      Ensures-bind _ (value_text "message" "unknown" e) _
        λ message. record { status = refl; kind = refl }

module _ (lib : Library) (digits : Digits) (out : A2aResult)
    (clean : out.error_kind ≡ no_error) where
  missing-Classified :
      (method : String) (result : Option Json)
      → Ensures (Classified out) (result_or_missing lib digits method out result)
  unfolding result_or_missing result_of
  missing-Classified method none = record { status = refl; kind = refl }
  missing-Classified method (some result) =
      Ensures-map _ _
        (result_with lib digits method (record out { value = result }) result (task_list result))
        (λ a h. record { status = h.status; kind = h.kind })
        (result_with-Classified lib digits (record out { value = result }) clean method result
          (task_list result))

  checked-Classified :
      (b : Bool) (method : String) (j : Json)
      → Ensures (Classified out) (checked lib digits b method out j)
  unfolding checked error_or_result
  checked-Classified true method j = go (object_at "error" j)
    where
      go : (e : Option Json) → Ensures (Classified out) (error_or_result lib digits method out j e)
      go none = missing-Classified method (get "result" j)
      go (some e) = error-Classified lib digits out clean e
  checked-Classified false method j = record { status = refl; kind = refl }

  envelope-Classified :
      (wire : Wire) (id method : String) (j : Json)
      → Ensures (Classified out) (envelope lib digits wire id method out j)
  unfolding envelope
  envelope-Classified json_rpc id method j =
      Ensures-bind _ (value_text "jsonrpc" "" j) _
        λ version. checked-Classified (version == "2.0" && matches_id id (get "id" j)) method j
  envelope-Classified rest id method j = checked-Classified true method j
  envelope-Classified grpc id method j = checked-Classified true method j

  parsed-Classified :
      (wire : Wire) (endpoint : Text) (id method : String) (body : Option Json)
      → Ensures (Classified out) (parsed lib digits wire endpoint id method out body)
  unfolding parsed
  parsed-Classified wire endpoint id method none = record { status = refl; kind = refl }
  parsed-Classified wire endpoint id method (some j) = envelope-Classified wire id method j

-- The response is not one that the server has sent for a success.
abbrev pub is_failure : HttpResponse → Bool
is_failure r = r.response_too_large || r.transport_error || not (is_success r.status)

-- The result for a response whose body is not read.
pub record Refusal (r : HttpResponse) (out : A2aResult) : Type 0 where
  pub not_ok : out.ok ≡ false
  pub fault : is_fault out.error_kind ≡ true
  pub certain :
      is_uncertain (error_kind_name out.error_kind) ≡ (r.response_too_large || r.transport_error)

denied-failure : (status : ℕ) → (status == 401 || status == 403) ≡ true → is_success status ≡ false
unfolding is_success
denied-failure status h = ground (arith, h)

abbrev pub RefusedBy : HttpResponse → Option A2aResult → Type 0
RefusedBy r (some out) = Refusal r out × (is_failure r ≡ true)
RefusedBy r none = is_failure r ≡ false

pub refused-RefusedBy :
    (lib : Library) (digits : Digits) (endpoint : Text) (r : HttpResponse)
    → RefusedBy r (refused lib digits endpoint r)
unfolding refused is_uncertain error_kind_name
refused-RefusedBy lib digits endpoint r = elim (Bool-cases r.response_too_large) [
  | inl large ↦ rw large (record { not_ok = refl; fault = refl; certain = refl }, refl)
  | inr small ↦ rw small (elim (Bool-cases r.transport_error) [
    | inl broken ↦ rw broken (record { not_ok = refl; fault = refl; certain = refl }, refl)
    | inr whole ↦ rw whole (elim (Bool-cases (r.status == 401 || r.status == 403)) [
      | inl denied ↦ rw denied (
        record { not_ok = refl; fault = refl; certain = refl },
        ap not (denied-failure r.status denied),
      )
      | inr other ↦ rw other (elim (Bool-cases (is_success r.status)) [
        | inl good ↦ rw good (rw good refl)
        | inr bad ↦ rw bad (record { not_ok = refl; fault = refl; certain = refl }, rw bad refl)
      ])
    ])
  ])
]

module _ (lib : Library) (digits : Digits) (wire : Wire) (endpoint : Text)
    (id method : String) where
  -- The envelope that a body gets changes nothing else.
  wrapped-body :
      (r : HttpResponse) → (body : Text) × (wrapped lib digits wire r ≡ record r { body = body })
  unfolding wrapped
  wrapped-body r = go wire
    where
      body : Text
      body = wrapped_body lib digits r.body (body_or_object lib digits r.body)

      if_some :
          (b : Bool)
          → (text : Text) × ((if b then record r { body = body } else r) ≡ record r { body = text })
      if_some true = (body, refl)
      if_some false = (r.body, refl)

      go : (u : Wire) → (text : Text) × (wrapped lib digits u r ≡ record r { body = text })
      go json_rpc = (r.body, refl)
      go rest = if_some (not r.transport_error && is_success r.status)
      go grpc = if_some (not r.transport_error && is_success r.status)

  -- What `classify` gives for a response, refused or not.
  checked-result :
      (r : HttpResponse) (o : Option A2aResult)
      → RefusedBy r o
      → (out : A2aResult) → unless_refused lib digits wire endpoint id method r o ≡ done out
      → out.ok ≡ not (is_fault out.error_kind)
  unfolding unless_refused
  checked-result r (some found) (h, f) out e =
      let same = done-inj e in
      ap (λ (o : A2aResult). o.ok) (sym same)
      ∙ h.not_ok
      ∙ sym (ap not h.fault)
      ∙ ap (λ (o : A2aResult). not (is_fault o.error_kind)) same
  checked-result r none f out e =
      (Ensures-done (Classified (record no_result { http_status = r.status })) _
        (parsed-Classified lib digits (record no_result { http_status = r.status }) refl wire
          endpoint id method (lib.parse r.body))
        e).kind

  Refusal-of :
      (r : HttpResponse) (o : Option A2aResult)
      → RefusedBy r o
      → is_failure r ≡ true
      → (out : A2aResult) × (unless_refused lib digits wire endpoint id method r o ≡ done out)
        × Refusal r out
  unfolding unless_refused
  Refusal-of r (some out) (h, f) g = (out, refl, h)
  Refusal-of r none f g = absurd (ground (arith, f, g))

  -- If a call gives a result, it is a success exactly if the kind of its error is none or the failure of
  -- the remote task.
  pub classify-kind :
      (r : HttpResponse) (out : A2aResult)
      → classify lib digits wire endpoint id method r ≡ done out
      → out.ok ≡ not (is_fault out.error_kind)
  unfolding classify
  classify-kind r out e =
      let w = wrapped lib digits wire r in
      checked-result w (refused lib digits endpoint w) (refused-RefusedBy lib digits endpoint w) out
        e

  -- A response that is too large, has not come or has not the status of a success gives a result that is
  -- no success, without an exception. The control plane takes it for uncertain exactly if the response
  -- is too large or has not come: a status of the server is a certain failure.
  pub classify-Refusal :
      (r : HttpResponse)
      → is_failure r ≡ true
      → (out : A2aResult) × (classify lib digits wire endpoint id method r ≡ done out)
        × Refusal r out
  unfolding classify
  classify-Refusal r h =
      let w = wrapped lib digits wire r in
      let (text, e) = wrapped-body r in
      let (out, f, refusal) =
        Refusal-of w (refused lib digits endpoint w) (refused-RefusedBy lib digits endpoint w)
          (ap is_failure e ∙ h) in
      (
        out,
        f,
        record {
          not_ok = refusal.not_ok;
          fault = refusal.fault;
          certain =
              refusal.certain
              ∙ ap (λ (v : HttpResponse). v.response_too_large || v.transport_error) e;
        },
      )
