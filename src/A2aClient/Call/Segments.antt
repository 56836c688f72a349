-- ===== src/A2aClient/Call/Segments.antt =====
-- No parameter of a call can add a segment to the path of its request.
use a2ad.Common.{
  ℕ, zero, suc, ◌+◌, ◌/◌, ◌%◌, ◌≡◌, ◌≢◌, refl, ◌∙◌, String, Bool, true, false, Option, none, some,
  List, [], ◌∷◌, ◌++◌, ◌==◌, nat_eq, string_eq, if◌then◌else◌, Text, bytes, arith, Bool-cases,
  Option-cases, inl, inr, has_byte, is_empty, get_elem?,
}
use a2ad.Json.{Json, Library, done, utf8, get, value_text}
use a2ad.Url.{is_alnum, is_unreserved, hex, url_encode, add_query}
use a2ad.A2aClient.Call.{
  RestCall, Method, list_keys, send_message, get_task, list_tasks, cancel_task, create_push,
  get_push, list_push, delete_push, extended_card, other_method, query_text, add_param, add_params,
  segment, rest_call,
}
use a2ad.A2aClient.Response.Outcomes.{Ensures, Ensures-bind, Ensures-bind_ensured, Ensures-done}

-- How many slashes a path has.
abbrev pub slashes : Text → ℕ
slashes [] = 0
slashes (c ∷ s) = if c == b'/' then suc (slashes s) else slashes s

-- The slashes of the path of a method behind its prefix.
abbrev pub path_slashes : Method → ℕ
path_slashes get_task = 1
path_slashes cancel_task = 1
path_slashes create_push = 2
path_slashes list_push = 2
path_slashes get_push = 3
path_slashes delete_push = 3
path_slashes _ = 0

slashes-append : (s t : Text) → slashes (s ++ t) ≡ slashes s + slashes t
slashes-append [] t = omega arith
slashes-append (c ∷ s) t = ground (arith, slashes-append s t)

lacks-elem : (b : ℕ) (l : Text) (n c : ℕ) → has_byte b l ≡ false → get_elem? l n ≡ some c → c ≢ b
lacks-elem b [] n c h e = absurd (ground (arith, e))
lacks-elem b (d ∷ l) zero c h e = ground (arith, h, e)
lacks-elem b (d ∷ l) (suc n) c h e = lacks-elem b l n c (ground (arith, h)) e

hex-plain : (n : ℕ) → hex n ≢ b'/'
unfolding hex
hex-plain n = elim (Option-cases (get_elem? digits n)) [
  | inl e ↦ rw (hex, e) (omega arith)
  | inr (c, e) ↦ rw (hex, e) (lacks-elem b'/' digits n c refl e)
]
  where
    digits : Text
    digits = bytes "0123456789ABCDEF"

slashes-url_encode : (s : Text) → slashes (url_encode s) ≡ 0
unfolding url_encode is_unreserved is_alnum
slashes-url_encode [] = refl
slashes-url_encode (c ∷ s) =
    ground (arith, slashes-url_encode s, hex-plain (c / 16), hex-plain (c % 16))

slashes-add_query :
    (path key : Text) (v : Option Text) → slashes (add_query path key v) ≡ slashes path
unfolding add_query
slashes-add_query path key none = refl
slashes-add_query path key (some text) = elim (Bool-cases (is_empty text)) [
  | inl e ↦ rw (add_query, e) refl
  | inr e ↦ rw (add_query, e) (marked (has_byte b'?' path))
]
  where
    marked :
        (b : Bool)
        → slashes (path ++ (if b then b'&' else b'?') ∷ url_encode key ++ b'=' ∷ url_encode text)
          ≡ slashes path
    marked b = omega (
      arith,
      slashes-append (path ++ (if b then b'&' else b'?') ∷ url_encode key) (b'=' ∷ url_encode text),
      slashes-append path ((if b then b'&' else b'?') ∷ url_encode key),
      tail b,
      slashes-url_encode key,
      slashes-url_encode text,
    )
      where
        tail :
            (b : Bool)
            → slashes ((if b then b'&' else b'?') ∷ url_encode key) ≡ slashes (url_encode key)
        tail true = refl
        tail false = refl

module _ (lib : Library) where
  slashes-add_param :
      (params : Json) (path : Text) (key : String)
      → slashes (add_param lib params path key) ≡ slashes path
  unfolding add_param
  slashes-add_param params path key = go (get key params)
    where
      go :
          (o : Option Json)
          → slashes (elim o [ none ↦ path | some v ↦ add_query path (utf8 key) (query_text lib v) ])
            ≡ slashes path
      go none = refl
      go (some v) = slashes-add_query path (utf8 key) (query_text lib v)

  slashes-add_params :
      (params : Json) (path : Text) (keys : List String)
      → slashes (add_params lib params path keys) ≡ slashes path
  unfolding add_params
  slashes-add_params params path [] = refl
  slashes-add_params params path (key ∷ keys) =
      slashes-add_params params (add_param lib params path key) keys
      ∙ slashes-add_param params path key

  -- The path of a call, if it has one.
  abbrev Spelled : Text → Method → Option RestCall → Type 0
  Spelled prefix method none = Unit
  Spelled prefix method (some c) = slashes c.path ≡ slashes prefix + path_slashes method

  slashes-segment :
      (key : String) (params : Json) → Ensures (λ s. slashes s ≡ 0) (segment lib key params)
  unfolding segment
  slashes-segment key params =
      Ensures-bind _ (value_text key "" params) _ λ v. slashes-url_encode (utf8 v)

  last_segment :
      (prefix task : Text)
      → slashes task ≡ 0
      → slashes (prefix ++ bytes "tasks/" ++ task) ≡ slashes prefix + 1
  last_segment prefix task h = omega (
    arith,
    slashes-append (prefix ++ bytes "tasks/") task,
    slashes-append prefix (bytes "tasks/"),
    h,
  )

  one_segment :
      (prefix task end : Text)
      → slashes task ≡ 0
      → slashes (prefix ++ bytes "tasks/" ++ task ++ end) ≡ slashes prefix + suc (slashes end)
  one_segment prefix task end h =
      omega
        (arith, slashes-append (prefix ++ bytes "tasks/" ++ task) end, last_segment prefix task h)

  two_segments :
      (prefix task id : Text)
      → slashes task ≡ 0
      → slashes id ≡ 0
      → slashes (prefix ++ bytes "tasks/" ++ task ++ bytes "/pushNotificationConfigs/" ++ id)
        ≡ slashes prefix + 3
  two_segments prefix task id h k = omega (
    arith,
    slashes-append (prefix ++ bytes "tasks/" ++ task ++ bytes "/pushNotificationConfigs/") id,
    one_segment prefix task (bytes "/pushNotificationConfigs/") h,
    k,
  )

  rest_call-Spelled :
      (prefix : Text) (method : Method) (params : Json)
      → Ensures (Spelled prefix method) (rest_call lib prefix method params)
  unfolding rest_call
  rest_call-Spelled prefix send_message params =
      omega (arith, slashes-append prefix (bytes "message:send"))
  rest_call-Spelled prefix get_task params =
      Ensures-bind_ensured _ _ (segment lib "id" params) _ (slashes-segment "id" params) λ id h.
        slashes-add_params params (prefix ++ bytes "tasks/" ++ id) ("historyLength" ∷ [])
        ∙ last_segment prefix id h
  rest_call-Spelled prefix list_tasks params =
      slashes-add_params params (prefix ++ bytes "tasks") (list_keys lib)
      ∙ omega (arith, slashes-append prefix (bytes "tasks"))
  rest_call-Spelled prefix cancel_task params =
      Ensures-bind_ensured _ _ (segment lib "id" params) _ (slashes-segment "id" params)
        λ id h. one_segment prefix id (bytes ":cancel") h
  rest_call-Spelled prefix create_push params =
      Ensures-bind_ensured _ _ (segment lib "taskId" params) _ (slashes-segment "taskId" params)
        λ task h. one_segment prefix task (bytes "/pushNotificationConfigs") h
  rest_call-Spelled prefix get_push params =
      Ensures-bind_ensured _ _ (segment lib "taskId" params) _ (slashes-segment "taskId" params)
        λ task h.
          Ensures-bind_ensured _ _ (segment lib "id" params) _ (slashes-segment "id" params)
            λ id k. two_segments prefix task id h k
  rest_call-Spelled prefix list_push params =
      Ensures-bind_ensured _ _ (segment lib "taskId" params) _ (slashes-segment "taskId" params)
        λ task h.
          slashes-add_params params
            (prefix ++ bytes "tasks/" ++ task ++ bytes "/pushNotificationConfigs")
            ("pageSize" ∷ "pageToken" ∷ [])
          ∙ one_segment prefix task (bytes "/pushNotificationConfigs") h
  rest_call-Spelled prefix delete_push params =
      Ensures-bind_ensured _ _ (segment lib "taskId" params) _ (slashes-segment "taskId" params)
        λ task h.
          Ensures-bind_ensured _ _ (segment lib "id" params) _ (slashes-segment "id" params)
            λ id k. two_segments prefix task id h k
  rest_call-Spelled prefix extended_card params =
      omega (arith, slashes-append prefix (bytes "extendedAgentCard"))
  rest_call-Spelled prefix (other_method name) params = tt

  -- Over HTTP+JSON, the path of a request has the slashes of the prefix and of the method, whatever the
  -- parameters of the call hold: an identifier of a task or a configuration stays one segment, and no
  -- value of a query adds one.
  pub rest_call-slashes :
      (prefix : Text) (method : Method) (params : Json) (c : RestCall)
      → rest_call lib prefix method params ≡ done (some c)
      → slashes c.path ≡ slashes prefix + path_slashes method
  rest_call-slashes prefix method params c e =
      Ensures-done (Spelled prefix method) _ (rest_call-Spelled prefix method params) e
