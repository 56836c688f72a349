-- ===== src/A2aClient/Response/Answers.antt =====
-- A JSON-RPC call succeeds only on the answer to its own request.
use a2ad.Common.{
  ◌≡◌, refl, sym, ◌∙◌, ap, String, Bool, true, false, ◌&&◌, Option, none, some, ◌==◌, string_eq,
  str_eq_iff, Text, arith,
}
use a2ad.Json.{Json, string, Library, done, value_text, get, done-inj, >>=-eq-done}
use a2ad.Tasks.Remote.{A2aResult, no_result}
use a2ad.A2aClient.Response.{
  HttpResponse, json_rpc, Digits, checked, envelope, parsed, wrapped, refused, unless_refused,
  classify, matches_id,
}
use a2ad.A2aClient.Response.Outcomes.{is_failure, RefusedBy, refused-RefusedBy}

-- The body of the response is the answer to the request `id`.
pub record AnswerTo (lib : Library) (id : String) (body : Text) : Type 0 where
  pub json : Json
  pub parses : lib.parse body ≡ some json
  pub version : value_text "jsonrpc" "" json ≡ done "2.0"
  pub same_id : get "id" json ≡ some (string id)

matches-eq :
    (id : String) (found : Option Json) → matches_id id found ≡ true → found ≡ some (string id)
matches-eq id (some (string s)) h = ap (λ t. some (string t)) ((str_eq_iff s id).0 h)
matches-eq id _ h = absurd (ground (arith, h))

module _ (lib : Library) (digits : Digits) (endpoint : Text) (id method : String)
    (out : A2aResult) where
  checked-true :
      (base : A2aResult) (b : Bool) (j : Json)
      → checked lib digits b method base j ≡ done out
      → out.ok ≡ true
      → b ≡ true
  unfolding checked
  checked-true base true j e h = refl
  checked-true base false j e h =
      absurd (ground (arith, ap (λ (o : A2aResult). o.ok) (done-inj e), h))

  parsed-AnswerTo :
      (base : A2aResult) (body : Text) (o : Option Json)
      → lib.parse body ≡ o
      → parsed lib digits json_rpc endpoint id method base o ≡ done out
      → out.ok ≡ true
      → AnswerTo lib id body
  unfolding parsed envelope
  parsed-AnswerTo base body none p e h =
      absurd (ground (arith, ap (λ (r : A2aResult). r.ok) (done-inj e), h))
  parsed-AnswerTo base body (some j) p e h =
      let (version, v, c) = >>=-eq-done (value_text "jsonrpc" "" j) _ e in
      let both = checked-true base (version == "2.0" && matches_id id (get "id" j)) j c h in
      record {
        json = j;
        parses = p;
        version = v ∙ ap done ((str_eq_iff version "2.0").0 (ground (arith, both)));
        same_id = matches-eq id (get "id" j) (ground (arith, both));
      }

  -- A JSON-RPC call is a success only if the response has come, has the status of a success, and its body
  -- is a JSON-RPC 2.0 answer with the identifier of the request.
  pub classify-AnswerTo :
      (r : HttpResponse)
      → classify lib digits json_rpc endpoint id method r ≡ done out
      → out.ok ≡ true
      → (is_failure r ≡ false) × AnswerTo lib id r.body
  unfolding classify wrapped unless_refused
  classify-AnswerTo r e h =
      go (refused lib digits endpoint r) (refused-RefusedBy lib digits endpoint r) e
    where
      go :
          (o : Option A2aResult)
          → RefusedBy r o
          → unless_refused lib digits json_rpc endpoint id method r o ≡ done out
          → (is_failure r ≡ false) × AnswerTo lib id r.body
      go (some found) (refusal, bad) f =
          absurd
            (ground (arith, ap (λ (o : A2aResult). o.ok) (sym (done-inj f)) ∙ refusal.not_ok, h))
      go none good f = (
        good,
        parsed-AnswerTo (record no_result { http_status = r.status }) r.body (lib.parse r.body) refl
            f h,
      )
