-- ===== src/A2aClient/Probe.antt =====
-- daemon/src/A2AClient.cpp: `discover`, which probes the places of an agent card, with its cache.
use a2ad.Common.{
  ℕ, String, Bool, true, false, ◌&&◌, ◌||◌, not, Option, none, some, List, [], ◌∷◌, ◌++◌, ◌==◌,
  nat_eq, string_eq, text_eq, if◌then◌else◌, Text, bytes, is_empty,
}
use a2ad.Json.{Json, Library, Try, done, raised, text_at}
use a2ad.AgentCard.{AgentInterface, AgentCard, no_card}
use a2ad.Url.{split_origin}
use a2ad.A2aClient.Response.{HttpResponse, is_success}
use a2ad.A2aClient.Call.{Bindings, register_interface, HttpRequest, Transport}
use a2ad.A2aClient.Discover.{card_interfaces, card_rest, validated}
pub mod Cache

pub record CachedCard : Type 0 where
  pub body : Text
  pub etag : Text

-- `card_cache_` by its URLs, and `bindings_`.
pub record Memory : Type 0 where
  pub card_cache : Text → Option CachedCard
  pub bindings : Bindings

abbrev pub well_known : Text
well_known = bytes "/.well-known/agent-card.json"

-- `while (!scoped.empty() && scoped.back() == '/') scoped.pop_back();`
unfoldable pub without_slashes : Text → Text
without_slashes [] = []
without_slashes (c ∷ s) =
    let rest = without_slashes s in if is_empty rest && c == b'/' then [] else c ∷ rest

unfoldable pub candidates_of : Text → Text × Text → List Text
unfolding without_slashes
candidates_of endpoint (origin, rest) =
    (origin ++ well_known)
    ∷ (if not (is_empty rest) && not (rest == bytes "/")
        then (without_slashes endpoint ++ well_known) ∷ endpoint ∷ []
        else origin ∷ [])

unfoldable pub candidates : Text → List Text
unfolding split_origin
candidates endpoint = candidates_of endpoint (split_origin endpoint)

abbrev pub no_cached : CachedCard
no_cached = record { body = []; etag = [] }

abbrev pub cached_or : Option CachedCard → CachedCard
cached_or none = no_cached
cached_or (some c) = c

unfoldable pub card_request : Text → Text → CachedCard → HttpRequest
card_request user_agent url cached = record {
  target = url;
  verb = bytes "GET";
  path = [];
  body = [];
  headers =
      (bytes "Accept", bytes "application/json")
      ∷ (bytes "User-Agent", user_agent)
      ∷ (if is_empty cached.etag then [] else (bytes "If-None-Match", cached.etag) ∷ []);
}

-- A card that has not been modified is the cached one.
unfoldable pub revalidated : CachedCard → HttpResponse → HttpResponse
revalidated cached r =
    if r.status == 304 && not (is_empty cached.body)
    then record r { status = 200; body = cached.body; etag = some cached.etag }
    else r

unfoldable pub register_all : List AgentInterface → Bindings → Bindings
unfolding register_interface
register_all [] bindings = bindings
register_all (i ∷ is) bindings = register_all is (register_interface i bindings)

abbrev pub etag_or : Option Text → Text
etag_or none = []
etag_or (some e) = e

-- `if (card.valid) card_cache_[url] = ...`
unfoldable pub remember : Text → HttpResponse → AgentCard → Memory → Memory
remember url r card m =
    if card.valid
    then record m {
      card_cache = λ u.
          if u == url
          then some (record { body = r.body; etag = etag_or r.etag })
          else m.card_cache u;
    }
    else m

unfoldable pub finished_card :
    Text → HttpResponse → Json → Memory → Try AgentCard → Try AgentCard × Memory
unfolding validated
finished_card url r j m raised = (raised, m)
finished_card url r j m (done card) = (done (validated j card), remember url r (validated j card) m)

-- A document with a name is read as a card; the interfaces are registered before the rest is read.
unfoldable pub read_card :
    Text → HttpResponse → Json → Memory → Try AgentCard → Try AgentCard × Memory
unfolding card_rest
read_card url r j m raised = (raised, m)
read_card url r j m (done card) =
    finished_card url r j (record m { bindings = register_all card.interfaces m.bindings })
      (card_rest j card)

abbrev pub has_name : Option String → Bool
has_name none = false
has_name (some name) = not (name == "")

abbrev pub card_document : Option Json → Option Json
card_document none = none
card_document (some j) = if has_name (text_at "name" j) then some j else none

module _ (lib : Library) (transport : Transport) (user_agent : Text) where
  -- The document that a candidate answers with, if it is a card.
  unfoldable pub document : HttpResponse → Option Json
  document r =
      if r.transport_error || not (is_success r.status)
      then none
      else card_document (lib.parse r.body)

  unfoldable pub answer : Text → Memory → HttpResponse
  answer url m =
      revalidated (cached_or (m.card_cache url))
        (transport.request (card_request user_agent url (cached_or (m.card_cache url))))

  unfoldable pub not_found : AgentCard
  not_found = record no_card {
    parse_error = bytes "agent card not found at well-known URI or endpoint";
  }

  unfoldable pub probe : List Text → Memory → Try AgentCard × Memory
  unfolding card_interfaces
  probe [] m = (done not_found, m)
  probe (url ∷ urls) m = elim (document (answer url m)) [
    | none ↦ probe urls m
    | some j ↦ read_card url (answer url m) j m (card_interfaces j)
  ]

  unfoldable pub discover : Text → Memory → Try AgentCard × Memory
  discover endpoint m = probe (candidates endpoint) m
