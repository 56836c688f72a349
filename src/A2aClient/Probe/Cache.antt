-- ===== src/A2aClient/Probe/Cache.antt =====
-- What `discover` keeps of a card.
use mathlib.Core.Option.{none-ne-some, some-injective}
use a2ad.Common.{
  ◌≡◌, ◌≢◌, refl, true, false, Option, none, some, List, [], ◌∷◌, text_eq, text_iff, Text,
  Bool-cases, inl, inr, ◌⊎◌, String, arith, not, ◌==◌, string_eq, if◌then◌else◌, ◌||◌, Bool,
  texts_differ,
}
use mathlib.Core.Path.{subst}
use a2ad.Json.{Json, Library, Try, done, raised, text_at}
use a2ad.AgentCard.{AgentCard}
use a2ad.A2aClient.Response.{HttpResponse, is_success}
use a2ad.A2aClient.Call.{Transport, BindingInfo}
use a2ad.A2aClient.Discover.{card_interfaces, card_rest, validated}
use a2ad.A2aClient.Probe.{
  Memory, remember, finished_card, read_card, document, answer, probe, discover, candidates,
  etag_or, has_name, card_document,
}

abbrev pub IsAmong : Text → List Text → Type 0
IsAmong url [] = ⊥
IsAmong url (u ∷ us) = (url ≡ u) ⊎ IsAmong url us

module _ (url : Text) (r : HttpResponse) (card : AgentCard) (m : Memory)
    (valid : card.valid ≡ true) where
  remember-cached :
      (remember url r card m).card_cache url
      ≡ some (record { body = r.body; etag = etag_or r.etag })
  unfolding remember
  remember-cached = rw (valid, (text_iff url url).1 refl) refl

  remember-others : (u : Text) → u ≢ url → (remember url r card m).card_cache u ≡ m.card_cache u
  unfolding remember
  remember-others u other = rw (valid, texts_apart) refl
    where
      texts_apart : (u == url) ≡ false
      texts_apart = ground (arith, text_iff u url, other)

module _ (lib : Library) (transport : Transport) (user_agent : Text) where
  -- The card has been read from what a place has answered, and is in the cache under that
  -- place as it was sent, with its tag; all else of the cache is as before.
  pub record Stored (m m' : Memory) (card : AgentCard) : Type 0 where
    pub url : Text
    pub r : HttpResponse
    pub answered : r ≡ answer lib transport user_agent url m
    pub arrived : r.transport_error ≡ false
    pub success : is_success r.status ≡ true
    pub j : Json
    pub parsed : lib.parse r.body ≡ some j
    pub name : String
    pub named : text_at "name" j ≡ some name
    pub not_empty : name ≢ ""
    pub read : AgentCard
    pub first : AgentCard
    pub is_first : card_interfaces j ≡ done first
    pub is_read : card_rest j first ≡ done read
    pub is_card : card ≡ validated j read
    pub cached : m'.card_cache url ≡ some (record { body = r.body; etag = etag_or r.etag })
    pub others : (u : Text) → u ≢ url → m'.card_cache u ≡ m.card_cache u

  -- The cache is the same, or the result is a valid card, and the cache has got exactly that card.
  abbrev pub OnlyValid : List Text → Memory → Try AgentCard × Memory → Type 0
  OnlyValid urls m (r, m') =
      (m'.card_cache ≡ m.card_cache)
      ⊎ ((card : AgentCard) × (r ≡ done card)
          × (card.valid ≡ true)
          × (st : Stored m m' card) × IsAmong st.url urls)

  -- What a document is.
  record IsDocument (r : HttpResponse) (j : Json) : Type 0 where
    arrived : r.transport_error ≡ false
    success : is_success r.status ≡ true
    parsed : lib.parse r.body ≡ some j
    name : String
    named : text_at "name" j ≡ some name
    not_empty : name ≢ ""

  card_document-some :
      (o : Option Json) (j : Json)
      → card_document o ≡ some j
      → (o ≡ some j) × (name : String) × (text_at "name" j ≡ some name) × (name ≢ "")
  card_document-some none j h = absurd (none-ne-some j h)
  card_document-some (some k) j h = go (text_at "name" k) refl h
    where
      go :
          (name : Option String)
          → text_at "name" k ≡ name
          → (if has_name name then some k else none) ≡ some j
          → (some k ≡ some j) × (name : String) × (text_at "name" j ≡ some name) × (name ≢ "")
      go none e h = absurd (none-ne-some j h)
      go (some name) e h = elim (Bool-cases (name == "")) [
        | inl empty ↦
            absurd (none-ne-some j (subst (λ b. (if not b then some k else none) ≡ some j) empty h))
        | inr full ↦
            let same = subst (λ b. (if not b then some k else none) ≡ some j) full h in
            (
              same,
              name,
              subst (λ i. text_at "name" i ≡ some name) (some-injective k j same) e,
              texts_differ name "" full,
            )
      ]

  document-IsDocument :
      (r : HttpResponse) (j : Json) → document lib transport user_agent r ≡ some j → IsDocument r j
  unfolding document
  document-IsDocument r j h = go r.transport_error (is_success r.status) refl refl h
    where
      go :
          (t b : Bool)
          → r.transport_error ≡ t
          → is_success r.status ≡ b
          → (if t || not b then none else card_document (lib.parse r.body)) ≡ some j
          → IsDocument r j
      go true b e1 e2 h = absurd (none-ne-some j h)
      go false false e1 e2 h = absurd (none-ne-some j h)
      go false true e1 e2 h =
          let (parsed, name, named, not_empty) = card_document-some (lib.parse r.body) j h in
          record {
            arrived = e1;
            success = e2;
            parsed = parsed;
            name = name;
            named = named;
            not_empty = not_empty;
          }

  -- Another place comes first without an answer.
  OnlyValid-later :
      (url : Text) (urls : List Text) (m : Memory) (d : Try AgentCard × Memory)
      → OnlyValid urls m d
      → OnlyValid (url ∷ urls) m d
  OnlyValid-later url urls m d (inl same) = inl same
  OnlyValid-later url urls m d (inr (card, e, valid, st, place)) =
      inr (card, e, valid, st, inr place)

  -- The first place has answered with a document.
  module _ (url : Text) (urls : List Text) (m : Memory) (j : Json)
      (found : IsDocument (answer lib transport user_agent url m) j) where
    finished_card-OnlyValid :
        (bindings : Text → Option BindingInfo) (first : AgentCard) (card : Try AgentCard)
        → card_interfaces j ≡ done first
        → card_rest j first ≡ card
        → OnlyValid (url ∷ urls) m (
            finished_card url
              (answer lib transport user_agent url m)
              j
              (record m { bindings = bindings })
              card)
    unfolding finished_card remember
    finished_card-OnlyValid bindings first raised e1 e2 = inl refl
    finished_card-OnlyValid bindings first (done read) e1 e2 =
        elim (Bool-cases (validated j read).valid) [
          | inr h ↦ inl (rw h refl)
          | inl h ↦ inr (
            validated j read,
            refl,
            h,
            record {
              url = url;
              r = answer lib transport user_agent url m;
              answered = refl;
              arrived = found.arrived;
              success = found.success;
              j = j;
              parsed = found.parsed;
              name = found.name;
              named = found.named;
              not_empty = found.not_empty;
              read = read;
              first = first;
              is_first = e1;
              is_read = e2;
              is_card = refl;
              cached =
                  remember-cached url (answer lib transport user_agent url m) (validated j read)
                    (record m { bindings = bindings }) h;
              others =
                  remember-others url (answer lib transport user_agent url m) (validated j read)
                    (record m { bindings = bindings }) h;
            },
            inl refl,
          )
        ]

    read_card-OnlyValid :
        (first : Try AgentCard)
        → card_interfaces j ≡ first
        → OnlyValid (url ∷ urls) m (read_card url (answer lib transport user_agent url m) j m first)
    unfolding read_card
    read_card-OnlyValid raised e = inl refl
    read_card-OnlyValid (done first) e = finished_card-OnlyValid _ first (card_rest j first) e refl

  probe-OnlyValid :
      (urls : List Text) (m : Memory) → OnlyValid urls m (probe lib transport user_agent urls m)
  unfolding probe
  probe-OnlyValid [] m = inl refl
  probe-OnlyValid (url ∷ urls) m =
      go (probe-OnlyValid urls m)
        (document lib transport user_agent (answer lib transport user_agent url m)) refl
    where
      go :
          OnlyValid urls m (probe lib transport user_agent urls m)
          → (o : Option Json)
          → document lib transport user_agent (answer lib transport user_agent url m) ≡ o
          → OnlyValid (url ∷ urls) m (elim o [
            | none ↦ probe lib transport user_agent urls m
            | some j ↦ read_card url (answer lib transport user_agent url m) j m (card_interfaces j)
          ])
      go later none e = OnlyValid-later url urls m _ later
      go later (some j) e =
          read_card-OnlyValid url urls m j (document-IsDocument _ j e) (card_interfaces j) refl

  -- Discovery leaves the cache of cards as it is, or its result is a valid card, read from a document with
  -- a name that one of the places answered with, and the cache differs only there: it holds that answer
  -- as it was sent, with its tag. So a card that cannot be read or is not valid is never cached.
  pub discover-OnlyValid :
      (endpoint : Text) (m : Memory)
      → OnlyValid (candidates endpoint) m (discover lib transport user_agent endpoint m)
  unfolding discover
  discover-OnlyValid endpoint m = probe-OnlyValid (candidates endpoint) m
