-- ===== src/A2aClient/Stream/Frames.antt =====
-- A server that sends each of its data as an event of one line is heard as it speaks.
use a2ad.Common.{
  ℕ, zero, suc, ◌+◌, ◌≤◌, ◌≡◌, refl, sym, ap, ◌∙◌, true, false, some, List, [], ◌∷◌, ◌++◌, ◌==◌,
  nat_eq, text_eq, ltb, Text, bytes, length, length-append, take, drop, find, has_byte, is_empty,
  arith,
}
use mathlib.Core.List.{append-nil, append_assoc}
use a2ad.Json.{Library}
use a2ad.A2aClient.Stream.{
  strip_cr, lines_from, data_value, data_of, event_data, blank_line, Sink, handed, deliver, drain,
  stream,
}
use a2ad.A2aClient.Stream.Chunks.{stream-drain, drain-first, drain-empty}
use a2ad.A2aClient.Stream.Boundaries.{has_byte-append, strip_cr-same, concat}

-- The data of an event in one line.
pub record IsPayload (d : Text) : Type 0 where
  pub not_empty : is_empty d ≡ false
  pub one_line : has_byte b'\n' d ≡ false
  pub no_cr : has_byte b'\r' d ≡ false
  pub not_done : (d == bytes "[DONE]") ≡ false

abbrev pub ArePayloads : List Text → Type 0
ArePayloads [] = Unit
ArePayloads (d ∷ ds) = IsPayload d × ArePayloads ds

abbrev pub line : Text → Text
line d = bytes "data: " ++ d

-- The bytes of the events.
abbrev pub wire : List Text → Text
wire [] = []
wire (d ∷ ds) = line d ++ b'\n' ∷ b'\n' ∷ wire ds

find-line :
    (l t : Text)
    → has_byte b'\n' l ≡ false
    → find (l ++ b'\n' ∷ b'\n' ∷ t) blank_line ≡ some (length l)
find-line [] t h = refl
find-line (c ∷ []) t h = ground (arith, h)
find-line (c ∷ d ∷ l) t h = ground (arith, h, find-line (d ∷ l) t)

take-line : (l t : Text) → take (length l) (l ++ t) ≡ l
take-line [] t = refl
take-line (c ∷ l) t = ap (λ x. c ∷ x) (take-line l t)

drop-line : (l t : Text) (c d : ℕ) → drop (length l + 2) (l ++ c ∷ d ∷ t) ≡ t
drop-line [] t c d = refl
drop-line (e ∷ l) t c d =
    ap (λ n. drop n (e ∷ l ++ c ∷ d ∷ t)) (shift (length l)) ∙ drop-line l t c d
  where
    shift : (n : ℕ) → suc n + 2 ≡ suc (n + 2)
    shift n = omega arith

lines_from-line :
    (sofar l : Text)
    → has_byte b'\n' l ≡ false
    → is_empty (sofar ++ l) ≡ false
    → lines_from sofar l ≡ (sofar ++ l) ∷ []
unfolding lines_from
lines_from-line [] [] h e = absurd (ground (arith, e))
lines_from-line (x ∷ sofar) [] h e = ap (λ l. (x ∷ l) ∷ []) (sym (append-nil sofar))
lines_from-line sofar (c ∷ l) h e =
    let more = append_assoc sofar (c ∷ []) l in
    ground (
      arith,
      h,
      lines_from-line (sofar ++ c ∷ []) l (ground (arith, h)) (ap is_empty more ∙ e),
      more,
    )

wire-lacks : (ds : List Text) → ArePayloads ds → has_byte b'\r' (wire ds) ≡ false
wire-lacks [] p = refl
wire-lacks (d ∷ ds) (p, ps) =
    has_byte-append 13 d (b'\n' ∷ b'\n' ∷ wire ds) p.no_cr (wire-lacks ds ps)

data_value-line : (d : Text) → data_of [] (line d ∷ []) ≡ d
unfolding data_of data_value
data_value-line d = rw (data_value, long (length d)) refl
  where
    long : (n : ℕ) → ltb 5 (suc (suc (suc (suc (suc (suc n)))))) ≡ true
    long n = ground arith

event_data-line : (d : Text) → IsPayload d → event_data (line d) ≡ d
unfolding event_data data_of
event_data-line d h =
    ap (data_of []) (lines_from-line [] (line d) h.one_line refl) ∙ data_value-line d

module _ {S : Type 0} (lib : Library) (sink : Sink S) where
  -- What the consumer makes of a sequence of data.
  pub received : S → List Text → S
  received s [] = s
  received s (d ∷ ds) = received (handed lib sink s (lib.parse d)) ds

  deliver-payload :
      (s : S) (d : Text) → IsPayload d → deliver lib sink s d ≡ handed lib sink s (lib.parse d)
  unfolding deliver
  deliver-payload s d h = rw (deliver, h.not_empty, h.not_done) refl

  drain-wire :
      (f : ℕ) (s : S) (ds : List Text)
      → length (wire ds) ≤ f
      → ArePayloads ds
      → drain lib sink f s (wire ds) ≡ (received s ds, [])
  unfolding received
  drain-wire f s [] h p = drain-empty lib sink f s
  drain-wire zero s (d ∷ ds) h p = absurd (omega (arith, h))
  drain-wire (suc f) s (d ∷ ds) h (p, ps) =
      drain-first lib sink f s (wire (d ∷ ds)) (length (line d))
        (find-line (line d) (wire ds) p.one_line)
      ∙ ap
          (λ q.
            drain lib sink f (deliver lib sink s (event_data q))
              (drop (length (line d) + 2) (wire (d ∷ ds))))
          (take-line (line d) (b'\n' ∷ b'\n' ∷ wire ds))
      ∙ ap (drain lib sink f (deliver lib sink s (event_data (line d))))
          (drop-line (line d) (wire ds) 10 10)
      ∙ ap (λ q. drain lib sink f (deliver lib sink s q) (wire ds)) (event_data-line d p)
      ∙ ap (λ q. drain lib sink f q (wire ds)) (deliver-payload s d p)
      ∙ drain-wire f (handed lib sink s (lib.parse d)) ds
          (omega (arith, h, length-append d (10 ∷ 10 ∷ wire ds))) ps

  -- A server that sends each of its data as an event of one line, `data: ` before it and a blank line
  -- after it, is heard as it speaks, in whatever chunks the bytes arrive: if the consumer does not stop
  -- the stream, it gets the parsed data in their order, each once, and nothing is left pending.
  pub stream-received :
      (s : S) (chunks : List Text) (ds : List Text)
      → ArePayloads ds
      → concat chunks ≡ wire ds
      → sink.stop_requested (stream lib sink s [] chunks).0 ≡ false
      → stream lib sink s [] chunks ≡ (received s ds, [])
  stream-received s chunks ds p e unstopped =
      stream-drain lib sink (length (strip_cr (concat chunks))) s [] chunks refl refl (omega arith)
        unstopped
      ∙ ap (λ q. drain lib sink (length (strip_cr q)) s (strip_cr q)) e
      ∙ ap (λ q. drain lib sink (length q) s q) (strip_cr-same (wire ds) (wire-lacks ds p))
      ∙ drain-wire (length (wire ds)) s ds (omega arith) p
