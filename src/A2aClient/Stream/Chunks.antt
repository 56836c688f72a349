-- ===== src/A2aClient/Stream/Chunks.antt =====
-- The events of a stream do not depend on how the transport cuts it into chunks.
use a2ad.Common.{
  ℕ, zero, suc, ◌+◌, ◌≤◌, ◌≡◌, refl, sym, ap, ◌∙◌, Bool, true, false, not, none, some, List, [],
  ◌∷◌, ◌++◌, if◌then◌else◌, Text, length, length-append, take, drop, find, has_byte, arith,
  Bool-cases, Option-cases, inl, inr, string_eq, nat_eq, text_eq,
}
use mathlib.Core.List.{append-nil, append_assoc}
use a2ad.Json.{Library}
use a2ad.A2aClient.Stream.{strip_cr, event_data, blank_line, Sink, deliver, drain, consume, stream}
use a2ad.A2aClient.Stream.Boundaries.{
  find-within, find-append, take-append, drop-within, length-drop, lacks-drop, strip_cr-append,
  strip_cr-nil, has_byte-append, strip_cr-lacks, strip_cr-same, concat,
}

module _ {S : Type 0} (lib : Library) (sink : Sink S) where
  -- What is left of a text after its first event.
  after-shorter :
      (fuel n : ℕ) (p : Text)
      → find p blank_line ≡ some n
      → length p ≤ suc fuel
      → length (drop (n + 2) p) ≤ fuel
  after-shorter fuel n p f h =
      omega (arith, h, length-drop (n + 2) p (find-within p n f), find-within p n f)

  drain-zero : (s : S) (p : Text) → drain lib sink zero s p ≡ (s, p)
  unfolding drain
  drain-zero s p = refl

  drain-last :
      (f : ℕ) (s : S) (p : Text) → find p blank_line ≡ none → drain lib sink (suc f) s p ≡ (s, p)
  unfolding drain
  drain-last f s p e = rw (drain, e) refl

  pub drain-first :
      (f : ℕ) (s : S) (p : Text) (n : ℕ)
      → find p blank_line ≡ some n
      → drain lib sink (suc f) s p
        ≡ drain lib sink f (deliver lib sink s (event_data (take n p))) (drop (n + 2) p)
  unfolding drain
  drain-first f s p n e = rw (drain, e) refl

  pub drain-empty : (f : ℕ) (s : S) → drain lib sink f s [] ≡ (s, [])
  drain-empty zero s = drain-zero s []
  drain-empty (suc f) s = drain-last f s [] refl

  -- More fuel than bytes changes nothing.
  pub drain_fuel :
      (f g : ℕ) (s : S) (p : Text)
      → length p ≤ f
      → length p ≤ g
      → drain lib sink f s p ≡ drain lib sink g s p
  drain_fuel f g s [] h k = drain-empty f s ∙ sym (drain-empty g s)
  drain_fuel zero g s (c ∷ p) h k = absurd (omega (arith, h))
  drain_fuel f zero s (c ∷ p) h k = absurd (omega (arith, k))
  drain_fuel (suc f) (suc g) s (c ∷ p) h k = elim (Option-cases (find (c ∷ p) blank_line)) [
    | inl last ↦ drain-last f s (c ∷ p) last ∙ sym (drain-last g s (c ∷ p) last)
    | inr (n, e) ↦
        drain-first f s (c ∷ p) n e
        ∙ drain_fuel f g _ (drop (n + 2) (c ∷ p)) (after-shorter f n (c ∷ p) e h)
            (after-shorter g n (c ∷ p) e k)
        ∙ sym (drain-first g s (c ∷ p) n e)
  ]

  drain-shorter : (f : ℕ) (s : S) (p : Text) → length (drain lib sink f s p).1 ≤ length p
  drain-shorter zero s p = rw (drain-zero s p) (omega arith)
  drain-shorter (suc f) s p = elim (Option-cases (find p blank_line)) [
    | inl last ↦ rw (drain-last f s p last) (omega arith)
    | inr (n, e) ↦ rw (drain-first f s p n e) (
        omega (
          arith,
          drain-shorter f (deliver lib sink s (event_data (take n p))) (drop (n + 2) p),
          length-drop (n + 2) p (find-within p n e),
        ))
  ]

  drain-lacks :
      (c f : ℕ) (s : S) (p : Text)
      → has_byte c p ≡ false
      → has_byte c (drain lib sink f s p).1 ≡ false
  drain-lacks c zero s p h = rw (drain-zero s p) h
  drain-lacks c (suc f) s p h = elim (Option-cases (find p blank_line)) [
    | inl last ↦ rw (drain-last f s p last) h
    | inr (n, e) ↦
        rw (drain-first f s p n e) (drain-lacks c f _ (drop (n + 2) p) (lacks-drop c (n + 2) p h))
  ]

  -- With as much fuel as there are bytes, the loop of `consume` ends by its own test: no event is left in
  -- what is pending.
  pub drain-ends :
      (f : ℕ) (s : S) (p : Text) → length p ≤ f → find (drain lib sink f s p).1 blank_line ≡ none
  drain-ends f s [] h = rw (drain-empty f s) refl
  drain-ends zero s (c ∷ p) h = absurd (omega (arith, h))
  drain-ends (suc f) s (c ∷ p) h = elim (Option-cases (find (c ∷ p) blank_line)) [
    | inl last ↦ rw (drain-last f s (c ∷ p) last) last
    | inr (n, e) ↦
        rw (drain-first f s (c ∷ p) n e)
          (drain-ends f _ (drop (n + 2) (c ∷ p)) (after-shorter f n (c ∷ p) e h))
  ]

  -- The events of a text are delivered before those that more bytes bring.
  pub drain-append :
      (f g : ℕ) (s : S) (p t : Text)
      → length p ≤ f
      → length (p ++ t) ≤ g
      → drain lib sink g s (p ++ t)
        ≡ drain lib sink g (drain lib sink f s p).0 ((drain lib sink f s p).1 ++ t)
  drain-append f g s [] t h k = rw (drain-empty f s) refl
  drain-append zero g s (c ∷ p) t h k = absurd (omega (arith, h))
  drain-append f zero s (c ∷ p) t h k = absurd (omega (arith, k))
  drain-append (suc f) (suc g) s (c ∷ p) t h k = elim (Option-cases (find (c ∷ p) blank_line)) [
    | inl last ↦ rw (drain-last f s (c ∷ p) last) refl
    | inr (n, e) ↦
        let within = find-within (c ∷ p) n e in
        let s' = deliver lib sink s (event_data (take n (c ∷ p))) in
        let rest = drop (n + 2) (c ∷ p) in
        let short = after-shorter f n (c ∷ p) e h in
        let enough : length (rest ++ t) ≤ g = omega (
          arith,
          k,
          length-append (c ∷ p) t,
          length-append rest t,
          length-drop (n + 2) (c ∷ p) within,
        ) in
        let left : length ((drain lib sink f s' rest).1 ++ t) ≤ g = omega (
          arith,
          enough,
          length-append rest t,
          length-append (drain lib sink f s' rest).1 t,
          drain-shorter f s' rest,
        ) in
        drain-first g s (c ∷ p ++ t) n (find-append (c ∷ p) t n e)
        ∙ ap (λ q. drain lib sink g (deliver lib sink s (event_data q)) (drop (n + 2) (c ∷ p ++ t)))
            (take-append n (c ∷ p) t (omega (arith, within)))
        ∙ ap (drain lib sink g s') (drop-within (n + 2) (c ∷ p) t within)
        ∙ drain-append f g s' rest t short enough
        ∙ drain_fuel g (suc g) _ _ left (omega (arith, left))
        ∙ sym (
            ap (λ (q : S × Text). drain lib sink (suc g) q.0 (q.1 ++ t))
              (drain-first f s (c ∷ p) n e))
  ]

  -- A state in which a stop has been requested is not one in which none has.
  stops :
      {end : S × Text} {s : S} {p : Text}
      → end ≡ (s, p)
      → sink.stop_requested s ≡ true
      → sink.stop_requested end.0 ≡ false
      → ⊥
  stops e stop unstopped =
      ground (arith, ap (λ (q : S × Text). sink.stop_requested q.0) e, stop, unstopped)

  drain-settled :
      (f : ℕ) (s : S) (p : Text) → find p blank_line ≡ none → drain lib sink f s p ≡ (s, p)
  drain-settled zero s p h = drain-zero s p
  drain-settled (suc f) s p h = drain-last f s p h

  consume-stopped :
      (s : S) (p chunk : Text)
      → sink.stop_requested s ≡ true
      → consume lib sink s p chunk ≡ (s, p, false)
  unfolding consume
  consume-stopped s p chunk h = rw (consume, h) refl

  consume-open :
      (s : S) (p chunk : Text)
      → sink.stop_requested s ≡ false
      → has_byte b'\r' p ≡ false
      → (let all = p ++ strip_cr chunk in
          let (s', rest) = drain lib sink (length all) s all in
          consume lib sink s p chunk ≡ (s', rest, not (sink.stop_requested s')))
  unfolding consume
  consume-open s p chunk h lacks =
      let all : strip_cr (p ++ chunk) ≡ p ++ strip_cr chunk =
        strip_cr-append p chunk ∙ ap (λ q. q ++ strip_cr chunk) (strip_cr-same p lacks) in
      rw (consume, h, all) refl

  stream-step :
      (s : S) (p chunk : Text) (chunks : List Text) (s' : S) (rest : Text) (more : Bool)
      → consume lib sink s p chunk ≡ (s', rest, more)
      → stream lib sink s p (chunk ∷ chunks)
        ≡ (if more then stream lib sink s' rest chunks else (s', rest))
  unfolding stream
  stream-step s p chunk chunks s' rest more h = rw (stream, h) refl

  last_chunk :
      (more : Bool) (s : S) (rest : Text)
      → (if more then stream lib sink s rest [] else (s, rest)) ≡ (s, rest)
  unfolding stream
  last_chunk true s rest = refl
  last_chunk false s rest = refl

  stream-stopped :
      (s : S) (p : Text) (chunks : List Text)
      → sink.stop_requested s ≡ true
      → stream lib sink s p chunks ≡ (s, p)
  unfolding stream
  stream-stopped s p [] h = refl
  stream-stopped s p (c ∷ cs) h = stream-step s p c cs s p false (consume-stopped s p c h)

  -- A stream that is not stopped delivers the events of its bytes.
  pub stream-drain :
      (g : ℕ) (s : S) (p : Text) (chunks : List Text)
      → has_byte b'\r' p ≡ false
      → find p blank_line ≡ none
      → length (p ++ strip_cr (concat chunks)) ≤ g
      → sink.stop_requested (stream lib sink s p chunks).0 ≡ false
      → stream lib sink s p chunks ≡ drain lib sink g s (p ++ strip_cr (concat chunks))
  unfolding stream
  stream-drain g s p [] lacks last h unstopped = sym (
      ap (λ q. drain lib sink g s (p ++ q)) strip_cr-nil
      ∙ ap (drain lib sink g s) (append-nil p)
      ∙ drain-settled g s p last)
  stream-drain g s p (c ∷ cs) lacks last h unstopped = elim (Bool-cases (sink.stop_requested s)) [
    | inl stop ↦ absurd (stops (stream-stopped s p (c ∷ cs) stop) stop unstopped)
    | inr open_ ↦ elim (Bool-cases (sink.stop_requested s')) [
      | inl stop ↦ absurd (
          stops
            (stream-step s p c cs s' rest false
              (consume-open s p c open_ lacks ∙ ap (λ b. (s', rest, not b)) stop))
            stop unstopped)
      | inr open' ↦
          let step =
            stream-step s p c cs s' rest true
              (consume-open s p c open_ lacks ∙ ap (λ b. (s', rest, not b)) open') in
          let fits : length (all ++ strip_cr (concat cs)) ≤ g = omega (arith, h, ap length split) in
          step
          ∙ stream-drain g s' rest cs
              (drain-lacks 13 (length all) s all
                (has_byte-append 13 p (strip_cr c) lacks (strip_cr-lacks c)))
              (drain-ends (length all) s all (omega arith))
              (omega (
                arith,
                fits,
                length-append all (strip_cr (concat cs)),
                length-append rest (strip_cr (concat cs)),
                drain-shorter (length all) s all,
              ))
              (ap (λ (q : S × Text). sink.stop_requested q.0) (sym step) ∙ unstopped)
          ∙ sym (drain-append (length all) g s all (strip_cr (concat cs)) (omega arith) fits)
          ∙ ap (drain lib sink g s) (sym split)
    ]
  ]
    where
      all : Text
      all = p ++ strip_cr c

      s' : S
      s' = (drain lib sink (length all) s all).0

      rest : Text
      rest = (drain lib sink (length all) s all).1

      split : p ++ strip_cr (c ++ concat cs) ≡ all ++ strip_cr (concat cs)
      split =
          ap (λ q. p ++ q) (strip_cr-append c (concat cs))
          ∙ sym (append_assoc p (strip_cr c) (strip_cr (concat cs)))

  -- A stream that is not stopped makes the same of its bytes, however the transport cuts them into
  -- chunks: the consumer ends in the same state, and the same bytes are pending.
  pub stream-concat :
      (s : S) (chunks : List Text)
      → sink.stop_requested (stream lib sink s [] chunks).0 ≡ false
      → stream lib sink s [] chunks ≡ stream lib sink s [] (concat chunks ∷ [])
  stream-concat s chunks unstopped = elim (Bool-cases (sink.stop_requested s)) [
    | inl stop ↦
        stream-stopped s [] chunks stop ∙ sym (stream-stopped s [] (concat chunks ∷ []) stop)
    | inr more ↦
        stream-drain _ s [] chunks refl refl (omega arith) unstopped
        ∙ sym (
            stream-step s [] (concat chunks) [] _ _ _ (consume-open s [] (concat chunks) more refl)
            ∙ last_chunk (not (sink.stop_requested _)) _ _)
  ]
