-- ===== src/Encode/Limits.antt =====
-- What is written stays within the configured limits.
use vakya.Prelude.{
  ◌≤◌, ◌≡◌, refl, sym, ap, ◌∙◌, inl, inr, true, false, none, [], ◌∷◌, ◌++◌, arith, ◌==◌, ==_iff,
  Bool-cases, length, Bytes, Result, ok, err, >>=-eq-ok,
}
use vakya.Http.{Http}
use vakya.Encode.{EncodeError, BoundedWriter, new_writer, push}
use vakya.Encode.Stream.{
  BodyEncoder, BodyState, no_body, fixed_body, chunked_body, close_delimited, finished, broken,
  has_trailers,
}
use vakya.Encode.Fields.{
  any_forbidden, write_headers, trailer_writer, write_trailers, trailers_written, trailers_within,
  trailers_in, send_trailers,
}
use vakya.Encode.Heads.{line_end}
use vakya.Encode.Writer.{Grows, Grows-trans, appended, push-Grows, write_headers-Grows}

module _ (http : Http) where
  writer_fresh :
      (e : BodyEncoder)
      → ((trailer_writer http e).limit_bytes ≡ e.max_trailer_bytes)
        × ((trailer_writer http e).bytes ≡ [])
  unfolding trailer_writer new_writer
  writer_fresh e = (refl, refl)

  -- The encoding of the last chunk.
  abbrev pub last_chunk : Bytes
  last_chunk = b'0' ∷ b'\r' ∷ b'\n' ∷ []

  last_bytes :
      (e : BodyEncoder) (last : BoundedWriter)
      → push (trailer_writer http e) last_chunk ≡ ok last
      → last.bytes ≡ last_chunk
  unfolding push
  last_bytes e last pushed =
      sym (ap (λ w. w.bytes) (appended (trailer_writer http e) last 3 last_chunk pushed).0)
      ∙ ap (λ v. v ++ last_chunk) (writer_fresh e).1

  trailers-Grows :
      (e : BodyEncoder) (fields : http.HeaderMap) (w : BoundedWriter)
      → write_trailers http e fields ≡ ok w
      → Grows (trailer_writer http e) w × ((more : Bytes) × (w.bytes ≡ last_chunk ++ more))
  unfolding write_trailers
  trailers-Grows e fields w h =
      let (last, pushed, h1) = >>=-eq-ok (push (trailer_writer http e) last_chunk) _ h in
      let (written, headed, h2) =
        >>=-eq-ok (write_headers http last fields none e.title_case_headers) _ h1 in
      let later =
        Grows-trans (write_headers-Grows http last written fields none e.title_case_headers headed)
          (push-Grows written w line_end h2) in
      (
        Grows-trans (push-Grows (trailer_writer http e) last last_chunk pushed) later,
        (later.more, later.grown ∙ ap (λ v. v ++ later.more) (last_bytes e last pushed)),
      )

  -- What `trailers` leaves and answers.
  abbrev pub Sent : BodyEncoder → http.HeaderMap → BodyEncoder × Result EncodeError Bytes → Type 0
  Sent e fields (next, err error) = next.state ≡ broken error
  Sent e fields (next, ok bytes) =
      (next.state ≡ finished)
      × (e.state ≡ chunked_body)
      × (e.remaining_lower ≡ 0)
      × (has_trailers e.trailers ≡ true)
      × (any_forbidden (http.keys fields) ≡ false)
      × (length bytes ≤ e.max_trailer_bytes)
      × ((more : Bytes) × (bytes ≡ last_chunk ++ more))

  written-Sent :
      (e : BodyEncoder) (fields : http.HeaderMap) (r : Result EncodeError BoundedWriter)
      → write_trailers http e fields ≡ r
      → e.state ≡ chunked_body
      → e.remaining_lower ≡ 0
      → has_trailers e.trailers ≡ true
      → any_forbidden (http.keys fields) ≡ false
      → Sent e fields (trailers_written http e r)
  unfolding trailers_written
  written-Sent e fields (err error) h in_chunks none_left may_have allowed = refl
  written-Sent e fields (ok w) h in_chunks none_left may_have allowed =
      let (grows, starts) = trailers-Grows e fields w h in
      let (limited, fresh) = writer_fresh e in
      let kept : w.limit_bytes ≡ e.max_trailer_bytes = grows.same_limit ∙ limited in
      let none_yet : length (trailer_writer http e).bytes ≡ 0 = ap length fresh in
      (
        refl,
        in_chunks,
        none_left,
        may_have,
        allowed,
        omega (arith, grows.within (omega arith)),
        starts,
      )

  within-Sent :
      (e : BodyEncoder) (fields : http.HeaderMap)
      → e.state ≡ chunked_body
      → Sent e fields (trailers_within http e fields)
  unfolding trailers_within
  within-Sent e fields in_chunks = elim (Bool-cases (e.remaining_lower == 0)) [
    | inr owed ↦ rw owed refl
    | inl none_left ↦ elim (Bool-cases (has_trailers e.trailers)) [
      | inr promised_none ↦ rw (none_left, promised_none) refl
      | inl may_have ↦ elim (Bool-cases (any_forbidden (http.keys fields))) [
        | inl forbidden ↦ rw (none_left, may_have, forbidden) refl
        | inr allowed ↦
            rw (none_left, may_have, allowed)
              (written-Sent e fields (write_trailers http e fields) refl in_chunks
                ((==_iff e.remaining_lower 0).0 none_left) may_have allowed)
      ]
    ]
  ]

  in-Sent :
      (e : BodyEncoder) (fields : http.HeaderMap) (s : BodyState)
      → e.state ≡ s
      → Sent e fields (trailers_in http s e fields)
  unfolding trailers_in
  in-Sent e fields (broken error) h = h
  in-Sent e fields finished h = refl
  in-Sent e fields chunked_body h = within-Sent e fields h
  in-Sent e fields no_body h = refl
  in-Sent e fields fixed_body h = refl
  in-Sent e fields close_delimited h = refl

  -- `trailers` ends a body only where trailers may stand: it goes well only for a chunked body
  -- that owes no more bytes and may have trailers, none of them forbidden; then the bytes begin
  -- with the last chunk, are no more than the limit on trailers, and the encoder is done. After
  -- any error the encoder keeps that error.
  pub send_trailers-Sent :
      (e : BodyEncoder) (fields : http.HeaderMap) → Sent e fields (send_trailers http e fields)
  unfolding send_trailers
  send_trailers-Sent e fields = in-Sent e fields e.state refl
