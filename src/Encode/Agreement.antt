-- ===== src/Encode/Agreement.antt =====
-- The framing that is planned for a request is the one that its validation finds.
use vakya.Prelude.{
  ◌≤◌, ◌≡◌, refl, inl, inr, false, some, Bool-cases, Option-cases, u64_max, Result, ok, ok-inj,
}
use vakya.Message.{BodyMode, until_eof}
use vakya.Http.{Http, Version, content_length, transfer_encoding}
use vakya.Head.Options.{is_http_11}
use vakya.Head.Request.{framing_of}
use vakya.Head.Response.{response_body}
use mathlib.Core.Path.{subst}
use vakya.Encode.{BodyMetadata, EncodeError}
use vakya.Encode.Stream.{has_trailers}
use vakya.Encode.Plan.{
  plain_length, plan_request_framing, plan_until_eof, reject_framing_headers,
  plan_representation_framing,
}
use vakya.Encode.Planned.{Lawful, no_framing, Gives, fixed-Gives, plan_chunked-Gives, length_fits}

module _ (http : Http) (lawful : Lawful http) where
  -- Whatever framing is planned for the head of a request, validating the fields that the plan
  -- leaves finds that framing and no error, so the check of the one against the other does not
  -- fail. It needs that the field map keeps its documented laws and that the declared size of the
  -- body fits 64 bits.
  pub plan_request_framing-framing_of :
      (fields set : http.HeaderMap) (version : Version) (metadata : BodyMetadata) (mode : BodyMode)
      → metadata.size.lower ≤ u64_max
      → plan_request_framing http fields version metadata ≡ ok (set, mode)
      → framing_of (http.get_all set content_length) (http.get_all set transfer_encoding) version
        ≡ ok (some mode)
  unfolding plan_request_framing
  plan_request_framing-framing_of fields set version metadata mode fits h =
      elim (Option-cases (plain_length metadata)) [
        | inr (n, exactly) ↦
            fixed-Gives http lawful fields set version n mode
              (length_fits http lawful metadata n fits exactly)
              (rw (plan_request_framing, exactly) at h)
        | inl unknown ↦ elim (Bool-cases (is_http_11 version)) [
          | inl new ↦
              plan_chunked-Gives http lawful fields set version mode new
                (rw (plan_request_framing, unknown, new) at h)
          | inr old ↦ absurd (let k = rw (plan_request_framing, unknown, old) at h in cc)
        ]
      ]

  Gives-response_body :
      (set : http.HeaderMap) (version : Version) (mode : BodyMode)
      → Gives http lawful set version mode
      → response_body http false
          (http.get_all set content_length)
          (http.get_all set transfer_encoding)
          version
        ≡ ok mode
  unfolding response_body
  Gives-response_body set version mode h = rw h refl

  until_eof-response_body :
      (fields set : http.HeaderMap) (version : Version) (mode : BodyMode)
      → plan_until_eof http fields ≡ ok (set, mode)
      → response_body http false
          (http.get_all set content_length)
          (http.get_all set transfer_encoding)
          version
        ≡ ok mode
  unfolding plan_until_eof reject_framing_headers response_body
  until_eof-response_body fields set version mode h =
      elim (Bool-cases (http.contains_key fields content_length)) [
        | inl given ↦ absurd (let k = rw given at h in cc)
        | inr no_lengths ↦ elim (Bool-cases (http.contains_key fields transfer_encoding)) [
          | inl given ↦ absurd (let k = rw (no_lengths, given) at h in cc)
          | inr no_codings ↦
              let made : ◌≡◌ {A = Result EncodeError (http.HeaderMap × BodyMode)}
                  (ok (fields, until_eof)) (ok (set, mode)) =
                rw (no_lengths, no_codings) at h in
              subst
                (λ p.
                  response_body http false (http.get_all p.0 content_length)
                    (http.get_all p.0 transfer_encoding) version
                  ≡ ok p.1)
                (ok-inj (fields, until_eof) (set, mode) made)
                (rw
                  (
                    lawful.absent fields no_lengths,
                    lawful.coding_absent fields no_codings,
                    no_framing version,
                  )
                  refl)
        ]
      ]

  -- Whatever framing is planned for a response that has a body, validating the fields that the
  -- plan leaves finds that framing and no error: a fixed length, chunks, or until the end of the
  -- connection. It needs that the field map keeps its documented laws and that the declared size
  -- of the body fits 64 bits.
  pub plan_representation_framing-response_body :
      (fields set : http.HeaderMap) (version : Version) (metadata : BodyMetadata) (mode : BodyMode)
      → metadata.size.lower ≤ u64_max
      → plan_representation_framing http fields version metadata ≡ ok (set, mode)
      → response_body http false
          (http.get_all set content_length)
          (http.get_all set transfer_encoding)
          version
        ≡ ok mode
  unfolding plan_representation_framing
  plan_representation_framing-response_body fields set version metadata mode fits h =
      elim (Option-cases (plain_length metadata)) [
        | inr (n, exactly) ↦ Gives-response_body set version mode (
            fixed-Gives http lawful fields set version n mode
              (length_fits http lawful metadata n fits exactly)
              (rw (plan_representation_framing, exactly) at h))
        | inl unknown ↦ elim (Bool-cases (is_http_11 version)) [
          | inl new ↦ Gives-response_body set version mode (
              plan_chunked-Gives http lawful fields set version mode new
                (rw (plan_representation_framing, unknown, new) at h))
          | inr old ↦ elim (Bool-cases (has_trailers metadata.trailers)) [
            | inl trailers ↦
                absurd (let k = rw (plan_representation_framing, unknown, old, trailers) at h in cc)
            | inr plain ↦
                until_eof-response_body fields set version mode
                  (rw (plan_representation_framing, unknown, old, plain) at h)
          ]
        ]
      ]
