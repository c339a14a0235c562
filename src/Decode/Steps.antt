-- ===== src/Decode/Steps.antt =====
-- One call of the decoder on a chunked body, arm by arm: what it consumes and delivers stands in
-- front of the rest of the body.
use vakya.Prelude.{
  ℕ, ◌+◌, ◌-◌, ◌≤◌, ◌≡◌, refl, sym, ap, ◌∙◌, ◌≢◌, inl, inr, Bool, true, false, ◌++◌, append-nil,
  append_assoc, arith, ◌==◌, if◌then◌else◌, ==_iff, Bool-cases, length, take, drop, length-append,
  length-take, length-drop, take-append-drop, drop-drop, take-add, take-take_le, Bytes, Result, ok,
  err,
}
use vakya.Chunk.{DecodeError}
use vakya.Decode.Input.{
  BodyDecoder, DecoderState, in_chunks, ChunkState, size_line, chunk_left, chunk_crlf,
  trailer_block, count_within, ChunkLine, whole, partial, parse_chunk_line, TrailerEnd, block_of,
  scanned_to,
}
use vakya.Decode.Reach.{crlf, LineRead, parse_chunk_line-LineRead}
use vakya.Decode.Bounds.{count_within-le}
use vakya.Decode.Grammar.{
  TrailerBlock, chunk, last, ChunkRest, AfterCrlf, Rest, consumed_of, payload_of,
}
use vakya.Decode.{
  DecodeOutcome, starved, decode_trailers, trailers_parsed, trailers_scanned, line_read, chunk_arm,
  size_arm,
}

module _ {H : Type 0} (parse_trailers : ℕ → Bytes → Result DecodeError (ℕ × H))
    (parses_within : (n : ℕ) (block : Bytes) (k : ℕ) (fields : H)
      → parse_trailers n block ≡ ok (k, fields)
      → k ≤ length block) where
  -- A call in state `s` that looked at `input` from `cursor` on and went well: what it consumed
  -- and delivered, in front of the rest from the state that it reached, is the rest from `s`.
  abbrev pub Steps :
      (n : ℕ) (input : Bytes) (cursor : ℕ) (s : DecoderState)
      → BodyDecoder × Result DecodeError (DecodeOutcome H)
      → Type 0
  Steps n input cursor s (d', err e) = Unit
  Steps n input cursor s (d', ok outcome) =
      (wire body : Bytes)
      → Rest parse_trailers n d'.state wire body
      → (m : ℕ) × (consumed_of outcome ≡ cursor + m)
        × Rest parse_trailers n s (take m (drop cursor input) ++ wire)
            (payload_of outcome input ++ body)

  pub starved-Steps :
      (n : ℕ) (d : BodyDecoder) (input : Bytes) (eof : Bool) (s : ChunkState) (cursor : ℕ)
      → Steps n input cursor (in_chunks s) (starved parse_trailers d eof s cursor)
  unfolding starved
  starved-Steps n d input true s cursor = tt
  starved-Steps n d input false s cursor = λ wire body h. (0, omega arith, h)

  taken_block :
      (n k bytes : ℕ) (fields : H) (available : Bytes)
      → parse_trailers n (take bytes available) ≡ ok (k, fields)
      → TrailerBlock parse_trailers n (take k available)
  taken_block n k bytes fields available h =
      let fits = parses_within n (take bytes available) k fields h in
      let short : k ≤ bytes = omega (arith, length-take bytes available) in
      let same = take-take_le k bytes available short in
      record {
        behind = drop k (take bytes available);
        fields = fields;
        parsed = rw (← same) (
            ap (parse_trailers n) (take-append-drop k (take bytes available))
            ∙ h
            ∙ ap (λ j. ok (j, fields)) (omega (arith, length-take k (take bytes available))));
      }

  parsed-Steps :
      (n bytes scanned : ℕ) (d : BodyDecoder) (input : Bytes) (cursor : ℕ)
      (p : Result DecodeError (ℕ × H))
      → parse_trailers n (take bytes (drop cursor input)) ≡ p
      → Steps n input cursor
          (in_chunks (trailer_block scanned))
          (trailers_parsed parse_trailers d cursor p)
  unfolding trailers_parsed
  parsed-Steps n bytes scanned d input cursor (err e) h = tt
  parsed-Steps n bytes scanned d input cursor (ok (k, fields)) h = λ wire body (w, b).
      (k, refl, (rw (w, append-nil) (taken_block n k bytes fields (drop cursor input) h), b))

  scanned-Steps :
      (n scanned : ℕ) (d : BodyDecoder) (input : Bytes) (cursor : ℕ) (eof : Bool)
      (t : Result DecodeError TrailerEnd)
      → d.limits.max_trailers ≡ n
      → Steps n input cursor
          (in_chunks (trailer_block scanned))
          (trailers_scanned parse_trailers d (drop cursor input) cursor eof t)
  unfolding trailers_scanned
  scanned-Steps n scanned d input cursor eof (err e) l = tt
  scanned-Steps n scanned d input cursor eof (ok (scanned_to bounded)) l =
      starved-Steps n d input eof (trailer_block bounded) cursor
  scanned-Steps n scanned d input cursor eof (ok (block_of bytes)) l =
      parsed-Steps n bytes scanned d input cursor _ (rw l refl)

  pub trailers-Steps :
      (n scanned : ℕ) (d : BodyDecoder) (input : Bytes) (cursor : ℕ) (eof : Bool)
      → d.limits.max_trailers ≡ n
      → Steps n input cursor
          (in_chunks (trailer_block scanned))
          (decode_trailers parse_trailers d input cursor eof scanned)
  unfolding decode_trailers
  trailers-Steps n scanned d input cursor eof limits =
      scanned-Steps n scanned d input cursor eof _ limits

  chunk_part :
      (n count remaining : ℕ) (available wire body : Bytes)
      → count ≤ length available
      → count ≤ remaining
      → Rest parse_trailers n
          (in_chunks
            (if remaining - count == 0 then chunk_crlf else chunk_left (remaining - count)))
          wire
          body
      → ChunkRest parse_trailers n remaining
          (take count available ++ wire)
          (take count available ++ body)
  chunk_part n count remaining available wire body fits le h =
      elim (Bool-cases (remaining - count == 0)) [
        | inl complete ↦
            let after : AfterCrlf parse_trailers n wire body = rw complete at h in
            record {
              payload_bytes = take count available;
              wire_behind = after.wire_behind;
              body_behind = body;
              counted = ground (arith, length-take count available);
              wire_splits = ap (◌++◌ (take count available)) after.wire_splits;
              body_splits = refl;
              chunked = after.chunked;
            }
        | inr more ↦
            let rest : ChunkRest parse_trailers n (remaining - count) wire body = rw more at h in
            record {
              payload_bytes = take count available ++ rest.payload_bytes;
              wire_behind = rest.wire_behind;
              body_behind = rest.body_behind;
              counted = omega (
                arith,
                length-append (take count available) rest.payload_bytes,
                length-take count available,
                rest.counted,
              );
              wire_splits =
                  ap (◌++◌ (take count available)) rest.wire_splits
                  ∙ sym (
                      append_assoc (take count available) rest.payload_bytes
                        (crlf ++ rest.wire_behind));
              body_splits =
                  ap (◌++◌ (take count available)) rest.body_splits
                  ∙ sym (append_assoc (take count available) rest.payload_bytes rest.body_behind);
              chunked = rest.chunked;
            }
      ]

  pub chunk-Steps :
      (n : ℕ) (d : BodyDecoder) (input : Bytes) (cursor : ℕ) (eof : Bool) (remaining : ℕ)
      → Steps n input cursor
          (in_chunks (chunk_left remaining))
          (chunk_arm parse_trailers d input cursor eof remaining)
  unfolding chunk_arm
  chunk-Steps n d input cursor eof remaining = elim (Bool-cases (cursor == length input)) [
    | inl all_read ↦ rw all_read (starved-Steps n d input eof (chunk_left remaining) cursor)
    | inr more ↦
        let count = count_within (length input - cursor) remaining in
        let le = count_within-le (length input - cursor) remaining in
        let taken : cursor + count - cursor ≡ count = omega arith in
        rw more λ wire body h. (
          count,
          refl,
          rw taken (
              chunk_part n count remaining (drop cursor input) wire body
                (omega (arith, length-drop cursor input)) le.1 h),
        )
  ]

  -- A chunk line in front of what follows it.
  line_then :
      {d d' : BodyDecoder} {size : ℕ} (input : Bytes) (cursor consumed m : ℕ) (wire : Bytes)
      → LineRead d d' (drop cursor input) size consumed
      → take (consumed + m) (drop cursor input) ++ wire
        ≡ take (consumed - 2) (drop cursor input)
          ++ (crlf ++ (take m (drop (cursor + consumed) input) ++ wire))
  line_then input cursor consumed m wire read =
      let available = drop cursor input in
      let line = take (consumed - 2) available in
      let more = take m (drop (cursor + consumed) input) in
      ap (λ v. v ++ wire)
        (take-add consumed m available
          ∙ ap (λ v. take consumed available ++ take m v) (drop-drop cursor consumed input)
          ∙ ap (λ v. v ++ more) read.ends)
      ∙ append_assoc (line ++ crlf) more wire
      ∙ append_assoc line crlf (more ++ wire)

  after_last :
      {d d' : BodyDecoder} (n : ℕ) (input : Bytes) (cursor consumed scanned : ℕ)
      (r : BodyDecoder × Result DecodeError (DecodeOutcome H))
      → LineRead d d' (drop cursor input) 0 consumed
      → Steps n input (cursor + consumed) (in_chunks (trailer_block 0)) r
      → Steps n input cursor (in_chunks (size_line scanned)) r
  after_last n input cursor consumed scanned (d', err e) read steps = tt
  after_last n input cursor consumed scanned (d', ok outcome) read steps = λ wire body h.
      let (m, at, rest) = steps wire body h in
      let line = take (consumed - 2) (drop cursor input) in
      (
        consumed + m,
        omega (arith, at),
        rw (line_then input cursor consumed m wire read, rest.1) (last line read.parsed rest.0),
      )

  after_size :
      {d d' : BodyDecoder} (n : ℕ) (input : Bytes) (cursor consumed size scanned : ℕ)
      (r : BodyDecoder × Result DecodeError (DecodeOutcome H))
      → LineRead d d' (drop cursor input) size consumed
      → size ≢ 0
      → Steps n input (cursor + consumed) (in_chunks (chunk_left size)) r
      → Steps n input cursor (in_chunks (size_line scanned)) r
  after_size n input cursor consumed size scanned (d', err e) read nonzero steps = tt
  after_size n input cursor consumed size scanned (d', ok outcome) read nonzero steps =
      λ wire body h.
        let (m, at, rest) = steps wire body h in
        let line = take (consumed - 2) (drop cursor input) in
        (
          consumed + m,
          omega (arith, at),
          rw (line_then input cursor consumed m wire read, rest.wire_splits, rest.body_splits)
              (chunk line rest.payload_bytes read.parsed nonzero rest.counted rest.chunked),
        )

  line-Steps :
      (n : ℕ) (d : BodyDecoder) (input : Bytes) (cursor scanned scanned' : ℕ) (eof : Bool)
      (l : Result DecodeError ChunkLine)
      → d.limits.max_trailers ≡ n
      → parse_chunk_line d (drop cursor input) scanned ≡ l
      → Steps n input cursor
          (in_chunks (size_line scanned'))
          (line_read parse_trailers d input cursor eof l)
  unfolding line_read
  line-Steps n d input cursor scanned scanned' eof (err e) limits h = tt
  line-Steps n d input cursor scanned scanned' eof (ok (partial s)) limits h =
      starved-Steps n d input eof (size_line s) cursor
  line-Steps n d input cursor scanned scanned' eof (ok (whole size consumed charged)) limits h =
      let read = parse_chunk_line-LineRead d charged (drop cursor input) scanned size consumed h in
      let limits' : charged.limits.max_trailers ≡ n =
        ap (λ l. l.max_trailers) read.within.same_limits ∙ limits in
      elim (Bool-cases (size == 0)) [
        | inl none_left ↦ rw none_left (
            after_last n input cursor consumed scanned'
              (decode_trailers parse_trailers charged input (cursor + consumed) eof 0)
              (rw ((==_iff size 0).0 none_left) at read)
              (trailers-Steps n 0 charged input (cursor + consumed) eof limits'))
        | inr more ↦ rw more (
            after_size n input cursor consumed size scanned'
              (chunk_arm parse_trailers charged input (cursor + consumed) eof size) read
              (ground arith) (chunk-Steps n charged input (cursor + consumed) eof size))
      ]

  pub size-Steps :
      (n : ℕ) (d : BodyDecoder) (input : Bytes) (cursor scanned : ℕ) (eof : Bool)
      → d.limits.max_trailers ≡ n
      → Steps n input cursor
          (in_chunks (size_line scanned))
          (size_arm parse_trailers d input cursor eof scanned)
  unfolding size_arm
  size-Steps n d input cursor scanned eof limits =
      line-Steps n d input cursor scanned scanned eof _ limits refl
