-- ===== src/Rpc/Encode/Facts.antt =====
-- What p2p/rpc/reqresp/encode.go and the chunk writers of rpc_method.go put on the stream, without
-- compression.
use rumor.Base.{
  subst, ℕ, ◌-◌, ◌≤◌, ◌≡◌, refl, sym, ap, ◌∙◌, true, false, List, [], ◌∷◌, ◌++◌, length, take,
  length-append, length-take, none, arith, ok, ltb, nat_beq, Bool-cases, inl, inr,
}
use rumor.Base.Exec.{◌>>=◌, ◌>>◌, pure}
use mathlib.Core.List.{append_assoc, append-nil}
use rumor.Rpc.Stream.{RpcError, payload_failed}
use rumor.Rpc.Varint.{put_uvarint}
use rumor.Rpc.Wire.{Chunk, chunk_bytes, response_bytes}
use rumor.Rpc.Response.{max_err_size}
use rumor.Rpc.Encode.{
  Writer, Write, Payload, join, pieces_of, payload_of, wrap_error, write_all, write_pieces,
  copy_payload, output_size_varint, encode_header_and_payload, write_size,
  stream_header_and_payload, encode_result, encode_chunk, stream_chunk, write_raw_response_chunk,
  error_message, write_error_chunk,
}

-- A writer that takes all that it is given.
pub record Lossless (wr : Writer) : Type 0 where
  pub content : wr.Sink → List ℕ
  pub takes :
      (p : List ℕ) (s : wr.Sink)
      → (s' : wr.Sink) × (wr.write p s ≡ (ok (length p), s')) × (content s' ≡ content s ++ p)

error_message_small : (msg : List ℕ) → length (error_message msg) ≤ max_err_size
unfolding error_message
error_message_small msg = elim (Bool-cases (ltb max_err_size (length msg))) [
  | inl long ↦ rw long (
      omega (
        arith,
        length-append (take (max_err_size - 3) msg) (46 ∷ 46 ∷ 46 ∷ []),
        length-take (max_err_size - 3) msg,
      ))
  | inr short ↦ rw short (ground arith)
]

error_message_whole : (msg : List ℕ) → length msg ≤ max_err_size → error_message msg ≡ msg
unfolding error_message
error_message_whole msg h =
    let short : ltb max_err_size (length msg) ≡ false = ground arith in rw short refl

module _ (wr : Writer) (l : Lossless wr) where
  -- A program that writes these bytes and returns no error.
  abbrev pub Writes : Write wr (Unit {0}) → List ℕ → Type 0
  Writes m p =
      (s : wr.Sink) → (s' : wr.Sink) × (m s ≡ (ok tt, s')) × (l.content s' ≡ l.content s ++ p)

  both-Writes :
      (m k : Write wr (Unit {0})) (p q : List ℕ)
      → Writes m p
      → Writes k q
      → Writes (m >> k) (p ++ q)
  unfolding ◌>>=◌
  both-Writes m k p q hm hk s =
      let (s₁, e₁, c₁) = hm s in
      let (s₂, e₂, c₂) = hk s₁ in
      (
        s₂,
        rw (ap (λ r. r.0) e₁, ap (λ r. r.1) e₁) e₂,
        c₂ ∙ ap (λ x. x ++ q) c₁ ∙ append_assoc (l.content s) p q,
      )

  pure-Writes : Writes (pure tt) []
  unfolding ◌>>=◌
  pure-Writes s = (s, refl, sym (append-nil (l.content s)))

  write_all-Writes : (p : List ℕ) → Writes (write_all wr p) p
  unfolding write_all ◌>>=◌
  write_all-Writes p s =
      let (s', e, c) = l.takes p s in
      let whole : nat_beq (length p) (length p) ≡ true = ground arith in
      (s', rw (ap (λ r. r.0) e, ap (λ r. r.1) e, whole) refl, c)

  write_size-Writes : (n : ℕ) → Writes (write_size wr n) (put_uvarint n)
  unfolding write_size wrap_error ◌>>=◌
  write_size-Writes n s =
      let p = put_uvarint n in
      let (s', e, c) = l.takes p s in
      let whole : nat_beq (length p) (length p) ≡ true = ground arith in
      (s', rw (ap (λ r. r.0) e, ap (λ r. r.1) e, whole) refl, c)

  encode_result-Writes : (code : ℕ) → Writes (encode_result wr code) (code ∷ [])
  unfolding encode_result ◌>>=◌
  encode_result-Writes code s =
      let (s', e, c) = l.takes (code ∷ []) s in (s', rw (ap (λ r. r.0) e, ap (λ r. r.1) e) refl, c)

  output_size_varint-Writes :
      (buf : List ℕ) → Writes (output_size_varint wr buf) (put_uvarint (length buf))
  unfolding output_size_varint ◌>>=◌
  output_size_varint-Writes buf s =
      let (s', e, c) = l.takes (put_uvarint (length buf)) s in
      (s', rw (ap (λ r. r.0) e, ap (λ r. r.1) e) refl, c)

  write_pieces-Writes : (ps : List (List ℕ)) → Writes (write_pieces wr ps) (join ps)
  unfolding write_pieces
  write_pieces-Writes [] = pure-Writes
  write_pieces-Writes (p ∷ ps) =
      both-Writes (write_all wr p) (write_pieces wr ps) p (join ps) (write_all-Writes p)
        (write_pieces-Writes ps)

  copy_payload-Writes :
      (ps : List (List ℕ))
      → Writes (copy_payload wr none (record { pieces = ps; failure = none })) (join ps ++ [])
  unfolding copy_payload ◌>>=◌
  copy_payload-Writes ps =
      both-Writes (write_pieces wr ps) (pure tt) (join ps) [] (write_pieces-Writes ps) pure-Writes

  wrap_error-Writes :
      (f : RpcError → RpcError) (m : Write wr (Unit {0})) (p : List ℕ)
      → Writes m p
      → Writes (wrap_error wr f m) p
  unfolding wrap_error
  wrap_error-Writes f m p h s =
      let (s', e, c) = h s in (s', rw (ap (λ r. r.0) e, ap (λ r. r.1) e) refl, c)

  join-pieces_of : (bytes : List ℕ) → join (pieces_of bytes) ≡ bytes
  join-pieces_of [] = refl
  join-pieces_of (x ∷ xs) = append-nil (x ∷ xs)

  -- StreamChunk writes the result code, the size that it is told, and the payload.
  pub stream_chunk-Writes :
      (code size : ℕ) (ps : List (List ℕ))
      → Writes
          (stream_chunk wr code size (record { pieces = ps; failure = none }) none)
          (code ∷ (put_uvarint size ++ join ps))
  unfolding stream_chunk stream_header_and_payload
  stream_chunk-Writes code size ps =
      let r : Payload = record { pieces = ps; failure = none } in
      let copy = copy_payload wr none r in
      let body =
        both-Writes (write_size wr size) (wrap_error wr payload_failed copy) (put_uvarint size)
          (join ps ++ []) (write_size-Writes size)
          (wrap_error-Writes payload_failed copy (join ps ++ []) (copy_payload-Writes ps)) in
      let all =
        both-Writes (encode_result wr code) (stream_header_and_payload wr size r none) (code ∷ [])
          (put_uvarint size ++ (join ps ++ [])) (encode_result-Writes code) body in
      subst (λ x. Writes (stream_chunk wr code size r none) (code ∷ (put_uvarint size ++ x)))
        (append-nil (join ps)) all

  -- EncodeChunk, which buffers the payload, writes what StreamChunk writes with the payload's size.
  pub encode_chunk-Writes :
      (code : ℕ) (ps : List (List ℕ))
      → Writes
          (encode_chunk wr code (record { pieces = ps; failure = none }) none)
          (chunk_bytes (record { code = code; payload = join ps }))
  unfolding encode_chunk encode_header_and_payload ◌>>=◌
  encode_chunk-Writes code ps =
      let r : Payload = record { pieces = ps; failure = none } in
      let buf = join ps in
      let copied = pieces_of buf in
      let body =
        both-Writes (output_size_varint wr buf) (copy_payload wr none (payload_of buf))
          (put_uvarint (length buf)) (join copied ++ []) (output_size_varint-Writes buf)
          (copy_payload-Writes copied) in
      let all =
        both-Writes (encode_result wr code) (encode_header_and_payload wr r none) (code ∷ [])
          (put_uvarint (length buf) ++ (join copied ++ [])) (encode_result-Writes code) body in
      subst (λ x. Writes (encode_chunk wr code r none) (code ∷ (put_uvarint (length buf) ++ x)))
        (append-nil (join copied) ∙ join-pieces_of buf) all

  -- WriteRawResponseChunk writes one chunk.
  pub write_raw_response_chunk-Writes :
      (c : Chunk) → Writes (write_raw_response_chunk wr none c.code c.payload) (chunk_bytes c)
  unfolding write_raw_response_chunk
  write_raw_response_chunk-Writes c =
      subst
        (λ x.
          Writes (write_raw_response_chunk wr none c.code c.payload)
            (c.code ∷ (put_uvarint (length c.payload) ++ x)))
        (join-pieces_of c.payload)
        (stream_chunk-Writes c.code (length c.payload) (pieces_of c.payload))

  -- On a lossless sink and without compression WriteErrorChunk writes one chunk whose payload is
  -- within the size that the response handler takes for an error code, and is the message itself
  -- if that is within it.
  pub write_error_chunk-Writes :
      (code : ℕ) (msg : List ℕ)
      → Writes
          (write_error_chunk wr none code msg)
          (chunk_bytes (record { code = code; payload = error_message msg }))
        × (length (error_message msg) ≤ max_err_size)
        × (length msg ≤ max_err_size → error_message msg ≡ msg)
  unfolding write_error_chunk
  write_error_chunk-Writes code msg = (
    write_raw_response_chunk-Writes (record { code = code; payload = error_message msg }),
    error_message_small msg,
    error_message_whole msg,
  )

  -- A server that writes these chunks, one after the other.
  abbrev pub write_response : List Chunk → Write wr (Unit {0})
  write_response [] = pure tt
  write_response (c ∷ cs) = write_raw_response_chunk wr none c.code c.payload >> write_response cs

  pub write_response-Writes : (cs : List Chunk) → Writes (write_response cs) (response_bytes cs)
  write_response-Writes [] = pure-Writes
  write_response-Writes (c ∷ cs) =
      both-Writes (write_raw_response_chunk wr none c.code c.payload) (write_response cs)
        (chunk_bytes c) (response_bytes cs) (write_raw_response_chunk-Writes c)
        (write_response-Writes cs)
