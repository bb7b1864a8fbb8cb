-- ===== src/Rpc/RoundTrip.antt =====
-- From the chunk writers of p2p/rpc/reqresp/rpc_method.go to the response handler of
-- handle_response.go, without compression.
use rumor.Base.{ℕ, ◌^◌, ◌≤◌, ◌<◌, ◌≡◌, ap, ◌∙◌, List, [], ◌++◌, length, none, All}
use rumor.Rpc.Stream.{Reader, Ordered, Steady}
use rumor.Rpc.Wire.{Chunk, response_bytes}
use rumor.Rpc.Encode.{Writer}
use rumor.Rpc.Encode.Facts.{Lossless, write_response, write_response-Writes}
use rumor.Rpc.Response.{ChunkHandler, handle_response}
use rumor.Rpc.Response.Facts.{Took, Exact, Fits, handled}
use rumor.Rpc.Response.Loop.{handle_response_handles}

-- Without compression: chunks that fit, as many as are allowed or fewer, that are written raw to
-- an empty lossless sink and read from a steady stream of the same bytes are handled in order by
-- an exact chunk handler, each with its index, its code and its payload, and there is no error.
pub handle_response-write_response :
    (wr : Writer) (l : Lossless wr) (rd : Reader) (o : Ordered rd) (st : Steady rd o)
    → (ch : ChunkHandler rd) (x : Exact rd o ch) (max count : ℕ) (cs : List Chunk)
    → (sink : wr.Sink) (stream : rd.Source) (s : ch.State) → max < 2 ^ 63
    → length cs ≤ count
    → All (Fits max) cs
    → l.content sink ≡ []
    → o.content stream ≡ l.content (write_response wr l cs sink).1
    → Took rd o ch.State
        (handle_response rd ch none max count stream s)
        []
        (handled rd o st ch x 0 s cs)
handle_response-write_response wr l rd o st ch x max count cs sink stream s h enough fits empty e =
    let (sink', done, written) = write_response-Writes wr l cs sink in
    handle_response_handles rd o st ch x max h cs s stream fits count enough
      (e ∙ ap (λ r. l.content r.1) done ∙ written ∙ ap (λ c. c ++ response_bytes cs) empty)
