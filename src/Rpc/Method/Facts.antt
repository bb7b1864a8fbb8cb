-- ===== src/Rpc/Method/Facts.antt =====
-- Methods without a request, in p2p/rpc/reqresp/rpc_method.go.
use rumor.Base.{◌≡◌, refl, Option, none}
use rumor.Rpc.Stream.{Reader}
use rumor.Rpc.Compression.{Compression}
use rumor.Rpc.Request.{empty_call, handle_stream}
use rumor.Rpc.Method.{SerDes, max_byte_len, method_stream}

module _ {rd : Reader} (sd : SerDes rd) where
  -- A method with a nil codec reads nothing of its streams.
  method_stream_nil :
      (comp : Option Compression) (stream : rd.Source)
      → method_stream {sd = sd} none comp (max_byte_len {sd = sd} none) stream ≡ (empty_call rd, 0)
  unfolding method_stream max_byte_len handle_stream
  method_stream_nil comp stream = refl
