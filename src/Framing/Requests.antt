-- ===== src/Framing/Requests.antt =====
-- The requests of Wire, read by the loop that cuts packets from a stream.
use real_time_monitor_agent.Base.{ℕ, ◌++◌, ◌≡◌, sym, ap, ◌∙◌, List, [], ◌∷◌, map, some, arith, All}
use mathlib.Core.Path.{subst}
use real_time_monitor_agent.Wire.Order.{NetOrder}
use real_time_monitor_agent.Wire.Requests.{Request, request_bytes}
use real_time_monitor_agent.Wire.Layout.{head, HeadFits, BodyFits, request_bytes-IsPacket}
use real_time_monitor_agent.Framing.{Buffer, Drained, packet}
use real_time_monitor_agent.Framing.Stream.{IsPacket, IsPartial, stream}
use real_time_monitor_agent.Framing.Buffers.{IsBuffer, pending}
use real_time_monitor_agent.Framing.Chunks.{flatten, on_chunks, Arrive, on_chunks-Delivers}

nothing-IsPartial : IsPartial []
nothing-IsPartial = record { bytes = tt; short = omega arith; small = omega arith }

module _ (o : NetOrder) where
  -- The fields of a request lie in the ranges of their types.
  abbrev pub Fits : Request → Type 0
  Fits q = HeadFits (head q) × BodyFits q

  requests-IsPacket : (qs : List Request) → All Fits qs → All IsPacket (map (request_bytes o) qs)
  requests-IsPacket [] h = tt
  requests-IsPacket (q ∷ qs) ((hq, kq), h) =
      (request_bytes-IsPacket o q hq kq, requests-IsPacket qs h)

  -- The bytes of any requests whose fields lie in the ranges of their types, one behind the other, that
  -- arrive in any chunks in an empty buffer: the loop that reassembles packets passes each request on
  -- whole, once and in order, as exactly the bytes that it was sent as, and nothing is left over.
  pub on_chunks-requests :
      (qs : List Request) (cs : List (List ℕ)) (b : Buffer)
      → All Fits qs
      → IsBuffer b
      → pending b ≡ []
      → Arrive o b cs
      → flatten cs ≡ stream (map (request_bytes o) qs) []
      → (d : Drained) × (on_chunks o b cs ≡ some d)
        × (map packet d.calls ≡ map (request_bytes o) qs)
        × (pending d.buffer ≡ [])
  on_chunks-requests qs cs b h v empty arrive e =
      let (d, ran, ok) =
        on_chunks-Delivers o cs b (map (request_bytes o) qs) [] v arrive
          (ap (λ l. l ++ flatten cs) empty ∙ e) (subst IsPartial (sym empty) nothing-IsPartial)
          (requests-IsPacket qs h) nothing-IsPartial in
      (d, ran, ok.sees, ok.keeps)
