-- ===== src/Video/Receiving.antt =====
-- What OnRxVideo paints, and the numbers that it gives the jitter buffer (Monitor/Monitor/Screen.cpp).
use real_time_monitor_agent.Base.{
  ℕ, suc, ◌+◌, ◌%◌, ◌^◌, ◌<◌, ◌≡◌, ◌≢◌, refl, sym, ap, ◌∙◌, List, [], ◌∷◌, ◌++◌, Option, none, some,
  true, false, ◌==◌, ltb, ◌||◌, not, length, inl, inr, arith, Bool-cases, All,
}
use real_time_monitor_agent.Store.{PjStatus, success}
use real_time_monitor_agent.Wire.Order.{NetOrder, load, network_bytes}
use real_time_monitor_agent.Video.{
  video_frame, Slot, packet, JitterBuffer, RxFrame, DecFrame, VidStream, Rtp, decoded, with_size,
  if_decoded, decode_if, paint, on_rx_video,
}
use real_time_monitor_agent.Video.Pictures.{InPicture, has_packet, frames_of}
use real_time_monitor_agent.Video.Decoding.{
  decode_vid_frame-takes, decode_vid_frame_total, frame_types, last_places,
}

module _ {J : Type 0} (jitter : JitterBuffer J)
    (codec : List (List RxFrame) → List RxFrame → ℕ → DecFrame → PjStatus × DecFrame)
    (o : NetOrder) where
  shows :
      (fuel framelen : ℕ) (rtp : Rtp) (s s₁ : VidStream J) (picture : DecFrame)
      → 0 < framelen
      → rtp.payload ≢ []
      → rtp.restart ≡ false
      → decode_if jitter codec o fuel rtp s ≡ some s₁
      → s₁.dec_frame ≡ picture
      → picture.kind ≡ video_frame
      → 0 < picture.size
      → on_rx_video jitter codec o fuel framelen (some rtp) s
        ≡ some (
          with_size 0 (record s₁ { jb = jitter.put s₁.jb rtp.payload rtp.seq rtp.ts }),
          some picture.buf,
        )
  unfolding on_rx_video
  shows fuel framelen rtp s s₁ picture some_bytes some_payload going ready painted kind big =
      ground
        (arith, ready, ap (λ f. f.kind) painted, ap (λ f. f.buf) painted, ap (λ f. f.size) painted)

  -- A packet with some payload that does not make the library restart the session, of another picture
  -- than the one decoded last, when no decoded picture is left and the buffer, of fewer than 2 ^ 32
  -- places, begins with a whole picture whose time stamp is not 0, followed by a packet of another one,
  -- and the codec makes a picture that is not empty of it: OnRxVideo paints it, leaves no picture behind,
  -- and puts the packet into the buffer that the picture was taken from.
  pub on_rx_video-paints :
      (fuel framelen t t' seq' : ℕ) (payload' : List ℕ) (xs zs : List Slot) (rtp : Rtp)
      (s : VidStream J) (picture : DecFrame)
      → 0 < framelen
      → jitter.slots s.jb ≡ xs ++ (packet t' seq' payload' ∷ zs)
      → All (InPicture t) xs
      → has_packet xs ≡ true
      → t ≢ 0
      → t' ≢ t
      → length (jitter.slots s.jb) < 2 ^ 32
      → length (jitter.slots s.jb) < fuel
      → s.dec_frame.size ≡ 0
      → o.ntohl rtp.ts ≢ s.dec_frame.timestamp
      → rtp.payload ≢ []
      → rtp.restart ≡ false
      → codec s.fed
          (frames_of t (last_places s.rx_frame_cnt xs))
          s.dec_max_size
          (record s.dec_frame { size = s.dec_max_size })
        ≡ (success, picture)
      → picture.kind ≡ video_frame
      → 0 < picture.size
      → (s' : VidStream J) × (j : J) × (on_rx_video jitter codec o fuel framelen (some rtp) s
          ≡ some (s', some picture.buf))
        × (s'.jb ≡ jitter.put j rtp.payload rtp.seq rtp.ts)
        × (jitter.slots j ≡ packet t' seq' payload' ∷ zs)
        × (s'.dec_frame.size ≡ 0)
  unfolding on_rx_video
  on_rx_video-paints fuel framelen t t' seq' payload' xs zs rtp s picture some_bytes e all begun
        real other short enough empty new_ts some_payload going decodes kind big =
      let (s₁, took, left, fed, dec) =
        decode_vid_frame-takes jitter codec fuel t t' seq' payload' xs zs
          (with_size s.dec_max_size s) e all begun real other short enough in
      let painted : s₁.dec_frame ≡ picture = dec ∙ ap decoded decodes in
      let ready : decode_if jitter codec o fuel rtp s ≡ some s₁ =
        ground (arith, took, new_ts, empty) in
      (
        record s₁ {
          jb = jitter.put s₁.jb rtp.payload rtp.seq rtp.ts;
          dec_frame = record s₁.dec_frame { size = 0 };
        },
        s₁.jb,
        shows fuel framelen rtp s s₁ picture some_bytes some_payload going ready painted kind big,
        refl,
        left,
        refl,
      )

  paints_or_not :
      (s : VidStream J)
      → (f : DecFrame) × (painted : Option (List ℕ)) × (paint s
          ≡ (record s { dec_frame = f }, painted))
  unfolding paint
  paints_or_not s = elim (Bool-cases (ltb 0 s.dec_frame.size)) [
    | inl more ↦ elim (frame_types s.dec_frame.kind) [
      | inl v ↦ (record s.dec_frame { size = 0 }, some s.dec_frame.buf, ground (arith, more, v))
      | inr v ↦ (s.dec_frame, none, ground (arith, v))
    ]
    | inr none_left ↦ (s.dec_frame, none, ground (arith, none_left))
  ]

  decodes_or_not :
      (fuel : ℕ) (rtp : Rtp) (s : VidStream J)
      → length (jitter.slots s.jb) < 2 ^ 32
      → length (jitter.slots s.jb) < fuel
      → (s' : VidStream J) × (decode_if jitter codec o fuel rtp s ≡ some s')
  unfolding decode_if
  decodes_or_not fuel rtp s short enough =
      let (status, s₁, e) =
        decode_vid_frame_total jitter codec fuel (with_size s.dec_max_size s) short enough in
      elim (Bool-cases (not (o.ntohl rtp.ts == s.dec_frame.timestamp) || rtp.marker)) [
        | inl new ↦ elim (Bool-cases (jitter.is_full s.jb || s.dec_frame.size == 0)) [
          | inl can ↦ (if_decoded status s₁, ground (arith, new, can, e))
          | inr busy ↦ (s, ground (arith, new, busy))
        ]
        | inr same ↦ (s, ground (arith, same))
      ]

  -- A packet comes into the buffer with the numbers as they stand in the memory.
  puts :
      (fuel framelen : ℕ) (rtp : Rtp) (s : VidStream J)
      → 0 < framelen
      → rtp.payload ≢ []
      → rtp.restart ≡ false
      → length (jitter.slots s.jb) < 2 ^ 32
      → length (jitter.slots s.jb) < fuel
      → (s' : VidStream J) × (painted : Option (List ℕ)) × (j : J) × (on_rx_video jitter codec o
            fuel framelen
            (some rtp)
            s
          ≡ some (s', painted))
        × (s'.jb ≡ jitter.put j rtp.payload rtp.seq rtp.ts)
  unfolding on_rx_video
  puts fuel framelen rtp s some_bytes some_payload going short enough =
      let (s₁, ready) = decodes_or_not fuel rtp s short enough in
      let s₂ : VidStream J = record s₁ { jb = jitter.put s₁.jb rtp.payload rtp.seq rtp.ts } in
      let (f, painted, e) = paints_or_not s₂ in
      (record s₂ { dec_frame = f }, painted, s₁.jb, ground (arith, ready, e), refl)

-- The 16 bits of a sequence number as they stand in the memory.
abbrev pub in_memory : ℕ → ℕ
in_memory n = load (network_bytes 2 n)

numbered_apart : (n : ℕ) → n % 256 < 255 → n < 2 ^ 16 → in_memory (suc n) ≡ in_memory n + 256
numbered_apart n h short = omega arith

module _ {J : Type 0} (jitter : JitterBuffer J)
    (codec : List (List RxFrame) → List RxFrame → ℕ → DecFrame → PjStatus × DecFrame)
    (o : NetOrder) where
  -- The packets `n` and `n + 1` of a stream, where `n + 1` is not a multiple of 256: OnRxVideo returns,
  -- and the number that it gives the jitter buffer for the second is 256 more than that of the first.
  pub on_rx_video_misnumbers :
      (fuel framelen framelen' n : ℕ) (rtp rtp' : Rtp) (s s' : VidStream J)
      → n % 256 < 255
      → n < 2 ^ 16
      → rtp.seq ≡ in_memory n
      → rtp'.seq ≡ in_memory (suc n)
      → 0 < framelen
      → 0 < framelen'
      → rtp.payload ≢ []
      → rtp'.payload ≢ []
      → rtp.restart ≡ false
      → rtp'.restart ≡ false
      → length (jitter.slots s.jb) < 2 ^ 32
      → length (jitter.slots s.jb) < fuel
      → length (jitter.slots s'.jb) < 2 ^ 32
      → length (jitter.slots s'.jb) < fuel
      → (t t' : VidStream J) × (painted painted' : Option (List ℕ)) × (j j' : J) × (number : ℕ)
        × (on_rx_video jitter codec o fuel framelen (some rtp) s ≡ some (t, painted))
        × (on_rx_video jitter codec o fuel framelen' (some rtp') s' ≡ some (t', painted'))
        × (t.jb ≡ jitter.put j rtp.payload number rtp.ts)
        × (t'.jb ≡ jitter.put j' rtp'.payload (number + 256) rtp'.ts)
  on_rx_video_misnumbers fuel framelen framelen' n rtp rtp' s s' low short seq seq' b b' p p' r r' h
        e h' e' =
      let (t, painted, j, run, at) = puts jitter codec o fuel framelen rtp s b p r h e in
      let (t', painted', j', run', at') =
        puts jitter codec o fuel framelen' rtp' s' b' p' r' h' e' in
      (
        t,
        t',
        painted,
        painted',
        j,
        j',
        rtp.seq,
        run,
        run',
        at,
        at'
            ∙ ap (λ m. jitter.put j' rtp'.payload m rtp'.ts)
                (seq' ∙ numbered_apart n low short ∙ ap (λ m. m + 256) (sym seq)),
      )
