-- ===== src/Video/Decoding.antt =====
-- What decode_vid_frame does with the jitter buffer and the codec (Monitor/Monitor/Screen.cpp).
use real_time_monitor_agent.Base.{
  ℕ, ◌+◌, ◌-◌, ◌^◌, ◌<◌, ◌≡◌, ◌≢◌, refl, sym, ap, ◌∙◌, List, [], ◌∷◌, ◌++◌, some, true, ltb, length,
  get_elem?, drop, if◌then◌else◌, ◌⊎◌, inl, inr, arith, Bool-cases, All, length-drop, drop-append,
  drop-append_le,
}
use mathlib.Core.Path.{subst}
use real_time_monitor_agent.Store.{PjStatus, success, enotfound}
use real_time_monitor_agent.Video.{
  FrameType, no_media, video_frame, Slot, packet, JitterBuffer, RxFrame, DecFrame, VidStream, Found,
  look, nothing_found, rx_frames, discard, decode, decoded, learn, decode_vid_frame,
}
use real_time_monitor_agent.Video.Pictures.{
  InPicture, has_packet, scan, look-scan, AtEnd, scan-AtEnd, scan_none, frames_of, rx_frames-places,
}

pub frame_types : (k : FrameType) → (k ≡ video_frame) ⊎ (k ≡ no_media)
frame_types no_media = inr refl
frame_types video_frame = inl refl

-- The last `n` places.
abbrev pub last_places : ℕ → List Slot → List Slot
last_places n xs = drop (length xs - n) xs

module _ {J : Type 0} (jitter : JitterBuffer J)
    (codec : List (List RxFrame) → List RxFrame → ℕ → DecFrame → PjStatus × DecFrame) where
  peek-slots : (j : J) → jitter.peek j ≡ get_elem? (jitter.slots j)
  peek-slots j i n = jitter.peeks j n i

  pub looks :
      (fuel : ℕ) (j : J)
      → length (jitter.slots j) < 2 ^ 32
      → length (jitter.slots j) < fuel
      → look (jitter.peek j) fuel nothing_found ≡ some (scan (jitter.slots j) nothing_found)
  looks fuel j short enough =
      ap (λ p. look p fuel nothing_found) (peek-slots j)
      ∙ look-scan (jitter.slots j) fuel [] (jitter.slots j) nothing_found refl refl short enough

  discards :
      (xs rest : List Slot) (s : VidStream J)
      → jitter.slots s.jb ≡ xs ++ rest
      → (j : J) × (discard jitter (length xs) s
          ≡ (length (last_places s.rx_frame_cnt xs), record s { jb = j }))
        × (jitter.slots j ≡ last_places s.rx_frame_cnt xs ++ rest)
  unfolding discard
  discards xs rest s e = elim (Bool-cases (ltb s.rx_frame_cnt (length xs))) [
    | inl more ↦ (
      jitter.remove s.jb (length xs - s.rx_frame_cnt),
      ground (arith, length-drop (length xs - s.rx_frame_cnt) xs),
      jitter.removes s.jb (length xs - s.rx_frame_cnt)
          ∙ ap (drop (length xs - s.rx_frame_cnt)) e
          ∙ drop-append_le (length xs - s.rx_frame_cnt) xs rest (omega arith),
    )
    | inr fits ↦
        let whole : last_places s.rx_frame_cnt xs ≡ xs = ground arith in
        (s.jb, ground (arith, whole), e ∙ ap (λ l. l ++ rest) (sym whole))
  ]

  -- After the codec read `frames` and `n` places were taken away.
  abbrev with_frames : ℕ → List RxFrame → VidStream J → VidStream J
  with_frames n frames s = record s {
    jb = jitter.remove s.jb n;
    dec_frame = decoded (codec s.fed frames s.dec_frame.size s.dec_frame);
    fed = s.fed ++ (frames ∷ []);
  }

  decodes :
      (t : ℕ) (xs rest : List Slot) (s : VidStream J)
      → jitter.slots s.jb ≡ xs ++ rest
      → decode jitter codec t (length xs) s ≡ with_frames (length xs) (frames_of t xs) s
  unfolding decode
  decodes t xs rest s e =
      ap (λ fs. with_frames (length xs) fs s)
        (ap (λ p. rx_frames p t (length xs) 0) (peek-slots s.jb)
          ∙ rx_frames-places t (jitter.slots s.jb) [] xs rest e)

  -- Learning changes only what is learnt.
  abbrev learnt : ℕ → ℕ → VidStream J → VidStream J
  learnt ts seq s = record s { last_dec_ts = ts; last_dec_seq = seq }

  learns : (f : Found) (s : VidStream J) → (ts seq : ℕ) × (learn f s ≡ learnt ts seq s)
  unfolding learn
  learns f s = elim (Bool-cases (ltb 0 s.dec_frame.size)) [
    | inl more ↦ elim (frame_types s.dec_frame.kind) [
      | inl v ↦ (f.last_ts, f.frm_last_seq, ground (arith, more, v))
      | inr v ↦ (s.last_dec_ts, s.last_dec_seq, ground (arith, v))
    ]
    | inr none_left ↦ (s.last_dec_ts, s.last_dec_seq, ground (arith, none_left))
  ]

  -- A buffer of fewer than 2 ^ 32 places that begins with a whole picture, one packet of it at least,
  -- whose time stamp is not 0, and then a packet of another time stamp: decode_vid_frame returns, takes
  -- exactly the places of the picture away and gives the codec those that fit into the array, the last
  -- ones; what is missing comes as an empty frame.
  pub decode_vid_frame-takes :
      (fuel t t' seq' : ℕ) (payload' : List ℕ) (xs zs : List Slot) (s : VidStream J)
      → jitter.slots s.jb ≡ xs ++ (packet t' seq' payload' ∷ zs)
      → All (InPicture t) xs
      → has_packet xs ≡ true
      → t ≢ 0
      → t' ≢ t
      → length (jitter.slots s.jb) < 2 ^ 32
      → length (jitter.slots s.jb) < fuel
      → (s' : VidStream J) × (decode_vid_frame jitter codec fuel s ≡ some (success, s'))
        × (jitter.slots s'.jb ≡ packet t' seq' payload' ∷ zs)
        × (s'.fed ≡ s.fed ++ (frames_of t (last_places s.rx_frame_cnt xs) ∷ []))
        × (s'.dec_frame
            ≡ decoded (
                codec s.fed
                  (frames_of t (last_places s.rx_frame_cnt xs))
                  s.dec_frame.size
                  s.dec_frame))
  unfolding decode_vid_frame
  decode_vid_frame-takes fuel t t' seq' payload' xs zs s e all begun real other short enough =
      let rest : List Slot = packet t' seq' payload' ∷ zs in
      let f : Found = scan (jitter.slots s.jb) nothing_found in
      let kept : List Slot = last_places s.rx_frame_cnt xs in
      let ends : AtEnd t (0 + length xs) f =
        subst (λ l. AtEnd t (0 + length xs) (scan l nothing_found)) (sym e)
          (scan-AtEnd t t' seq' payload' xs zs nothing_found real other all (inr (refl, begun))) in
      let (j, discarded, left) = discards xs rest s e in
      let s₁ : VidStream J = record s { jb = j } in
      let (ts, seq, learning) = learns f (with_frames (length kept) (frames_of t kept) s₁) in
      let returns : learn f (decode jitter codec f.last_ts (length kept) s₁)
          ≡ learnt ts seq (with_frames (length kept) (frames_of t kept) s₁) =
        ap (λ u. learn f (decode jitter codec u (length kept) s₁)) ends.ts
        ∙ ap (learn f) (decodes t kept rest s₁ left)
        ∙ learning in
      let taken : discard jitter f.cnt s ≡ (length kept, s₁) =
        ap (λ n. discard jitter n s) (omega (arith, ends.count)) ∙ discarded in
      (
        learnt ts seq (with_frames (length kept) (frames_of t kept) s₁),
        ground (arith, looks fuel s.jb short enough, ends.got, taken, returns),
        jitter.removes j (length kept) ∙ ap (drop (length kept)) left ∙ drop-append kept rest,
        refl,
        refl,
      )

  -- A buffer in which no picture is followed by a packet of another one: decode_vid_frame returns that
  -- it found none, and leaves the buffer, the codec and the picture as they are.
  pub decode_vid_frame_waits :
      (fuel t : ℕ) (s : VidStream J)
      → All (InPicture t) (jitter.slots s.jb)
      → length (jitter.slots s.jb) < 2 ^ 32
      → length (jitter.slots s.jb) < fuel
      → (ts seq : ℕ) × (decode_vid_frame jitter codec fuel s ≡ some (enotfound, learnt ts seq s))
  unfolding decode_vid_frame
  decode_vid_frame_waits fuel t s all short enough =
      let f : Found = scan (jitter.slots s.jb) nothing_found in
      let (ts, seq, learning) = learns f s in
      (
        ts,
        seq,
        ground (
          arith,
          looks fuel s.jb short enough,
          scan_none t (jitter.slots s.jb) nothing_found all (inr refl) refl,
          learning,
        ),
      )

  -- decode_vid_frame returns, whatever the buffer holds, once the fuel is more than its places.
  pub decode_vid_frame_total :
      (fuel : ℕ) (s : VidStream J)
      → length (jitter.slots s.jb) < 2 ^ 32
      → length (jitter.slots s.jb) < fuel
      → (status : PjStatus) × (s' : VidStream J) × (decode_vid_frame jitter codec fuel s
          ≡ some (status, s'))
  unfolding decode_vid_frame
  decode_vid_frame_total fuel s short enough =
      let f : Found = scan (jitter.slots s.jb) nothing_found in
      let (cnt, s₁) = discard jitter f.cnt s in
      (
        if f.got_frame then success else enotfound,
        if f.got_frame then learn f (decode jitter codec f.last_ts cnt s₁) else learn f s,
        ground (arith, looks fuel s.jb short enough),
      )
