-- ===== src/Video.antt =====
-- The media of a screen (Monitor/Monitor/Screen.cpp). The jitter buffer and the codec of the media
-- library are parameters, and so are the answers of its RTP functions.
pub mod Pictures
pub mod Decoding
pub mod Receiving
mod Examples
use real_time_monitor_agent.Base.{
  ℕ, zero, suc, ◌-◌, ◌≡◌, List, [], ◌∷◌, ◌++◌, Option, none, some, Bool, true, false, not, ◌||◌,
  ◌==◌, ltb, length, get_elem?, drop, if◌then◌else◌,
}
use real_time_monitor_agent.Base.Words.{add32}
use real_time_monitor_agent.Store.{PjStatus, success, enotfound}
use real_time_monitor_agent.Wire.Order.{NetOrder}

-- A place of the jitter buffer: a packet with its time stamp, its sequence number and its payload, or
-- the place of one that did not come.
pub data Slot : Type 0 where
  packet : (ts seq : ℕ) → (payload : List ℕ) → Slot
  missing : Slot

-- The jitter buffer. pjmedia_jbuf_peek_frame answers `none` for PJMEDIA_JB_ZERO_EMPTY_FRAME: behind the
-- last place. pjmedia_jbuf_remove_frame takes places away at the front.
pub record JitterBuffer (J : Type 0) : Type 0 where
  pub slots : J → List Slot
  pub peek : J → ℕ → Option Slot
  pub remove : J → ℕ → J
  pub put : J → List ℕ → ℕ → ℕ → J
  pub reset : J → J
  pub is_full : J → Bool
  pub peeks : (j : J) (i : ℕ) → peek j i ≡ get_elem? (slots j) i
  pub removes : (j : J) (n : ℕ) → slots (remove j n) ≡ drop n (slots j)

pub data FrameType : Type 0 where
  no_media video_frame : FrameType

-- A frame that the codec reads; `buf` is null for a packet that is missing.
pub record RxFrame : Type 0 where
  pub kind : FrameType
  pub timestamp : ℕ
  pub buf : Option (List ℕ)
  pub size : ℕ

-- The picture that the codec writes.
pub record DecFrame : Type 0 where
  pub kind : FrameType
  pub timestamp : ℕ
  pub buf : List ℕ
  pub size : ℕ

-- `fed`: the frames of the calls of the codec so far.
pub record VidStream (J : Type 0) : Type 0 where
  pub jb : J
  pub dec_max_size : ℕ
  pub dec_frame : DecFrame
  pub rx_frame_cnt : ℕ
  pub last_dec_ts : ℕ
  pub last_dec_seq : ℕ
  pub fed : List (List RxFrame)

-- The variables of the loop that looks for a whole picture.
pub record Found : Type 0 where
  pub got_frame : Bool
  pub cnt : ℕ
  pub last_ts : ℕ
  pub frm_first_seq : ℕ
  pub frm_last_seq : ℕ

-- The first packet gives the time stamp; one whose time stamp is 0 does not.
abbrev pub starts : ℕ → ℕ → Found → Found
starts ts seq f = if f.last_ts == 0 then record f { last_ts = ts; frm_first_seq = seq } else f

-- `none`: the fuel ran out.
unfoldable pub look : (ℕ → Option Slot) → ℕ → Found → Option Found
look peek zero f = none
look peek (suc fuel) f = elim (peek f.cnt) [
  | none ↦ some f
  | some slot ↦ elim slot [
    | missing ↦ look peek fuel (record f { cnt = add32 f.cnt 1 })
    | packet ts seq payload ↦
        let rest =
          look peek fuel (record (starts ts seq f) { frm_last_seq = seq; cnt = add32 f.cnt 1 }) in
        if ts == (starts ts seq f).last_ts
        then rest
        else some (record (starts ts seq f) { got_frame = true })
  ]
]

abbrev pub nothing_found : Found
nothing_found = record {
  got_frame = false;
  cnt = 0;
  last_ts = 0;
  frm_first_seq = 0;
  frm_last_seq = 0;
}

abbrev pub rx_frame : ℕ → Option Slot → RxFrame
rx_frame ts (some (packet _ seq payload)) = record {
  kind = video_frame;
  timestamp = ts;
  buf = some payload;
  size = length payload;
}
rx_frame ts _ = record { kind = no_media; timestamp = ts; buf = none; size = 0 }

-- `n` frames from the place `i` on.
unfoldable pub rx_frames : (ℕ → Option Slot) → ℕ → ℕ → ℕ → List RxFrame
rx_frames peek ts zero i = []
rx_frames peek ts (suc n) i = rx_frame ts (peek i) ∷ rx_frames peek ts n (suc i)

-- What the RTP functions answer for a packet: its header, whose numbers are as they stand in the memory,
-- its payload and whether the session starts again.
pub record Rtp : Type 0 where
  pub ts : ℕ
  pub seq : ℕ
  pub marker : Bool
  pub payload : List ℕ
  pub restart : Bool

-- AudioScene and VideoScene: whether the frame is scheduled, for a frame that is not null.
unfoldable pub video_scene : Bool → List ℕ → Option (List ℕ)
video_scene media_active frame =
    if media_active then (if ltb 0 (length frame) then some frame else none) else none

abbrev pub decoded : PjStatus × DecFrame → DecFrame
decoded (success, frame) = frame
decoded (_, frame) = record frame { kind = no_media; size = 0 }

unfoldable pub learn : {J : Type 0} → Found → VidStream J → VidStream J
learn f s = elim s.dec_frame.kind [
  | no_media ↦ s
  | video_frame ↦
      if ltb 0 s.dec_frame.size
      then record s { last_dec_seq = f.frm_last_seq; last_dec_ts = f.last_ts }
      else s
]

-- The frames in front that do not fit into the array go away.
unfoldable pub discard : {J : Type 0} → JitterBuffer J → ℕ → VidStream J → ℕ × VidStream J
discard jitter cnt s =
    if ltb s.rx_frame_cnt cnt
    then (s.rx_frame_cnt, record s { jb = jitter.remove s.jb (cnt - s.rx_frame_cnt) })
    else (cnt, s)

abbrev pub with_size : {J : Type 0} → ℕ → VidStream J → VidStream J
with_size n s = record s { dec_frame = record s.dec_frame { size = n } }

-- `if(decode_vid_frame() != PJ_SUCCESS) { stream_->dec_frame.size = 0; }`
abbrev pub if_decoded : {J : Type 0} → PjStatus → VidStream J → VidStream J
if_decoded success s = s
if_decoded _ s = with_size 0 s

-- pjmedia_jbuf_put_frame3 gets the numbers of the header as they are.
unfoldable pub put_payload : {J : Type 0} → JitterBuffer J → Rtp → VidStream J → VidStream J
put_payload jitter rtp s = record s {
  jb = if rtp.restart then jitter.reset s.jb else jitter.put s.jb rtp.payload rtp.seq rtp.ts;
}

-- With the picture that is painted.
unfoldable pub paint : {J : Type 0} → VidStream J → VidStream J × Option (List ℕ)
paint s = elim s.dec_frame.kind [
  | no_media ↦ (s, none)
  | video_frame ↦
      if ltb 0 s.dec_frame.size then (with_size 0 s, some s.dec_frame.buf) else (s, none)
]

module _ {J : Type 0} (jitter : JitterBuffer J)
    (codec : List (List RxFrame) → List RxFrame → ℕ → DecFrame → PjStatus × DecFrame) where
  -- The picture of `cnt` frames at the front is decoded and taken away.
  unfoldable pub decode : ℕ → ℕ → VidStream J → VidStream J
  unfolding rx_frames
  decode ts cnt s =
      let frames = rx_frames (jitter.peek s.jb) ts cnt 0 in
      record s {
        jb = jitter.remove s.jb cnt;
        dec_frame = decoded (codec s.fed frames s.dec_frame.size s.dec_frame);
        fed = s.fed ++ (frames ∷ []);
      }

  unfoldable pub decode_vid_frame : ℕ → VidStream J → Option (PjStatus × VidStream J)
  unfolding look discard decode learn
  decode_vid_frame fuel s = elim (look (jitter.peek s.jb) fuel nothing_found) [
    | none ↦ none
    | some f ↦
        let (cnt, s') = discard jitter f.cnt s in
        some (
          if f.got_frame
          then (success, learn f (decode f.last_ts cnt s'))
          else (enotfound, learn f s))
  ]

  module _ (o : NetOrder) where
    -- The part of OnRxVideo that decodes.
    unfoldable pub decode_if : ℕ → Rtp → VidStream J → Option (VidStream J)
    unfolding decode_vid_frame
    decode_if fuel rtp s =
        let tried : Option (VidStream J) =
          elim (decode_vid_frame fuel (with_size s.dec_max_size s)) [
            | none ↦ none
            | some (status, s') ↦ some (if_decoded status s')
          ] in
        if not (o.ntohl rtp.ts == s.dec_frame.timestamp) || rtp.marker
        then if jitter.is_full s.jb || s.dec_frame.size == 0 then tried else some s
        else some s

    -- OnRxVideo; `none` for the packet: pjmedia_rtp_decode_rtp fails.
    unfoldable pub on_rx_video :
        ℕ → ℕ → Option Rtp → VidStream J → Option (VidStream J × Option (List ℕ))
    unfolding decode_if put_payload paint
    on_rx_video fuel framelen received s =
        if ltb 0 framelen
        then elim received [
          | none ↦ some (paint s)
          | some rtp ↦ elim rtp.payload [
            | [] ↦ some (s, none)
            | x ∷ xs ↦ elim (decode_if fuel rtp s) [
              | none ↦ none
              | some s' ↦ some (paint (put_payload jitter rtp s'))
            ]
          ]
        ]
        else some (s, none)
