-- ===== src/Video/Examples.antt =====
-- A jitter buffer that keeps the packets in the order in which they come, with a picture of three places.
use real_time_monitor_agent.Base.{
  ℕ, ◌+◌, ◌≡◌, refl, List, [], ◌∷◌, ◌++◌, Option, some, false, get_elem?, drop, arith,
}
use real_time_monitor_agent.Store.{PjStatus, success}
use real_time_monitor_agent.Wire.Order.{x86_order}
use real_time_monitor_agent.Video.{
  no_media, video_frame, Slot, packet, missing, JitterBuffer, RxFrame, DecFrame, VidStream, Rtp,
  decode_vid_frame, on_rx_video,
}
use real_time_monitor_agent.Video.Pictures.{frames_of}
use real_time_monitor_agent.Video.Decoding.{decode_vid_frame-takes, last_places}
use real_time_monitor_agent.Video.Receiving.{on_rx_video-paints, in_memory, on_rx_video_misnumbers}

abbrev in_order : JitterBuffer (List Slot)
in_order = record {
  slots = λ j. j;
  peek = λ j i. get_elem? j i;
  remove = λ j n. drop n j;
  put = λ j payload seq ts. j ++ (packet ts seq payload ∷ []);
  reset = λ j. [];
  is_full = λ j. false;
  peeks = λ j i. refl;
  removes = λ j n. refl;
}

-- Every picture is one byte.
abbrev one_picture : DecFrame
one_picture = record { kind = video_frame; timestamp = 9; buf = 77 ∷ []; size = 1 }

abbrev one_byte : List (List RxFrame) → List RxFrame → ℕ → DecFrame → PjStatus × DecFrame
one_byte fed frames size frame = (success, one_picture)

abbrev three_places : List Slot
three_places = packet 9 1 (1 ∷ []) ∷ (missing ∷ (packet 9 3 (2 ∷ []) ∷ []))

abbrev next_packets : List Slot
next_packets = []

abbrev stream : VidStream (List Slot)
stream = record {
  jb = three_places ++ (packet 10 4 (3 ∷ []) ∷ next_packets);
  dec_max_size = 307200;
  dec_frame = record { kind = no_media; timestamp = 0; buf = []; size = 0 };
  rx_frame_cnt = 2;
  last_dec_ts = 0;
  last_dec_seq = 0;
  fed = [];
}

decode_vid_frame-takes_example :
    (s' : VidStream (List Slot)) × (decode_vid_frame in_order one_byte 5 stream
      ≡ some (success, s'))
    × (s'.jb ≡ packet 10 4 (3 ∷ []) ∷ next_packets)
    × (s'.fed ≡ [] ++ (frames_of 9 (last_places 2 three_places) ∷ []))
    × (s'.dec_frame ≡ one_picture)
decode_vid_frame-takes_example =
    decode_vid_frame-takes in_order one_byte 5 9 10 4 (3 ∷ []) three_places next_packets stream refl
      (refl, (tt, (refl, tt))) refl (omega arith) (omega arith) (omega arith) (omega arith)

abbrev numbered : ℕ → Rtp
numbered n = record {
  ts = 11;
  seq = in_memory n;
  marker = false;
  payload = 4 ∷ [];
  restart = false;
}

on_rx_video-paints_example :
    (s' : VidStream (List Slot)) × (j : List Slot) × (on_rx_video in_order one_byte x86_order 5 20
        (some (numbered 5))
        stream
      ≡ some (s', some (77 ∷ [])))
    × (s'.jb ≡ j ++ (packet 11 (in_memory 5) (4 ∷ []) ∷ []))
    × (j ≡ packet 10 4 (3 ∷ []) ∷ next_packets)
    × (s'.dec_frame.size ≡ 0)
on_rx_video-paints_example =
    on_rx_video-paints in_order one_byte x86_order 5 20 9 10 4 (3 ∷ []) three_places next_packets
      (numbered 5) stream one_picture (omega arith) refl (refl, (tt, (refl, tt))) refl (omega arith)
      (omega arith) (omega arith) (omega arith) refl (omega arith) (λ e. ground (arith, e)) refl
      refl refl (omega arith)

on_rx_video_misnumbers_example :
    (t t' : VidStream (List Slot)) × (painted painted' : Option (List ℕ)) × (j j' : List Slot)
    × (number : ℕ) × (on_rx_video in_order one_byte x86_order 5 20 (some (numbered 5)) stream
        ≡ some (t, painted))
    × (on_rx_video in_order one_byte x86_order 5 20 (some (numbered 6)) stream
        ≡ some (t', painted'))
    × (t.jb ≡ j ++ (packet 11 number (4 ∷ []) ∷ []))
    × (t'.jb ≡ j' ++ (packet 11 (number + 256) (4 ∷ []) ∷ []))
on_rx_video_misnumbers_example =
    on_rx_video_misnumbers in_order one_byte x86_order 5 20 20 5 (numbered 5) (numbered 6) stream
      stream (omega arith) (omega arith) refl refl (omega arith) (omega arith)
      (λ e. ground (arith, e)) (λ e. ground (arith, e)) refl refl (omega arith) (omega arith)
      (omega arith) (omega arith)
