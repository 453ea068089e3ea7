-- ===== src/Video/Pictures.antt =====
-- The pictures of the jitter buffer that decode_vid_frame takes (Monitor/Monitor/Screen.cpp).
use real_time_monitor_agent.Base.{
  ℕ, zero, suc, ◌+◌, ◌^◌, ◌<◌, ◌≡◌, ◌≢◌, refl, sym, ap, ◌∙◌, List, [], ◌∷◌, ◌++◌, none, some, Bool,
  true, false, ◌==◌, length, get_elem?, map, if◌then◌else◌, ◌⊎◌, inl, inr, arith, All, append_assoc,
  append-nil, length-append,
}
use real_time_monitor_agent.Video.{
  Slot, packet, missing, RxFrame, Found, starts, look, rx_frame, rx_frames,
}

-- A place of the picture with the time stamp `t`.
abbrev pub InPicture : ℕ → Slot → Type 0
InPicture t missing = Unit {0}
InPicture t (packet ts seq payload) = ts ≡ t

abbrev pub has_packet : List Slot → Bool
has_packet [] = false
has_packet (missing ∷ xs) = has_packet xs
has_packet (packet ts seq payload ∷ xs) = true

get_elem?-append : (ys xs : List Slot) (x : Slot) → get_elem? (ys ++ (x ∷ xs)) (length ys) ≡ some x
get_elem?-append [] xs x = refl
get_elem?-append (y ∷ ys) xs x = get_elem?-append ys xs x

get_elem?-length : (xs : List Slot) → get_elem? xs (length xs) ≡ none
get_elem?-length [] = refl
get_elem?-length (x ∷ xs) = get_elem?-length xs

get_elem?-within :
    (l ys xs : List Slot) (x : Slot) (n : ℕ)
    → l ≡ ys ++ (x ∷ xs)
    → n ≡ length ys
    → get_elem? l n ≡ some x
get_elem?-within l ys xs x n e here = cc (e, here, get_elem?-append ys xs x)

get_elem?-behind : (l ys : List Slot) (n : ℕ) → l ≡ ys ++ [] → n ≡ length ys → get_elem? l n ≡ none
get_elem?-behind l ys n e here = cc (e, here, append-nil ys, get_elem?-length ys)

-- The loop of decode_vid_frame on the places that are left.
unfoldable pub scan : List Slot → Found → Found
scan [] f = f
scan (missing ∷ xs) f = scan xs (record f { cnt = suc f.cnt })
scan (packet ts seq payload ∷ xs) f =
    let rest = scan xs (record (starts ts seq f) { frm_last_seq = seq; cnt = suc f.cnt }) in
    if ts == (starts ts seq f).last_ts then rest else record (starts ts seq f) { got_frame = true }

pub look-scan :
    (l : List Slot) (fuel : ℕ) (ys xs : List Slot) (f : Found)
    → l ≡ ys ++ xs
    → f.cnt ≡ length ys
    → length l < 2 ^ 32
    → length xs < fuel
    → look (get_elem? l) fuel f ≡ some (scan xs f)
unfolding look scan
look-scan l zero ys xs f e here short enough = absurd (omega arith)
look-scan l (suc fuel) ys [] f e here short enough =
    ground (arith, get_elem?-behind l ys f.cnt e here)
look-scan l (suc fuel) ys (missing ∷ xs) f e here short enough =
    let one_more : length l ≡ length ys + suc (length xs) =
      ap length e ∙ length-append ys (missing ∷ xs) in
    let next : length (ys ++ (missing ∷ [])) ≡ length ys + 1 = length-append ys (missing ∷ []) in
    let rest =
      look-scan l fuel (ys ++ (missing ∷ [])) xs (record f { cnt = suc f.cnt })
        (e ∙ sym (append_assoc ys (missing ∷ []) xs)) (omega (arith, next, here)) short
        (omega arith) in
    ground (arith, get_elem?-within l ys xs missing f.cnt e here, rest, one_more)
look-scan l (suc fuel) ys (packet ts seq payload ∷ xs) f e here short enough =
    let x : Slot = packet ts seq payload in
    let one_more : length l ≡ length ys + suc (length xs) =
      ap length e ∙ length-append ys (x ∷ xs) in
    let next : length (ys ++ (x ∷ [])) ≡ length ys + 1 = length-append ys (x ∷ []) in
    let rest =
      look-scan l fuel (ys ++ (x ∷ [])) xs
        (record (starts ts seq f) { frm_last_seq = seq; cnt = suc f.cnt })
        (e ∙ sym (append_assoc ys (x ∷ []) xs)) (omega (arith, next, here)) short (omega arith) in
    ground (arith, get_elem?-within l ys xs x f.cnt e here, rest, one_more)

-- The loop stops at the first packet behind the picture with the time stamp `t`.
pub record AtEnd (t cnt : ℕ) (f : Found) : Type 0 where
  pub got : f.got_frame ≡ true
  pub count : f.cnt ≡ cnt
  pub ts : f.last_ts ≡ t

pub scan-AtEnd :
    (t t' seq' : ℕ) (payload' : List ℕ) (xs zs : List Slot) (f : Found)
    → t ≢ 0
    → t' ≢ t
    → All (InPicture t) xs
    → (f.last_ts ≡ t) ⊎ ((f.last_ts ≡ 0) × (has_packet xs ≡ true))
    → AtEnd t (f.cnt + length xs) (scan (xs ++ (packet t' seq' payload' ∷ zs)) f)
unfolding scan
scan-AtEnd t t' seq' payload' [] zs f real other all (inl begun) = record {
  got = ground arith;
  count = ground arith;
  ts = ground arith;
}
scan-AtEnd t t' seq' payload' [] zs f real other all (inr (zero_ts, some_packet)) =
    absurd (ground arith)
scan-AtEnd t t' seq' payload' (missing ∷ xs) zs f real other (_, all) begun =
    let rest =
      scan-AtEnd t t' seq' payload' xs zs (record f { cnt = suc f.cnt }) real other all begun in
    record { got = rest.got; count = omega (arith, rest.count); ts = rest.ts }
scan-AtEnd t t' seq' payload' (packet ts seq payload ∷ xs) zs f real other (same, all) begun =
    let g : Found = record (starts ts seq f) { frm_last_seq = seq; cnt = suc f.cnt } in
    let here : (starts ts seq f).last_ts ≡ t = elim begun [
      | inl b ↦ ground arith
      | inr (z, _) ↦ ground arith
    ] in
    let rest = scan-AtEnd t t' seq' payload' xs zs g real other all (inl here) in
    record {
      got = ground (arith, here, rest.got);
      count = ground (arith, here, rest.count);
      ts = ground (arith, here, rest.ts);
    }

-- Without a packet behind the picture the loop finds no whole one.
pub scan_none :
    (t : ℕ) (xs : List Slot) (f : Found)
    → All (InPicture t) xs
    → (f.last_ts ≡ t) ⊎ (f.last_ts ≡ 0)
    → f.got_frame ≡ false
    → (scan xs f).got_frame ≡ false
unfolding scan
scan_none t [] f all begun none_yet = none_yet
scan_none t (missing ∷ xs) f (_, all) begun none_yet =
    scan_none t xs (record f { cnt = suc f.cnt }) all begun none_yet
scan_none t (packet ts seq payload ∷ xs) f (same, all) begun none_yet =
    let g : Found = record (starts ts seq f) { frm_last_seq = seq; cnt = suc f.cnt } in
    let here : (starts ts seq f).last_ts ≡ t = elim begun [
      | inl b ↦ ground arith
      | inr z ↦ ground arith
    ] in
    let rest = scan_none t xs g all (inl here) (ground arith) in ground (arith, here, rest)

-- The frames of the places `xs`.
abbrev pub frames_of : ℕ → List Slot → List RxFrame
frames_of t xs = map (λ x. rx_frame t (some x)) xs

pub rx_frames-places :
    (t : ℕ) (l ys xs rest : List Slot)
    → l ≡ ys ++ (xs ++ rest)
    → rx_frames (get_elem? l) t (length xs) (length ys) ≡ frames_of t xs
unfolding rx_frames
rx_frames-places t l ys [] rest e = refl
rx_frames-places t l ys (x ∷ xs) rest e =
    let next : length (ys ++ (x ∷ [])) ≡ suc (length ys) =
      omega (arith, length-append ys (x ∷ [])) in
    let more =
      rx_frames-places t l (ys ++ (x ∷ [])) xs rest
        (e ∙ sym (append_assoc ys (x ∷ []) (xs ++ rest))) in
    cc (get_elem?-within l ys (xs ++ rest) x (length ys) e refl, more, next)
