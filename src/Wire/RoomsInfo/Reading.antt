-- ===== src/Wire/RoomsInfo/Reading.antt =====
-- The rooms information read from its message.
use real_time_monitor_agent.Base.{
  ℕ, zero, suc, ◌+◌, ◌^◌, ◌≤◌, ◌<◌, ◌≡◌, refl, ap, sym, ◌∙◌, List, [], ◌∷◌, ◌++◌, arith, length,
  set, All, append_assoc, append-nil, length-append,
}
use mathlib.Core.Path.{ap₂}
use real_time_monitor_agent.Wire.RoomsInfo.Loops.{
  users_loop_more, users_loop_done, rooms_loop_more, rooms_loop_done,
}
use real_time_monitor_agent.Base.Words.{IsU16, IsU32, sub16}
use real_time_monitor_agent.Wire.Order.{NetOrder, network_bytes}
use real_time_monitor_agent.Wire.Cursor.{parsed, bind-parsed}
use real_time_monitor_agent.Wire.Parameters.{tcp_parameter}
use real_time_monitor_agent.Wire.Layout.{head_bytes, HeadFits}
use real_time_monitor_agent.Wire.Messages.{at, reads_4, reads_8, tcp_parameter-head_bytes}
use real_time_monitor_agent.Wire.RoomsInfo.{
  UserInfo, RoomInfo, RoomsInfoParameter, no_user, no_room, user_info, users_loop, room_info,
  rooms_loop, rooms_info_parameter, all_users, all_rooms,
}

-- The layout of the message.
abbrev pub user_bytes : UserInfo → List ℕ → List ℕ
user_bytes u rest =
    network_bytes 8 u.user_id
    ++ (network_bytes 4 u.mic_id
        ++ (network_bytes 4 u.audio_ssrc ++ (network_bytes 4 u.video_ssrc ++ rest)))

abbrev pub users_bytes : List UserInfo → List ℕ → List ℕ
users_bytes [] rest = rest
users_bytes (u ∷ us) rest = user_bytes u (users_bytes us rest)

abbrev pub room_bytes : RoomInfo → List ℕ → List ℕ
room_bytes r rest =
    network_bytes 4 r.room_id ++ (network_bytes 4 r.user_count ++ users_bytes r.users_info rest)

abbrev pub rooms_bytes : List RoomInfo → List ℕ → List ℕ
rooms_bytes [] rest = rest
rooms_bytes (r ∷ rs) rest = room_bytes r (rooms_bytes rs rest)

abbrev pub UserFits : UserInfo → Type 0
UserFits u = (u.user_id < 2 ^ 64) × IsU32 u.mic_id × IsU32 u.audio_ssrc × IsU32 u.video_ssrc

-- A room of at most 255 users, the most that the 8-bit counter of the loop can count.
abbrev pub RoomFits : RoomInfo → Type 0
RoomFits r =
    IsU32 r.room_id
    × (r.user_count ≡ length r.users_info)
    × (length r.users_info < 256)
    × All UserFits r.users_info

set_last {ℓ} :
    {A : Type ℓ} (xs : List A) (x y : A) → set (xs ++ (x ∷ [])) (length xs) y ≡ xs ++ (y ∷ [])
set_last [] x y = refl
set_last (z ∷ xs) x y = ap (◌∷◌ z) (set_last xs x y)

length-users_bytes : (us : List UserInfo) (rest : List ℕ) → length us ≤ length (users_bytes us rest)
length-users_bytes [] rest = omega arith
length-users_bytes (u ∷ us) rest = omega (arith, length-users_bytes us rest)

length-rooms_bytes : (rs : List RoomInfo) (rest : List ℕ) → length rs ≤ length (rooms_bytes rs rest)
length-rooms_bytes [] rest = omega arith
length-rooms_bytes (r ∷ rs) rest = omega (
  arith,
  length-rooms_bytes rs rest,
  length-users_bytes r.users_info (rooms_bytes rs rest),
  more r.users_info,
)
  where
    more :
        (us : List UserInfo)
        → length (rooms_bytes rs rest) ≤ length (users_bytes us (rooms_bytes rs rest))
    more [] = omega arith
    more (u ∷ us) = omega (arith, more us)

module _ (o : NetOrder) where
  user_info-bytes :
      (u : UserInfo) (rest : List ℕ) (l : ℕ)
      → UserFits u
      → user_info o (at (user_bytes u rest) l) ≡ parsed u (at rest (sub16 l 20))
  unfolding user_info
  user_info-bytes u rest l (hu, hm, ha, hv) = reads_8 o _ u.user_id _ l hu (
      reads_4 o _ u.mic_id _ _ hm (
        reads_4 o _ u.audio_ssrc _ _ ha
          (reads_4 o _ u.video_ssrc rest _ hv (ap (λ k. parsed u (at rest k)) (omega arith)))))

  -- What the loop reads after the users `seen`.
  users_loop-bytes :
      (us seen : List UserInfo) (fuel count : ℕ) (rest : List ℕ) (l : ℕ)
      → length us < fuel
      → count ≡ length seen + length us
      → count < 256
      → All UserFits us
      → (l' : ℕ) × (users_loop o fuel count (length seen) seen (at (users_bytes us rest) l)
          ≡ parsed (seen ++ us) (at rest l'))
  users_loop-bytes us seen zero count rest l hf hc small h = elim hf [ ]
  users_loop-bytes [] seen (suc fuel) count rest l hf hc small h = (
    l,
    users_loop_done o fuel count _ seen _ (omega arith)
        ∙ ap (λ x. parsed x (at rest l)) (sym (append-nil seen)),
  )
  users_loop-bytes (u ∷ us) seen (suc fuel) count rest l hf hc small (h, hs) =
      let (l', e) =
        users_loop-bytes us (seen ++ (u ∷ [])) fuel count rest (sub16 l 20) (omega arith)
          (omega (arith, length-append seen (u ∷ []))) small hs in
      (
        l',
        users_loop_more o fuel count _ seen _ (omega arith)
            ∙ bind-parsed (user_info o) _ (user_info-bytes u (users_bytes us rest) l h) (
                ap₂ (λ j x. users_loop o fuel count j x (at (users_bytes us rest) (sub16 l 20)))
                  (omega (arith, length-append seen (u ∷ []))) (set_last seen no_user u)
                ∙ e
                ∙ ap (λ x. parsed x (at rest l')) (append_assoc seen (u ∷ []) us)),
      )

  room_info-bytes :
      (r : RoomInfo) (rest : List ℕ) (l : ℕ)
      → RoomFits r
      → (l' : ℕ) × (room_info o (at (room_bytes r rest) l) ≡ parsed r (at rest l'))
  unfolding room_info
  room_info-bytes r rest l (hr, hc, small, hu) =
      let (l', e) =
        users_loop-bytes r.users_info [] (suc (length (users_bytes r.users_info rest))) r.user_count
          rest (sub16 (sub16 l 4) 4) (omega (arith, length-users_bytes r.users_info rest))
          (omega (arith, hc)) (omega arith) hu in
      (
        l',
        reads_4 o _ r.room_id _ l hr (
            reads_4 o _ r.user_count _ _ (omega arith)
              (bind-parsed (all_users o r.user_count) _ e refl)),
      )

  rooms_loop-bytes :
      (rs seen : List RoomInfo) (fuel count : ℕ) (rest : List ℕ) (l : ℕ)
      → length rs < fuel
      → count ≡ length seen + length rs
      → IsU32 count
      → All RoomFits rs
      → (l' : ℕ) × (rooms_loop o fuel count (length seen) seen (at (rooms_bytes rs rest) l)
          ≡ parsed (seen ++ rs) (at rest l'))
  rooms_loop-bytes rs seen zero count rest l hf hc small h = elim hf [ ]
  rooms_loop-bytes [] seen (suc fuel) count rest l hf hc small h = (
    l,
    rooms_loop_done o fuel count _ seen _ (omega arith)
        ∙ ap (λ x. parsed x (at rest l)) (sym (append-nil seen)),
  )
  rooms_loop-bytes (r ∷ rs) seen (suc fuel) count rest l hf hc small (h, hs) =
      let (k, e) = room_info-bytes r (rooms_bytes rs rest) l h in
      let (l', e') =
        rooms_loop-bytes rs (seen ++ (r ∷ [])) fuel count rest k (omega arith)
          (omega (arith, length-append seen (r ∷ []))) small hs in
      (
        l',
        rooms_loop_more o fuel count _ seen _ (omega arith)
            ∙ bind-parsed (room_info o) _ e (
                ap₂ (λ j x. rooms_loop o fuel count j x (at (rooms_bytes rs rest) k))
                  (omega (arith, length-append seen (r ∷ []))) (set_last seen no_room r)
                ∙ e'
                ∙ ap (λ x. parsed x (at rest l')) (append_assoc seen (r ∷ []) rs)),
      )

  -- A rooms information in network order, whose rooms have at most 255 users each, is read as it
  -- was meant: all rooms with all their users, in order, and the pointer behind the last.
  pub rooms_info_parameter-message :
      (p : RoomsInfoParameter) (rest : List ℕ) (l : ℕ)
      → IsU16 p.tcp.length
      → HeadFits p.tcp
      → p.room_count ≡ length p.rooms_info
      → IsU32 p.room_count
      → All RoomFits p.rooms_info
      → (l' : ℕ) × (rooms_info_parameter o (
            at (head_bytes p.tcp (network_bytes 4 p.room_count ++ rooms_bytes p.rooms_info rest)) l)
          ≡ parsed p (at rest l'))
  unfolding rooms_info_parameter
  rooms_info_parameter-message p rest l hl hh hc small hr =
      let (l', e) =
        rooms_loop-bytes p.rooms_info [] (suc (length (rooms_bytes p.rooms_info rest))) p.room_count
          rest (sub16 (sub16 l 8) 4) (omega (arith, length-rooms_bytes p.rooms_info rest))
          (omega (arith, hc)) small hr in
      (
        l',
        bind-parsed (tcp_parameter o) _ (tcp_parameter-head_bytes o p.tcp _ l hl hh)
            (reads_4 o _ p.room_count _ _ small (bind-parsed (all_rooms o p.room_count) _ e refl)),
      )
