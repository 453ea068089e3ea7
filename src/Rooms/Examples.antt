-- ===== src/Rooms/Examples.antt =====
-- A room of two users, one of them on a screen, and runs of the methods of the room on it.
use real_time_monitor_agent.Base.{ℕ, ◌≡◌, ◌≢◌, refl, [], ◌∷◌, none, some, true, false, arith}
use native.Mathlib.Decide.{ℕ_discrete}
use real_time_monitor_agent.Base.OrdMap.{lookup}
use real_time_monitor_agent.Store.{
  Store, User, TitleRoom, AvsProxy, ok, update, online, invalid_screen_index,
}
use real_time_monitor_agent.Rooms.{on_destory}
use real_time_monitor_agent.Rooms.Membership.{Housing}
use real_time_monitor_agent.Rooms.Destory.{on_destory-empties}
use real_time_monitor_agent.Wall.Invariant.{Sound}

abbrev pub shown_user : User
shown_user = record {
  user_id = 5;
  mic_id = 1;
  screen = some 3;
  screen_idx = 3;
  title_room = some 0;
  audio_ssrc = 70;
  video_ssrc = 71;
}

abbrev pub hidden_user : User
hidden_user = record {
  user_id = 6;
  mic_id = 2;
  screen = none;
  screen_idx = invalid_screen_index;
  title_room = some 0;
  audio_ssrc = 0;
  video_ssrc = 0;
}

abbrev pub busy_room : TitleRoom
busy_room = record { id = 9; proxy = some 0; users = (5, 0) ∷ ((6, 1) ∷ []); locked = false }

abbrev pub linked_proxy : AvsProxy
linked_proxy = record { status = online; id = 4; rooms = (9, 0) ∷ []; waits_rooms = [] }

abbrev pub busy_store : Store
busy_store = record {
  config = record { client_id = 2; local_ip = 16777343; local_media_port = 8000 };
  users = update (update (λ q. none) 0 (some shown_user)) 1 (some hidden_user);
  rooms = update (λ q. none) 0 (some busy_room);
  proxies = update (λ q. none) 0 (some linked_proxy);
  screens =
      update (λ s. record { user = none; media_active = false }) 3
        (record { user = some 0; media_active = true });
  audio_map = update (λ q. none) 70 (some 3);
  video_map = update (λ q. none) 71 (some 3);
  fresh = 2;
  sent = [];
}

pub busy_store-Sound : Sound busy_store
busy_store-Sound = record {
  linked = record {
    shows = λ s p x. (shown_user, ground arith, ground arith);
    shown = λ p s u h on. ground arith;
    active = λ s. ground arith;
  };
  free = λ p x. ground arith;
  housed = λ p u h e. ground arith;
}

pub busy_store-Housing : Housing 0 busy_room busy_store
unfolding lookup
busy_store-Housing = record {
  sound = busy_store-Sound;
  here = refl;
  unlocked = refl;
  keyed = (refl, (refl, tt));
  lives = λ k p x. elim (ℕ_discrete p 0) [
    | yes e ↦ (shown_user, ground arith, ground arith)
    | no ne ↦ (hidden_user, ground arith, ground arith)
  ];
}

on_destory-empties_example :
    (st' : Store) × (on_destory 0 busy_store ≡ ok tt st')
    × Sound st'
    × (st'.rooms 0 ≡ some (record { id = 9; proxy = none; users = []; locked = false }))
    × ((k p : ℕ) → lookup k busy_room.users ≡ some p → st'.users p ≡ none)
    × ((q : ℕ) → busy_store.users q ≡ none → st'.users q ≡ none)
    × ((q : ℕ) → q ≢ 0 → st'.rooms q ≡ busy_store.rooms q)
    × (st'.sent ≡ busy_store.sent)
    × (st'.proxies ≡ busy_store.proxies)
    × (st'.config ≡ busy_store.config)
on_destory-empties_example = on_destory-empties 0 busy_room busy_store busy_store-Housing
