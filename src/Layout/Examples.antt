-- ===== src/Layout/Examples.antt =====
-- The wall of fifteen screens in a window of 1080 by 432.
use real_time_monitor_agent.Base.{◌≡◌, some, true, arith}
use real_time_monitor_agent.Layout.{Manager, change_layout}
use real_time_monitor_agent.Layout.Changes.{grid_3x5, Tiles, change_layout-Tiles}

abbrev pub one_screen : Manager
one_screen = record {
  width = 1080;
  height = 432;
  screen_mgr_res = 0;
  active = true;
  windows = record {
    titles = record { left = 0; top = 0; right = 200; bottom = 432 };
    screens = λ s. some (record { left = 200; top = 0; right = 1080; bottom = 432 });
  };
}

change_layout-Tiles_example :
    (m' : Manager) × (change_layout 4 one_screen ≡ some m')
    × (m'.screen_mgr_res ≡ 4)
    × Tiles 3 5 1080 432 m'.windows
change_layout-Tiles_example =
    change_layout-Tiles 4 3 5 one_screen grid_3x5 (λ e. ground arith) (omega arith) (omega arith)
      (omega arith)
