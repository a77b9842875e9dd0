-- ===== src/Video/MonitorManager.antt =====
-- src/monitor_manager.rs: the channels of one connection, by monitor, and the one in focus.
pub mod Focus
use sardp.Base.{
  ℕ, Bool, true, false, Option, none, some, List, [], ◌∷◌, Result, ok, err, Outcome, ◌==◌,
  if◌then◌else◌,
}
use sardp.Base.Eq.{nat_eq}
use sardp.Base.Map
use sardp.Video.VideoChannel.{VideoChannel, activate, deactivate}

-- `UnknownMonitor(monitor_id)`.
pub record UnknownMonitor : Type 0 where
  pub monitor_id : ℕ

pub record MonitorManager : Type 0 where
  pub channels : List (ℕ × VideoChannel)
  pub active_monitor_id : Option ℕ

unfoldable pub new : MonitorManager
new = record { channels = []; active_monitor_id = none }

unfoldable add_channel : MonitorManager → ℕ → VideoChannel → MonitorManager
add_channel m monitor_id channel = record {
  channels = Map.insert monitor_id channel m.channels;
  active_monitor_id = elim m.active_monitor_id [ none ↦ some monitor_id | some id ↦ some id ];
}

unfoldable pub channel : MonitorManager → ℕ → Option VideoChannel
channel m monitor_id = Map.lookup monitor_id m.channels

unfoldable pub is_registered : MonitorManager → ℕ → Bool
is_registered m monitor_id = Map.contains_key monitor_id m.channels

-- The loop over `channels.iter_mut()`.
unfoldable pub focus_on : ℕ → List (ℕ × VideoChannel) → List (ℕ × VideoChannel)
focus_on monitor_id [] = []
focus_on monitor_id ((id, c) ∷ channels) =
    (id, if id == monitor_id then activate c else deactivate c) ∷ focus_on monitor_id channels

unfoldable pub set_active_monitor : MonitorManager → ℕ → Outcome UnknownMonitor MonitorManager
set_active_monitor m monitor_id =
    if Map.contains_key monitor_id m.channels
    then (
      record { channels = focus_on monitor_id m.channels; active_monitor_id = some monitor_id },
      ok tt,
    )
    else (m, err (record { monitor_id = monitor_id }))
