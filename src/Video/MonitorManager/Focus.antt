-- ===== src/Video/MonitorManager/Focus.antt =====
-- Moving the focus between monitors.
use sardp.Base.{ℕ, ◌≡◌, refl, none, some, List, [], ◌∷◌, ok, err, ◌==◌, if◌then◌else◌, arith}
use sardp.Base.Eq.{nat_eq}
use sardp.Base.Map
use sardp.Video.ChannelSm
use sardp.Video.ChannelSm.{ChannelState, live, paused, initializing, recovering}
use sardp.Video.VideoChannel.{VideoChannel, activate, deactivate}
use sardp.Video.MonitorManager.{
  MonitorManager, channel, is_registered, focus_on, set_active_monitor,
}

lookup-focus_on :
    (monitor_id id : ℕ) (channels : List (ℕ × VideoChannel))
    → Map.lookup id (focus_on monitor_id channels) ≡ elim (Map.lookup id channels) [
      | none ↦ none
      | some c ↦ some (if id == monitor_id then activate c else deactivate c)
    ]
unfolding focus_on Map.lookup
lookup-focus_on monitor_id id [] = refl
lookup-focus_on monitor_id id ((j, c) ∷ channels) =
    ground (arith, lookup-focus_on monitor_id id channels)

-- To focus a registered monitor activates its channel and deactivates each other one; to focus
-- one that is not registered is an error that leaves every channel as it is.
set_active_monitor-channel :
    (m : MonitorManager) (monitor_id id : ℕ)
    → ((set_active_monitor m monitor_id).1
        ≡ (if is_registered m monitor_id then ok tt else err (record { monitor_id = monitor_id })))
      × (channel (set_active_monitor m monitor_id).0 id ≡ elim (channel m id) [
        | none ↦ none
        | some c ↦
            if is_registered m monitor_id
            then some (if id == monitor_id then activate c else deactivate c)
            else some c
      ])
unfolding set_active_monitor channel is_registered Map.contains_key
set_active_monitor-channel m monitor_id id =
    (ground arith, ground (arith, lookup-focus_on monitor_id id m.channels))

-- After the focus moved, at most the channel in focus is live.
only_focused_live :
    (m : MonitorManager) (monitor_id id : ℕ) (c : VideoChannel)
    → (set_active_monitor m monitor_id).1 ≡ ok tt
    → channel (set_active_monitor m monitor_id).0 id ≡ some c
    → c.channel_sm.state ≡ live
    → id ≡ monitor_id
unfolding set_active_monitor channel Map.contains_key deactivate ChannelSm.deactivate
only_focused_live m monitor_id id c done found up =
    ground (arith, lookup-focus_on monitor_id id m.channels)
