-- ===== src/Video/VideoChannel/Sync.antt =====
-- The channel's trackers and state machines stay in step, so that no decision is refused.
use sardp.Base.{ℕ, ◌≡◌, ◌⊎◌, refl, Bool, true, false, ok, arith}
use sardp.Session.Messages.{KeyframeRequest}
use sardp.Video.Backpressure.{
  CongestionTracker, BackpressureDecision, continue, enter_congested, exit_congested, reset_stream,
  record_sample, evaluate, new_tracker, check_recovery,
}
use sardp.Video.InstanceSm
use sardp.Video.InstanceSm.{
  VideoInstanceSm, InstanceState, created, configuring, streaming, congested, closed, reset,
  ProtocolViolation,
}
use sardp.Video.VideoChannel.{
  VideoChannel, activate, deactivate, mark_instance_streaming, on_feedback, follow_decision,
  queue_delta, on_keyframe_request, honor_request, prepare_reopen,
}

-- The congestion tracker and the instance agree on whether it is congested, as long as it is not
-- closed.
abbrev InSync : InstanceState → Bool → Type 0
InSync created c = c ≡ false
InSync configuring c = c ≡ false
InSync streaming c = c ≡ false
InSync congested c = c ≡ true
InSync (closed r) c = Unit {0}

abbrev pub IsInSync : VideoChannel → Type 0
IsInSync v = InSync v.instance_sm.state v.congestion.congested

abbrev pub IsSending : VideoChannel → Type 0
IsSending v = (v.instance_sm.state ≡ streaming) ⊎ (v.instance_sm.state ≡ congested)

-- The relation of a decision to the tracker's flag before and after it.
abbrev Flips : BackpressureDecision → Bool → Bool → Type 0
Flips continue before after = after ≡ before
Flips enter_congested before after = (before ≡ false) × (after ≡ true)
Flips exit_congested before after = (before ≡ true) × (after ≡ false)
Flips reset_stream before after = before ≡ true

evaluate-Flips :
    (c : CongestionTracker) (now delta bytes : ℕ)
    → Flips (evaluate c now delta bytes).1 c.congested (evaluate c now delta bytes).0.congested
unfolding evaluate check_recovery
evaluate-Flips c now delta bytes = ground arith

-- The state of the instance that each decision leads to.
abbrev pub state_after : BackpressureDecision → InstanceState → InstanceState
state_after continue state = state
state_after enter_congested state = congested
state_after exit_congested state = streaming
state_after reset_stream state = closed reset

follow-InSync :
    (d : BackpressureDecision) (now : ℕ) (v : VideoChannel) (before : Bool)
    → InSync v.instance_sm.state before
    → IsSending v
    → Flips d before v.congestion.congested
    → ((follow_decision d now v).1 ≡ ok tt)
      × ((follow_decision d now v).0.instance_sm.state ≡ state_after d v.instance_sm.state)
      × IsInSync (follow_decision d now v).0
unfolding follow_decision InstanceSm.on_congested InstanceSm.on_recovered InstanceSm.on_reset
follow-InSync continue now v before sync sending flips = ground arith
follow-InSync enter_congested now v before sync sending flips = ground arith
follow-InSync exit_congested now v before sync sending flips = ground arith
follow-InSync reset_stream now v before sync sending flips = ground arith

-- While the instance sends, feedback is never refused: whatever the sample, the decision comes
-- back, the instance is in the state that the decision names, and the two still agree.
pub feedback_never_refused :
    (v : VideoChannel) (now delay bytes : ℕ)
    → IsInSync v
    → IsSending v
    → (d : BackpressureDecision) × ((on_feedback v now delay bytes).1 ≡ ok d)
      × ((on_feedback v now delay bytes).0.instance_sm.state ≡ state_after d v.instance_sm.state)
      × IsInSync (on_feedback v now delay bytes).0
unfolding on_feedback
feedback_never_refused v now delay bytes sync sending =
    let baseline = record_sample v.baseline now delay in
    let delta = queue_delta baseline delay in
    let d = (evaluate v.congestion now delta bytes).1 in
    let counted : VideoChannel = record v {
      baseline = baseline;
      congestion = (evaluate v.congestion now delta bytes).0;
    } in
    let (accepted, state, still) =
      follow-InSync d now counted v.congestion.congested sync sending
        (evaluate-Flips v.congestion now delta bytes) in
    (
      d,
      rw (accepted, on_feedback) refl,
      rw (accepted, on_feedback) state,
      rw (accepted, on_feedback) still,
    )

-- Every other operation of the channel.
pub data Op : Type 0 where
  requests : ℕ → KeyframeRequest → Op
  prepares streams focuses unfocuses : Op

abbrev pub apply : Op → VideoChannel → VideoChannel
apply (requests now r) v = (on_keyframe_request v now r).0
apply prepares v = (prepare_reopen v).0
apply streams v = (mark_instance_streaming v).0
apply focuses v = activate v
apply unfocuses v = deactivate v

pub apply-IsInSync : (op : Op) (v : VideoChannel) → IsInSync v → IsInSync (apply op v)
unfolding on_keyframe_request honor_request prepare_reopen mark_instance_streaming activate
    deactivate InstanceSm.on_client_requested_reset InstanceSm.new new_tracker
    InstanceSm.on_prologue_sent InstanceSm.on_generation_sent InstanceSm.on_encoder_config_sent
    InstanceSm.on_first_idr_sent
apply-IsInSync (requests now r) v h = ground arith
apply-IsInSync prepares v h = refl
apply-IsInSync streams v h = ground arith
apply-IsInSync focuses v h = h
apply-IsInSync unfocuses v h = h
