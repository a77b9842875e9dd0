-- ===== src/Server/Connection.antt =====
-- sardp-cli/src/bin/sardp-server.rs: `handle_connection`, from the outcome of
-- `establish_connection` to what it leaves in the store of suspended sessions.
pub mod Establish
pub mod Lost
use sardp.Base.{
  ℕ, Bool, Option, none, some, List, String, Result, ok, err, ◌>>=◌, ◌>>◌, map_err, Outcome,
  if◌then◌else◌,
}
use sardp.Session.ReasonCode.{ReasonCode}
use sardp.Session.ConnectionSm
use sardp.Session.ConnectionSm.{ConnectionSm, on_channel_live}
use sardp.Session.Store.{SessionStore, suspend_connection}
use sardp.Files.HandleStore.{FileHandleStore}
use sardp.Video.VideoChannel
use sardp.Video.VideoChannel.{mark_instance_streaming}
use sardp.Server.Foreign.{Foreign}
use sardp.Server.ConnError.{
  ConnError, HandshakeError, TimeSyncError, ReadFeedbackError, handshake, time_sync, feedback,
  violation, is_transport_disconnect,
}
use sardp.Server.Messages.{Codec}
use sardp.Server.Session.{
  Network, SessionConfig, SessionState, Flow, next_round, ended, still_drawing,
}
use sardp.Server.Session.Loop.{Round, run_active_session, enter}

-- Without the control stream.
pub record ConnectionContext : Type 0 where
  pub connection_sm : ConnectionSm
  pub session_id : List ℕ
  pub user_id : String
  pub reconnect_token : List ℕ
  pub granted_permissions : ℕ
  pub starting_generation : ℕ
  pub is_resumed : Bool

pub data EstablishOutcome : Type 0 where
  established : ConnectionContext → EstablishOutcome
  reconnect_rejected : ReasonCode → EstablishOutcome

-- What the calls before the loop answer: the outcome above, the rounds of clock synchronization,
-- whether the frame source started and is the synthetic one, the opening of the first instance
-- under `SESSION_SETUP_TIMEOUT`, and the client's feedback stream.
pub record Answers (F : Foreign) : Type 0 where
  pub established_as : Result (HandshakeError F) EstablishOutcome
  pub burst_answered : Result (TimeSyncError F) ℕ
  pub source_started : Result (ConnError F) Bool
  pub first_opened : Result (ConnError F) (Unit {0})
  pub feedback_accepted : Result (ReadFeedbackError F) (Unit {0})

module _ {F : Foreign} where
  abbrev outcome_of : {S V A : Type 0} → (V → ConnError F) → S × Result V A → Result (ConnError F) S
  outcome_of wrap (s, ok a) = ok s
  outcome_of wrap (s, err v) = err (wrap v)

  -- Up to the loop: the context with the connection active, and the kind of the frame source.
  unfoldable pub set_up :
      Answers F → ConnectionContext → Result (ConnError F) (ConnectionContext × Bool)
  set_up a ctx = do
    _ ← map_err time_sync a.burst_answered
    is_synthetic ← a.source_started
    a.first_opened
    _ ←
        outcome_of (λ v. violation v.reason)
          (mark_instance_streaming (VideoChannel.new ctx.starting_generation))
    sm ←
        if ctx.is_resumed
        then ok ctx.connection_sm
        else outcome_of (λ v. violation v.reason) (on_channel_live ctx.connection_sm)
    map_err feedback a.feedback_accepted
    ok (record ctx { connection_sm = sm }, is_synthetic)

  abbrev after_suspend :
      Outcome ConnectionSm.ProtocolViolation SessionStore
      → SessionStore × Option (Result (ConnError F) (Unit {0}))
  after_suspend (store, result) = (store, some (map_err (λ v. violation v.reason) result))

  unfoldable pub suspend_and_store :
      SessionStore → ConnectionContext → ℕ → SessionStore × Option (Result (ConnError F) (Unit {0}))
  suspend_and_store sessions ctx last_generation = after_suspend (
      suspend_connection sessions ctx.session_id ctx.user_id ctx.connection_sm ctx.reconnect_token
        ctx.granted_permissions last_generation)

  -- The `match` on the loop's result; `none` while the rounds go on.
  unfoldable pub finish :
      SessionStore
      → ConnectionContext
      → SessionState × Result (ConnError F) Flow
      → SessionStore × Option (Result (ConnError F) (Unit {0}))
  unfolding suspend_and_store
  finish sessions ctx (s, ok ended) = (sessions, some (ok tt))
  finish sessions ctx (s, ok next_round) = (sessions, none)
  finish sessions ctx (s, ok still_drawing) = (sessions, none)
  finish sessions ctx (s, err e) =
      if is_transport_disconnect e
      then suspend_and_store sessions ctx s.video_channel.generation
      else (sessions, some (err e))

  abbrev config_for : Codec F.cbor_error → ConnectionContext × Bool → SessionConfig F
  config_for codec (ctx, is_synthetic) = record {
    granted_permissions = ctx.granted_permissions;
    session_id = ctx.session_id;
    user_id = ctx.user_id;
    is_synthetic = is_synthetic;
    codec = codec;
  }

  unfoldable run_session :
      Network F
      → Codec F.cbor_error
      → List (Round F)
      → SessionStore
      → FileHandleStore
      → ℕ
      → Result (ConnError F) (ConnectionContext × Bool)
      → SessionStore × Option (Result (ConnError F) (Unit {0}))
  unfolding finish
  run_session n codec rounds sessions handles now (err e) = (sessions, some (err e))
  run_session n codec rounds sessions handles now (ok (ctx, is_synthetic)) =
      let cfg = config_for codec (ctx, is_synthetic) in
      finish sessions ctx
        (run_active_session n cfg rounds (enter cfg ctx.starting_generation now handles))

  unfoldable pub handle_connection :
      Network F
      → Codec F.cbor_error
      → Answers F
      → List (Round F)
      → SessionStore
      → FileHandleStore
      → ℕ
      → SessionStore × Option (Result (ConnError F) (Unit {0}))
  unfolding run_session set_up
  handle_connection n codec a rounds sessions handles now = elim a.established_as [
    | err e ↦ (sessions, some (err (handshake e)))
    | ok outcome ↦ elim outcome [
      | reconnect_rejected reason ↦ (sessions, some (ok tt))
      | established ctx ↦ run_session n codec rounds sessions handles now (set_up a ctx)
    ]
  ]
