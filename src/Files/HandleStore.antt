-- ===== src/Files/HandleStore.antt =====
-- src/file_handle_store.rs: the handles that were issued. The mutex is held for a whole method, so
-- each method is one step on the map; the clock and the random words are arguments.
pub mod Binding
pub mod Capacity
use sardp.Base.{
  ℕ, ◌+◌, ◌-◌, ◌%◌, ◌^◌, ◌≡◌, Bool, true, false, not, ◌&&◌, Option, none, some, List, [], ◌∷◌,
  String, Result, ok, err, length, leb, ltb, bit_and, if◌then◌else◌,
}
use sardp.Base.Eq.{nat_eq, string_eq, bytes_eq, ◌=?◌}
use sardp.Base.Map
use sardp.Wire.Varint.{max_value}
use sardp.Session.Messages.{FileTransferDirection, upload, download}

pub record FileHandleRecord : Type 0 where
  pub session_id : List ℕ
  pub user_id : String
  pub direction : FileTransferDirection
  pub resolved_size : ℕ
  pub expiry_ts : ℕ

pub data FileHandleError : Type 0 where
  unknown expired session_mismatch user_mismatch direction_mismatch : FileHandleError

abbrev pub FileHandleStore : Type 0
FileHandleStore = List (ℕ × FileHandleRecord)

abbrev pub same_direction : FileTransferDirection → FileTransferDirection → Bool
same_direction upload upload = true
same_direction download download = true
same_direction _ _ = false

-- How a call of `try_issue` ends. The words that the generator draws are a list: where it ends
-- before a free handle was drawn, the loop is still running.
pub data Issued : Type 0 where
  refused drawing : Issued
  issued : ℕ → ℕ → Issued

-- The loop: a word is masked to what a varint carries, and a taken handle is drawn again.
unfoldable pub draw_handle : FileHandleStore → FileHandleRecord → List ℕ → FileHandleStore × Issued
draw_handle store entry [] = (store, drawing)
draw_handle store entry (word ∷ words) =
    let candidate = bit_and word max_value in
    if Map.contains_key candidate store
    then draw_handle store entry words
    else (Map.insert candidate entry store, issued candidate entry.expiry_ts)

unfoldable pub try_issue :
    FileHandleStore
    → List ℕ
    → String
    → FileTransferDirection
    → ℕ
    → ℕ
    → ℕ
    → ℕ
    → List ℕ
    → FileHandleStore × Issued
unfolding draw_handle
try_issue store session_id user_id direction resolved_size ttl_us max_concurrent now_us words =
    let entry : FileHandleRecord = record {
      session_id = session_id;
      user_id = user_id;
      direction = direction;
      resolved_size = resolved_size;
      expiry_ts = (now_us + ttl_us) % 2 ^ 64;
    } in
    if leb max_concurrent (length store) then (store, refused) else draw_handle store entry words

unfoldable pub sweep_expired : FileHandleStore → ℕ → FileHandleStore × ℕ
sweep_expired store now_us =
    let swept = Map.retain (λ r. leb now_us r.expiry_ts) store in
    (swept, length store - length swept)

-- `validate`, after the lookup.
unfoldable pub check_binding :
    FileHandleRecord
    → List ℕ
    → String
    → FileTransferDirection
    → ℕ
    → Result FileHandleError FileHandleRecord
check_binding r session_id user_id direction now_us =
    if not (r.session_id =? session_id)
    then err session_mismatch
    else if not (r.user_id =? user_id)
    then err user_mismatch
    else if not (same_direction r.direction direction)
    then err direction_mismatch
    else if ltb r.expiry_ts now_us
    then err expired
    else ok r

unfoldable pub validate :
    FileHandleStore
    → ℕ
    → List ℕ
    → String
    → FileTransferDirection
    → ℕ
    → Result FileHandleError FileHandleRecord
unfolding check_binding
validate store file_handle session_id user_id direction now_us =
    elim (Map.lookup file_handle store) [
      | none ↦ err unknown
      | some r ↦ check_binding r session_id user_id direction now_us
    ]

unfoldable pub remove : FileHandleStore → ℕ → FileHandleStore
remove store file_handle = Map.remove file_handle store
