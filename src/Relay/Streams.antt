-- ===== src/Relay/Streams.antt =====
-- The streams that a session of src/relay_session.rs forwards: `deliver_stream_event`, and the stream that
-- `forward_stream` gives its caller, one poll at a time. `V` stands for the JSON of a result or an error.
-- A call has one identifier, a fresh UUID, under which are kept its pending entry, and the channel and the
-- failure that the entry and the caller share.
pub mod Feeding
pub mod Delivered
pub mod Polled
pub mod Acts
pub mod Tracks
pub mod Kept
pub mod Whole
use Prim.Native.String.{◌++◌ as append}
use iicp_client_rust.Base.{
  ℕ, ◌+◌, String, ◌==◌, Bool, true, false, not, ◌&&◌, List, [], ◌∷◌, ◌++◌, Option, none, some,
  Result, ok, err, ltb, length, if◌then◌else◌,
}
use iicp_client_rust.Base.Dict.{get, insert, remove, contains_key}
use iicp_client_rust.Native.Responses
use iicp_client_rust.Native.Responses.{Frame, ResponseSequence, accept}

-- 32 events.
abbrev pub max_relay_stream_events : ℕ
max_relay_stream_events = 32

-- The events in the channel, and the failure. The caller's end is closed when it drops the stream.
pub record Channel (V : Type 0) : Type 0 where
  pub queue : List (Frame V)
  pub failure : Option String
  pub receiving : Bool

pub record Streams (V : Type 0) : Type 0 where
  pub pending : List (String × ResponseSequence)
  pub channels : List (String × Channel V)

-- What the caller gets from a poll. The stream is over after a final event and after a failure.
pub data Item (V : Type 0) : Type 0 where
  yielded : Frame V → Item V
  failed : String → Item V
  waiting : Item V

abbrev pub reason_or : Option String → String
reason_or none = "relay stream closed before terminal"
reason_or (some reason) = reason

module _ {V : Type 0} where
  abbrev pub fresh_channel : Channel V
  fresh_channel = record { queue = []; failure = none; receiving = true }

  abbrev pub channel_or : Option (Channel V) → Channel V
  channel_or none = fresh_channel
  channel_or (some c) = c

  abbrev pub channel : Streams V → String → Channel V
  channel s call_id = channel_or (get call_id s.channels)

  -- `try_send`, which fails on a full channel and on a closed one.
  abbrev pub can_send : Channel V → Bool
  can_send c = c.receiving && ltb (length c.queue) max_relay_stream_events

  abbrev pub fails : String → Channel V → Channel V
  fails code c = record c { failure = some code }

  abbrev pub sends : Frame V → Channel V → Channel V
  sends frame c = record c { queue = c.queue ++ frame ∷ [] }

  -- The entry is removed with a reason.
  unfoldable pub drop_stream : Streams V → String → String → Streams V
  drop_stream s call_id code = record {
    pending = remove call_id s.pending;
    channels = insert call_id (fails code (channel s call_id)) s.channels;
  }

  -- What is done once the event was checked.
  unfoldable pub deliver_checked :
      Streams V → String → Frame V → ResponseSequence × Result String (Unit {0}) → Streams V
  deliver_checked s call_id frame (sequence, err code) = drop_stream s call_id code
  deliver_checked s call_id frame (sequence, ok _) =
      if can_send (channel s call_id)
      then record {
        pending = insert call_id sequence s.pending;
        channels = insert call_id (sends frame (channel s call_id)) s.channels;
      }
      else drop_stream s call_id "relay_backpressure_exceeded"

  unfoldable pub deliver_stream_event : Streams V → String → Frame V → Streams V
  deliver_stream_event s call_id frame = elim (get call_id s.pending) [
    | none ↦ s
    | some sequence ↦ deliver_checked s call_id frame (accept sequence frame)
  ]

  -- The start of `forward_stream`.
  unfoldable pub forward_stream : Streams V → String → String → String → Streams V
  forward_stream s session_id call_id task_id = record {
    pending = insert call_id (Responses.new session_id call_id task_id) s.pending;
    channels = insert call_id fresh_channel s.channels;
  }

  -- The stream ends: the guard removes the entry, and the caller's end of the channel is closed.
  unfoldable pub end_stream : Streams V → String → Channel V → Streams V
  end_stream s call_id c = record {
    pending = remove call_id s.pending;
    channels = insert call_id (record c { receiving = false }) s.channels;
  }

  -- The next event, which ends the stream if it is terminal; `c` is the channel without it.
  unfoldable pub take_next : Streams V → String → Channel V → Frame V → Bool → Streams V × Item V
  take_next s call_id c next true = (end_stream s call_id c, yielded next)
  take_next s call_id c next false =
      (record s { channels = insert call_id c s.channels }, yielded next)

  -- What `recv` gives: the next event, or the end once no entry can send, or nothing yet. `elapsed` is the
  -- message of the timeout, if it elapses.
  unfoldable pub receive :
      Streams V → String → Option String → Channel V → List (Frame V) → Streams V × Item V
  receive s call_id elapsed c (next ∷ rest) =
      take_next s call_id (record c { queue = rest }) next next.is_final
  receive s call_id none c [] =
      if contains_key call_id s.pending
      then (s, waiting)
      else (end_stream s call_id c, failed (reason_or c.failure))
  receive s call_id (some message) c [] =
      if contains_key call_id s.pending
      then (end_stream s call_id c, failed message)
      else (end_stream s call_id c, failed (reason_or c.failure))

  unfoldable pub poll_channel :
      Streams V → String → Option String → Channel V → Option String → Streams V × Item V
  poll_channel s call_id elapsed c (some reason) =
      (end_stream s call_id (record c { failure = none }), failed reason)
  poll_channel s call_id elapsed c none = receive s call_id elapsed c c.queue

  -- One turn of the loop of the stream, or the end of one that had to wait, or was overtaken by the
  -- worker, after it had looked at the failure.
  unfoldable pub poll : Streams V → String → Bool → Option String → Streams V × Item V
  poll s call_id false elapsed =
      poll_channel s call_id elapsed (channel s call_id) (channel s call_id).failure
  poll s call_id true elapsed = poll_channel s call_id elapsed (channel s call_id) none
