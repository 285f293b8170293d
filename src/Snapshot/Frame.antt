-- ===== src/Snapshot/Frame.antt =====
-- Cl_ParseFrame of src/client/cl_entity.c: the client's side of a whole snapshot. The time of the frame and the
-- prediction that starts with the first frame are left out.
pub mod Known
pub mod Delivery
use quake2world.Prelude.{
  ℕ, ◌+◌, ◌-◌, ◌%◌, ◌^◌, Bool, true, false, not, ◌||◌, Option, none, some, List, ◌++◌, ltb, leb,
  ◌==◌, if◌then◌else◌, drop,
}
use quake2world.MemBuf.{MemBuf}
use quake2world.Message.Read.{Reader, ◌>>=◌, pure, read_byte, read_long, read_data}
use quake2world.Message.Vector.{Floats}
use quake2world.Snapshot.PlayerState.{PlayerState, read_player_state}
use quake2world.Snapshot.Parse.{
  Outcome, done, dropped, crashed, and_then, Client, Window, Cursor, entity_state_backup, put,
  parse_entities,
}
use quake2world.Snapshot.Emit.{packet_backup}

-- `cl_frame_t`, the entities as a window of the ring of states
pub record ClFrame : Type 0 where
  pub frame_num : ℕ
  pub delta_frame_num : ℕ
  pub area_bits : List ℕ
  pub ps : PlayerState
  pub window : Window
  pub valid : Bool

-- `cl`, as far as a frame goes; `area_bits` is that of `cl.frame`.
pub record ClState (V : Type 0) : Type 0 where
  pub cl : Client V
  pub area_bits : List ℕ
  pub frames : ℕ → ClFrame
  pub surpress_count : ℕ

-- MAX_BSP_AREAS >> 3
abbrev pub max_area_bytes : ℕ
max_area_bytes = 32

pub record FrameHeader : Type 0 where
  pub frame_num : ℕ
  pub delta_frame_num : ℕ
  pub surpress_count : ℕ

unfoldable pub read_frame_header : Reader FrameHeader
read_frame_header = do
  frame_num ← read_long
  delta_frame_num ← read_long
  surpress_count ← read_byte
  pure (record {
    frame_num = frame_num;
    delta_frame_num = delta_frame_num;
    surpress_count = surpress_count;
  })

abbrev pub delta_ps : Option ClFrame → Option PlayerState
delta_ps none = none
delta_ps (some f) = some f.ps

abbrev pub delta_window : Option ClFrame → Option Window
delta_window none = none
delta_window (some f) = some f.window

module _ {V : Type 0} (ops : Floats V) (demo : Bool) where
  -- The old frame with the number, if it is valid and not too old
  unfoldable pub check_delta : ClState V → ClFrame → ℕ → Outcome (Option ClFrame)
  check_delta st old number =
      if not old.valid
      then dropped
      else if not (old.frame_num == number)
      then dropped
      else if ltb (entity_state_backup - packet_backup)
          ((st.cl.entity_state + (2 ^ 32 - old.window.entity_state)) % 2 ^ 32)
      then dropped
      else done (some old)

  -- The frame to read over; no positive number means none.
  unfoldable pub find_delta : ClState V → ℕ → Outcome (Option ClFrame)
  find_delta st number =
      if number == 0 || leb (2 ^ 31) number
      then done none
      else check_delta st (st.frames (number % packet_backup)) number

  -- The frame is saved in the ring.
  unfoldable pub save_frame :
      ClState V → FrameHeader → List ℕ → PlayerState → Cursor V → ClState V × MemBuf
  save_frame st h bits ps c =
      let frame : ClFrame = record {
        frame_num = h.frame_num;
        delta_frame_num = h.delta_frame_num;
        area_bits = bits;
        ps = ps;
        window = c.cl.frame;
        valid = true;
      } in
      (
        record {
          cl = c.cl;
          area_bits = bits;
          frames = put st.frames (h.frame_num % packet_backup) frame;
          surpress_count = h.surpress_count;
        },
        c.msg,
      )

  unfoldable pub parse_states :
      ClState V → FrameHeader → Option ClFrame → List ℕ × MemBuf → Outcome (ClState V × MemBuf)
  parse_states st h delta (bits, msg) =
      let (ps, msg') = read_player_state demo (delta_ps delta) msg in
      and_then
        (parse_entities ops (delta_window delta) (record (st.cl) { frame_num = h.frame_num }) msg')
        λ c. done (save_frame st h bits ps c)

  -- Net_ReadData of `len` bytes over the area bits, whose array is not to be left
  unfoldable pub read_area : ClState V → ℕ → MemBuf → Outcome (List ℕ × MemBuf)
  read_area st len msg =
      if ltb max_area_bytes len
      then crashed
      else let (bits, msg') = read_data len msg in done (bits ++ drop len st.area_bits, msg')

  -- From the number of bytes in the area bits on
  unfoldable pub parse_body :
      ClState V → FrameHeader → MemBuf → Option ClFrame → Outcome (ClState V × MemBuf)
  parse_body st h msg delta =
      let (len, msg') = read_byte msg in and_then (read_area st len msg') (parse_states st h delta)

  -- Cl_ParseFrame
  unfoldable pub parse_frame : ClState V → MemBuf → Outcome (ClState V × MemBuf)
  parse_frame st msg =
      let (h, msg') = read_frame_header msg in
      and_then (find_delta st h.delta_frame_num) (parse_body st h msg')
