-- ===== src/Snapshot/Frame/Delivery.antt =====
-- What Cl_ParseFrame of src/client/cl_entity.c makes of the message that Sv_WriteFrame of
-- src/server/sv_entity.c wrote.
use quake2world.Prelude.{
  ℕ, ◌+◌, ◌*◌, ◌%◌, ◌^◌, ◌≤◌, ◌<◌, ◌≡◌, refl, sym, ap, ◌∙◌, subst, true, false, Option, none, some,
  List, [], ◌∷◌, ◌++◌, append-nil, arith, length, length-append, ltb, ◌==◌, if_true, if_false, drop,
}
use quake2world.MemBuf.{MemBuf, remaining}
use quake2world.MemBuf.Valid.{IsValid}
use quake2world.Message.RoundTrip.{from_mark, from_mark-Holds}
use quake2world.Message.Read.{read_byte, read_data}
use quake2world.Message.Read.Rules.{Holds, Reads, Reads-read_byte}
use quake2world.Message.Write.Rules.{
  Writes, Writes-seq, Writes-write_byte, Writes-write_long, Writes-write_data,
}
use quake2world.Message.Vector.{Floats}
use quake2world.Message.Vector.Grid.{FloatLaws}
use quake2world.Message.Entity.{EntityState}
use quake2world.Message.Entity.RoundTrips.{IsOnGrid}
use quake2world.Snapshot.PlayerState.{base, max_stats, read_player_state}
use quake2world.Snapshot.PlayerState.RoundTrips.{
  IsPlayerState, player_bytes, player-Writes, player-Reads, length-player_bytes,
}
use quake2world.Snapshot.Emit.{
  SvFrame, SvClient, Store, old_entities, frame_entities, sv_cmd_frame, emit_entities,
  packet_backup, choose_delta, delta_num, delta_frame, ps_of, frame_message, write_frame,
}
use quake2world.Snapshot.Parse.{Outcome, done, crashed, and_then, Cursor, put}
use quake2world.Snapshot.Transfer.Bytes.{emit_bytes, emit-Writes, length-emit_bytes}
use quake2world.Snapshot.Transfer.Places.{Run}
use quake2world.Snapshot.Transfer.RoundTrips.{IsInStep, IsFrame, entities_parsed}
use quake2world.Snapshot.Frame.{
  ClFrame, ClState, max_area_bytes, FrameHeader, read_frame_header, delta_ps, delta_window,
  find_delta, save_frame, parse_states, read_area, parse_body, parse_frame,
}
use quake2world.Snapshot.Frame.Known.{
  AreBytes, read_data-Reads, header_bytes, header-Reads, known, IsKnown, find_delta-known, known-ps,
}

module _ {V : Type 0} (ops : Floats V) (laws : FloatLaws ops) (sv : Store V) (svc : SvClient)
    (n : ℕ) (st : ClState V) where
  abbrev delta : Option (ℕ × SvFrame)
  delta = choose_delta svc n

  abbrev from : Option SvFrame
  from = delta_frame delta

  abbrev to : SvFrame
  to = svc.frames (n % packet_backup)

  abbrev old_frame : Option ClFrame
  old_frame = known st delta

  abbrev pub olds : List (EntityState V)
  olds = old_entities sv from

  abbrev pub news : List (EntityState V)
  news = frame_entities sv to

  abbrev pub entities : ℕ
  entities = length olds + length news

  abbrev states_bytes : List ℕ
  states_bytes = emit_bytes ops laws sv entities olds news

  abbrev body_bytes : List ℕ
  body_bytes =
      (length to.area_bits % 256 ∷ [])
      ++ (to.area_bits ++ (player_bytes (ps_of from) to.ps ++ states_bytes))

  -- The frame of the server is what the client has under its number.
  abbrev pub HasFrame : ClState V → Type 0
  HasFrame st' =
      ((st'.frames (n % packet_backup)).valid ≡ true)
      × ((st'.frames (n % packet_backup)).frame_num ≡ n)
      × ((st'.frames (n % packet_backup)).area_bits
          ≡ to.area_bits ++ drop (length to.area_bits) st.area_bits)
      × ((st'.frames (n % packet_backup)).ps ≡ to.ps)
      × ((st'.frames (n % packet_backup)).window.num_entities ≡ length news)
      × Run st'.cl.entity_states (st'.frames (n % packet_backup)).window.entity_state news

  -- Both sides have the frame to delta from and the baselines, and what is sent is in range.
  pub record CanSend : Type 0 where
    pub number : n < 2 ^ 31
    pub is_known : IsKnown st delta
    pub in_step : IsInStep ops sv from to (delta_window old_frame) st.cl
    pub grid : (i : ℕ) → IsOnGrid ops (sv.baselines i)
    pub old_frame_ok : IsFrame ops olds
    pub frame_ok : IsFrame ops news
    pub player : IsPlayerState to.ps
    pub stats : length (base (ps_of from)).stats ≡ max_stats
    pub area : AreBytes to.area_bits
    pub area_fits : length to.area_bits ≤ max_area_bytes

  saved_frame :
      (h : FrameHeader) (bits : List ℕ) (d : Cursor V)
      → h.frame_num ≡ n
      → (save_frame ops false st h bits to.ps d).0.frames (n % packet_backup) ≡ record {
        frame_num = h.frame_num;
        delta_frame_num = h.delta_frame_num;
        area_bits = bits;
        ps = to.ps;
        window = d.cl.frame;
        valid = true;
      }
  unfolding save_frame put
  saved_frame h bits d e =
      let here : (n % packet_backup == h.frame_num % packet_backup) ≡ true = ground (arith, e) in
      if_true
        (record {
          frame_num = h.frame_num;
          delta_frame_num = h.delta_frame_num;
          area_bits = bits;
          ps = to.ps;
          window = d.cl.frame;
          valid = true;
        })
        (st.frames (n % packet_backup)) here

  abbrev Gets : (Outcome (ClState V × MemBuf)) → Type 0
  Gets o =
      (st' : ClState V) × (m : MemBuf) × (o ≡ done (st', m)) × (remaining m ≡ []) × HasFrame st'

  abbrev bits_after : List ℕ
  bits_after = to.area_bits ++ drop (length to.area_bits) st.area_bits

  saved-Gets :
      (h : FrameHeader) (d : Cursor V)
      → h.frame_num ≡ n
      → remaining d.msg ≡ []
      → d.cl.frame.num_entities ≡ length news
      → Run d.cl.entity_states d.cl.frame.entity_state news
      → Gets (done (save_frame ops false st h bits_after to.ps d))
  unfolding save_frame
  saved-Gets h d e nothing count run =
      let f = saved_frame h bits_after d e in
      (
        (save_frame ops false st h bits_after to.ps d).0,
        d.msg,
        refl,
        nothing,
        (
          ap (λ (f : ClFrame). f.valid) f,
          ap (λ (f : ClFrame). f.frame_num) f ∙ e,
          ap (λ (f : ClFrame). f.area_bits) f,
          ap (λ (f : ClFrame). f.ps) f,
          ap (λ (f : ClFrame). f.window.num_entities) f ∙ count,
          subst (λ (f : ClFrame). Run d.cl.entity_states f.window.entity_state news) (sym f) run,
        ),
      )

  player_read :
      CanSend
      → Reads (read_player_state false (delta_ps old_frame)) (player_bytes (ps_of from) to.ps) to.ps
  player_read c =
      subst (λ o. Reads (read_player_state false o) (player_bytes (ps_of from) to.ps) to.ps)
        (sym (known-ps ops st delta c.is_known))
        (player-Reads (ps_of from) to.ps false c.player c.stats)

  step_at :
      (h : FrameHeader)
      → CanSend
      → IsInStep ops sv from to
          (delta_window old_frame)
          (record (st.cl) { frame_num = h.frame_num })
  step_at h c = record {
    count = c.in_step.count;
    kept = c.in_step.kept;
    baselines = c.in_step.baselines;
    fits = c.in_step.fits;
  }

  states-Gets :
      (h : FrameHeader) (msg : MemBuf)
      → h.frame_num ≡ n
      → CanSend
      → Holds msg (player_bytes (ps_of from) to.ps ++ states_bytes)
      → Gets (parse_states ops false st h old_frame (bits_after, msg))
  unfolding parse_states and_then
  states-Gets h msg e c holds =
      let player = player_read c in
      let read = read_player_state false (delta_ps old_frame) msg in
      let left : Holds read.1 (states_bytes ++ []) =
        subst (Holds read.1) (sym (append-nil states_bytes))
          (player.leaves msg states_bytes holds) in
      let (d, parsed, nothing, count, run) =
        entities_parsed ops laws sv from to (delta_window old_frame)
          (record (st.cl) { frame_num = h.frame_num }) c.grid read.1 (step_at h c) c.old_frame_ok
          c.frame_ok left in
      let same =
        ap (λ o. and_then o (λ c. done (save_frame ops false st h bits_after read.0 c))) parsed
        ∙ ap (λ ps. done (save_frame ops false st h bits_after ps d))
            (player.value msg states_bytes holds) in
      subst Gets (sym same) (saved-Gets h d e nothing count run)

  body-Gets :
      (h : FrameHeader) (msg : MemBuf)
      → h.frame_num ≡ n
      → CanSend
      → Holds msg body_bytes
      → Gets (parse_body ops false st h msg old_frame)
  unfolding parse_body read_area and_then
  body-Gets h msg e c holds =
      let area = to.area_bits in
      let tail = player_bytes (ps_of from) to.ps ++ states_bytes in
      let one = Reads-read_byte (length area % 256) in
      let read = read_byte msg in
      let len : read.0 ≡ length area =
        omega (arith, one.value msg (area ++ tail) holds, c.area_fits) in
      let bytes = read_data-Reads area c.area in
      let at_area = one.leaves msg (area ++ tail) holds in
      let rest = read_data (length area) read.1 in
      let fits : ltb max_area_bytes (length area) ≡ false = ground (arith, c.area_fits) in
      let same =
        ap (λ k. and_then (read_area ops false st k read.1) (parse_states ops false st h old_frame))
          len
        ∙ ap (λ o. and_then o (parse_states ops false st h old_frame))
            (if_false crashed (done (rest.0 ++ drop (length area) st.area_bits, rest.1)) fits)
        ∙ ap
            (λ bits.
              parse_states ops false st h old_frame
                (bits ++ drop (length area) st.area_bits, rest.1))
            (bytes.value read.1 tail at_area) in
      subst Gets (sym same) (states-Gets h rest.1 e c (bytes.leaves read.1 tail at_area))

  abbrev all_bytes : List ℕ
  all_bytes =
      (sv_cmd_frame ∷ []) ++ (header_bytes n (delta_num delta) svc.surpress_count ++ body_bytes)

  message-Writes : CanSend → Writes (frame_message ops sv svc n) all_bytes
  unfolding frame_message emit_entities header_bytes
  message-Writes c = Writes-seq (Writes-write_byte sv_cmd_frame) (
      Writes-seq (Writes-write_long n) (
        Writes-seq (Writes-write_long (delta_num delta)) (
          Writes-seq (Writes-write_byte svc.surpress_count) (
            Writes-seq (Writes-write_byte (length to.area_bits)) (
              Writes-seq (Writes-write_data to.area_bits) (
                Writes-seq (player-Writes (ps_of from) to.ps) (
                  emit-Writes ops laws sv entities olds news (omega arith)
                    c.frame_ok.sendable)))))))

  length-all_bytes : CanSend → length all_bytes ≤ 158 + 32 * entities
  unfolding header_bytes
  length-all_bytes c = omega (
    arith,
    c.area_fits,
    length-append to.area_bits (player_bytes (ps_of from) to.ps ++ states_bytes),
    length-append (player_bytes (ps_of from) to.ps) states_bytes,
    length-player_bytes (ps_of from) to.ps c.player,
    length-emit_bytes ops laws sv entities olds news (omega arith),
  )

  delta_num-lt : (o : Option (ℕ × SvFrame)) → IsKnown st o → delta_num o < 2 ^ 32
  delta_num-lt none k = omega arith
  delta_num-lt (some (last, frame)) (pos, small, v, same, p, recent) = omega (arith, small)

  frame-Gets :
      (msg : MemBuf)
      → CanSend
      → Holds msg (header_bytes n (delta_num delta) svc.surpress_count ++ body_bytes)
      → Gets (parse_frame ops false st msg)
  unfolding parse_frame and_then
  frame-Gets msg c holds =
      let h : FrameHeader = record {
        frame_num = n;
        delta_frame_num = delta_num delta;
        surpress_count = svc.surpress_count % 256;
      } in
      let head =
        header-Reads n (delta_num delta) svc.surpress_count (omega (arith, c.number))
          (delta_num-lt delta c.is_known) in
      let read = read_frame_header msg in
      let same =
        ap
          (λ (h : FrameHeader).
            and_then (find_delta ops false st h.delta_frame_num) (parse_body ops false st h read.1))
          (head.value msg body_bytes holds)
        ∙ ap (λ o. and_then o (parse_body ops false st h read.1))
            (find_delta-known ops st delta c.is_known) in
      subst Gets (sym same) (body-Gets h read.1 refl c (head.leaves msg body_bytes holds))

  -- Of the message that Sv_WriteFrame writes, Cl_ParseFrame of a client that shows no demo reads everything behind the command byte,
  -- without an error, and the client then has under the number of the frame its area bits, in front of what it had of them, its player state
  -- and its entities, exactly and in their order. The client has the frame to delta from and the baselines as the server does and room in
  -- its ring; the number is below 2 ^ 31, the fields are in range, with vectors on the grids, and the numbers of the entities ascend;
  -- the buffer has 158 bytes of room and 32 more for each entity of both frames.
  pub frame_delivered :
      (buf : MemBuf)
      → CanSend
      → IsValid buf
      → buf.size + (158 + 32 * entities) ≤ buf.max_size
      → (sent : MemBuf) × (write_frame ops sv svc n buf
          ≡ some (record svc { surpress_count = 0 }, sent))
        × (st' : ClState V) × (m : MemBuf) × (parse_frame ops false st
              (read_byte (from_mark buf sent)).1
            ≡ done (st', m))
        × (remaining m ≡ [])
        × HasFrame st'
  unfolding write_frame
  frame_delivered buf c v room =
      let w = message-Writes c in
      let enough : buf.size + length all_bytes ≤ buf.max_size =
        omega (arith, length-all_bytes c, room) in
      let sent = w.result buf in
      let holds =
        subst (Holds (from_mark buf sent)) (append-nil all_bytes)
          (from_mark-Holds all_bytes v (w.appends buf v enough)) in
      let command = Reads-read_byte sv_cmd_frame in
      let (st', m, e, nothing, has) = frame-Gets (read_byte (from_mark buf sent)).1 c (
        command.leaves (from_mark buf sent)
          (header_bytes n (delta_num delta) svc.surpress_count ++ body_bytes) holds) in
      (
        sent,
        ap
            (λ o. elim o [
              | none ↦ none
              | some sent ↦ some (record svc { surpress_count = 0 }, sent)
            ])
            (w.returns buf v enough),
        st',
        m,
        e,
        nothing,
        has,
      )
