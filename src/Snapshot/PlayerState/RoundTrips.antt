-- ===== src/Snapshot/PlayerState/RoundTrips.antt =====
-- A `player_state_t` through Sv_WritePlayerstate and Cl_ParsePlayerstate.
use quake2world.Prelude.{
  ℕ, ◌+◌, ◌%◌, ◌^◌, ◌≤◌, ◌<◌, ◌≡◌, refl, sym, ◌∙◌, Bool, false, Option, List, [], ◌∷◌, ◌++◌, arith,
  length, length-append, get_or, test_bit, from_bits, test_bit-from_bits, from_bits-lt,
}
use quake2world.MemBuf.{MemBuf}
use quake2world.MemBuf.Valid.{IsValid}
use quake2world.Message.Delta.{
  length-given, differ-false, Reads-field, Reads-short_field, Reads-bits8,
}
use quake2world.Message.UserCmd.{Short3}
use quake2world.Message.UserCmd.RoundTrips.{InRange3}
use quake2world.Message.Write.{short_bytes, long_bytes, given}
use quake2world.Message.Write.Rules.{
  Writes, Writes-seq, Writes-if, Writes-write_byte, Writes-write_short, Writes-write_long,
}
use quake2world.Message.Read.{read_if}
use quake2world.Message.Read.Rules.{
  Reads, Reads-bind, Reads-map, Reads-read_short16, Reads-read_long,
}
use quake2world.Message.RoundTrip.{RoundTrip, roundtrip}
use quake2world.Snapshot.PlayerState.{
  PmState, PlayerState, base, max_stats, pm_changes, differ3, shown_type, stat_changes,
  write_short3, read_short3, write_pm_state, read_pm_state, write_player_state, read_player_state,
}
use quake2world.Snapshot.PlayerState.Stats.{
  AreShorts, stats_bytes, stats-Writes, stats-Reads, length-stats_bytes, stat_bits-lt,
}

-- The fields are within their C types, and within what their bytes carry.
pub record PmInRange (pm : PmState) : Type 0 where
  pub pm_type : pm.pm_type < 2 ^ 8
  pub origin : InRange3 pm.origin
  pub velocity : InRange3 pm.velocity
  pub flags : pm.flags < 2 ^ 16
  pub time : pm.time < 2 ^ 16
  pub gravity : pm.gravity < 2 ^ 16
  pub view_offset : InRange3 pm.view_offset
  pub view_angles : InRange3 pm.view_angles
  pub kick_angles : InRange3 pm.kick_angles
  pub delta_angles : InRange3 pm.delta_angles

pub record IsPlayerState (ps : PlayerState) : Type 0 where
  pub pm_state : PmInRange ps.pm_state
  pub stats : AreShorts ps.stats
  pub count : length ps.stats ≡ max_stats

abbrev short3_bytes : Short3 → List ℕ
short3_bytes v = short_bytes v.x ++ (short_bytes v.y ++ short_bytes v.z)

short3-Writes : (v : Short3) → Writes (write_short3 v) (short3_bytes v)
unfolding write_short3
short3-Writes v =
    Writes-seq (Writes-write_short v.x)
      (Writes-seq (Writes-write_short v.y) (Writes-write_short v.z))

short3-Reads : (v : Short3) → InRange3 v → Reads read_short3 (short3_bytes v) v
unfolding read_short3
short3-Reads v r =
    Reads-bind _ (Reads-read_short16 v.x r.x)
      (Reads-bind _ (Reads-read_short16 v.y r.y) (Reads-map _ v refl (Reads-read_short16 v.z r.z)))

differ3-false : (a b : Short3) → differ3 a b ≡ false → b ≡ a
differ3-false a b h = ground arith

Reads-short3_field :
    {bit : Bool} (old new : Short3)
    → bit ≡ differ3 new old
    → InRange3 new
    → Reads (read_if bit read_short3 old) (given bit (short3_bytes new)) new
Reads-short3_field old new e r = Reads-field e (differ3-false new old) (short3-Reads new r)

module _ (pm old : PmState) where
  abbrev pm_bits : ℕ
  pm_bits = from_bits (pm_changes pm old)

  pm_bytes : List ℕ
  pm_bytes =
      short_bytes pm_bits
      ++ (given (test_bit pm_bits 0) (pm.pm_type % 256 ∷ [])
          ++ (given (test_bit pm_bits 1) (short3_bytes pm.origin)
              ++ (given (test_bit pm_bits 2) (short3_bytes pm.velocity)
                  ++ (given (test_bit pm_bits 3) (short_bytes pm.flags)
                      ++ (given (test_bit pm_bits 4) (short_bytes pm.time)
                          ++ (given (test_bit pm_bits 5) (short_bytes pm.gravity)
                              ++ (given (test_bit pm_bits 6) (short3_bytes pm.view_offset)
                                  ++ (given (test_bit pm_bits 7) (short3_bytes pm.view_angles)
                                      ++ (given (test_bit pm_bits 8) (short3_bytes pm.kick_angles)
                                          ++ given (test_bit pm_bits 9)
                                              (short3_bytes pm.delta_angles))))))))))

  pm-Writes : Writes (write_pm_state pm old) pm_bytes
  unfolding write_pm_state pm_bytes
  pm-Writes = Writes-seq (Writes-write_short _) (
      Writes-seq (Writes-if _ (Writes-write_byte _)) (
        Writes-seq (Writes-if _ (short3-Writes pm.origin)) (
          Writes-seq (Writes-if _ (short3-Writes pm.velocity)) (
            Writes-seq (Writes-if _ (Writes-write_short _)) (
              Writes-seq (Writes-if _ (Writes-write_short _)) (
                Writes-seq (Writes-if _ (Writes-write_short _)) (
                  Writes-seq (Writes-if _ (short3-Writes pm.view_offset)) (
                    Writes-seq (Writes-if _ (short3-Writes pm.view_angles)) (
                      Writes-seq (Writes-if _ (short3-Writes pm.kick_angles))
                        (Writes-if _ (short3-Writes pm.delta_angles)))))))))))

  pm_bit : (k : ℕ) → test_bit pm_bits k ≡ get_or (pm_changes pm old) k false
  pm_bit k = test_bit-from_bits (pm_changes pm old) k

  -- the state that a client shows
  abbrev pub shown : Bool → PmState
  shown demo = record pm { pm_type = shown_type demo pm.pm_type }

  pm-Reads : (demo : Bool) → PmInRange pm → Reads (read_pm_state demo old) pm_bytes (shown demo)
  unfolding read_pm_state pm_bytes
  pm-Reads demo r =
      Reads-bind _ (Reads-read_short16 pm_bits (omega (arith, from_bits-lt (pm_changes pm old)))) (
        Reads-bind _ (Reads-field (pm_bit 0) (differ-false _ _) (Reads-bits8 pm.pm_type r.pm_type))
          (Reads-bind _ (Reads-short3_field _ _ (pm_bit 1) r.origin) (
            Reads-bind _ (Reads-short3_field _ _ (pm_bit 2) r.velocity) (
              Reads-bind _ (Reads-short_field _ _ (pm_bit 3) r.flags) (
                Reads-bind _ (Reads-short_field _ _ (pm_bit 4) r.time) (
                  Reads-bind _ (Reads-short_field _ _ (pm_bit 5) r.gravity) (
                    Reads-bind _ (Reads-short3_field _ _ (pm_bit 6) r.view_offset) (
                      Reads-bind _ (Reads-short3_field _ _ (pm_bit 7) r.view_angles) (
                        Reads-bind _ (Reads-short3_field _ _ (pm_bit 8) r.kick_angles) (
                          Reads-map _ (shown demo) refl
                            (Reads-short3_field _ _ (pm_bit 9) r.delta_angles)))))))))))

  length-pm_bytes : length pm_bytes ≤ 45
  unfolding pm_bytes
  length-pm_bytes = omega (arith, length-append {0}, length-given)

module _ (from : Option PlayerState) (ps : PlayerState) where
  abbrev stat_bits : ℕ
  stat_bits = from_bits (stat_changes ps.stats (base from).stats)

  pub player_bytes : List ℕ
  player_bytes =
      pm_bytes ps.pm_state (base from).pm_state
      ++ (long_bytes stat_bits ++ stats_bytes stat_bits 0 ps.stats)

  pub player-Writes : Writes (write_player_state from ps) player_bytes
  unfolding write_player_state player_bytes
  player-Writes =
      Writes-seq (pm-Writes _ _)
        (Writes-seq (Writes-write_long stat_bits) (stats-Writes stat_bits 0 ps.stats))

  pub player-Reads :
      (demo : Bool)
      → IsPlayerState ps
      → length (base from).stats ≡ max_stats
      → Reads
          (read_player_state demo from)
          player_bytes
          (record ps { pm_state = shown ps.pm_state (base from).pm_state demo })
  unfolding read_player_state player_bytes
  player-Reads demo r l = Reads-bind _ (pm-Reads _ _ demo r.pm_state) (
      Reads-bind _ (Reads-read_long stat_bits (stat_bits-lt ps.stats (base from).stats r.count l))
        (Reads-map _ _ refl (stats-Reads ps.stats (base from).stats (r.count ∙ sym l) r.stats)))

  pub length-player_bytes : IsPlayerState ps → length player_bytes ≤ 113
  unfolding player_bytes
  length-player_bytes r =
      omega (arith, length-append {0}, length-pm_bytes, length-stats_bytes, r.count)

  -- Sv_WritePlayerstate of a state, where the buffer has 113 bytes of room, is read back by
  -- Cl_ParsePlayerstate as that state, if both sides start from the same state (or both from
  -- none), the fields are in range and both have MAX_STATS stats. Only a demo shows PM_FREEZE for
  -- the type.
  pub player_state_roundtrip :
      (demo : Bool) (buf : MemBuf)
      → IsPlayerState ps
      → length (base from).stats ≡ max_stats
      → IsValid buf
      → buf.size + 113 ≤ buf.max_size
      → RoundTrip
          (write_player_state from ps)
          (read_player_state demo from)
          (record ps { pm_state = shown ps.pm_state (base from).pm_state demo })
          buf
  player_state_roundtrip demo buf r l v h =
      roundtrip player-Writes (player-Reads demo r l) buf v
        (omega (arith, length-player_bytes r, h))
